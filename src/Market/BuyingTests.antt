-- ===== src/Market/BuyingTests.antt =====
-- Purchases in a small market.
use microservice_metarang.Prelude.{◌≡◌, refl, some, [], ◌∷◌}
use microservice_metarang.Prelude.Int.{pos, ◌+ℤ◌, cut}
use microservice_metarang.Prelude.Action.{ok}
use microservice_metarang.Wallet.Row.{set_column, increase}
use microservice_metarang.Wallet.Client
use microservice_metarang.Market.Constants.{get_color, calculate_fee, calculate_buyer_charge}
use microservice_metarang.Market.Tables.{Feature, SellRequest, Market}
use microservice_metarang.Market.Repository.{
  find_feature, get_all_for_feature, find_sell_request, create_sell_request, update_prices,
}
use microservice_metarang.Market.Underpriced.{check_underpriced_restriction, is_underpriced}
use microservice_metarang.Market.Requests.{
  has_balance, is_user_under18, requested_price, feature_price,
}
use microservice_metarang.Market.Purchase.{buy_from_user, pay_prices}
use microservice_metarang.Market.Sale.{
  Price, empty, number, create_sell_request_for, terms_of_prices,
}
use microservice_metarang.Market.Buying.{buy_from_user_drops}
use microservice_metarang.Market.Tests.{plot, market, surroundings, locked}

abbrev dear_plot : Feature
dear_plot = record plot { price_psc = pos 5 }

-- The feature has no price: it costs nothing.
bought_for_nothing : (buy_from_user surroundings plot 3 market).0 ≡ ok tt
unfolding buy_from_user check_underpriced_restriction is_underpriced has_balance
    Client.check_balance calculate_buyer_charge ◌+ℤ◌ calculate_fee pay_prices Client.deduct_balance
    set_column Client.add_balance increase
bought_for_nothing = refl

buy_from_user_drops_example :
    let m = (buy_from_user surroundings plot 3 market).1 in
    (get_all_for_feature 1 m ≡ []) × (m.locked_wallets ≡ locked 10 ∷ locked 11 ∷ [])
buy_from_user_drops_example = buy_from_user_drops surroundings plot 3 market bought_for_nothing

-- A price in IRR far above the floor.
abbrev asked_price : Price
asked_price = number (pos 100)

put_on_sale :
    (create_sell_request_for surroundings 2 1 empty asked_price (pos 0) market).0
    ≡ ok (
        some (record {
          id = 1;
          seller_id = 2;
          feature_id = 1;
          price_psc = pos 0;
          price_irr = pos 100;
          limit = 12500000000000;
          status = 0;
          created_at = 1000;
        }))
unfolding create_sell_request_for terms_of_prices requested_price feature_price get_color
    find_feature create_sell_request update_prices find_sell_request ◌+ℤ◌ cut is_user_under18
put_on_sale = refl

-- User 3 put the feature up for sale once; user 2 owns it.
abbrev old_sale : SellRequest
old_sale = record {
  id = 1;
  seller_id = 3;
  feature_id = 1;
  price_psc = pos 5;
  price_irr = pos 0;
  limit = 90;
  status = 1;
  created_at = 10;
}

abbrev resold : Market
resold = record market { sell_requests = old_sale ∷ [] }
