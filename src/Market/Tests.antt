-- ===== src/Market/Tests.antt =====
-- A market with one feature and two offers on it, and the theorems of the component at it.
use microservice_metarang.Prelude.{ℕ, ◌≡◌, refl, true, false, none, some, [], ◌∷◌}
use microservice_metarang.Prelude.Int.{pos}
use microservice_metarang.Prelude.Action.{ok, err}
use microservice_metarang.Wallet.Row.{set_column, increase}
use microservice_metarang.Wallet.Repository as WalletTable
use microservice_metarang.Wallet.Service as WalletService
use microservice_metarang.Wallet.Client
use microservice_metarang.Wallet.Tests.{wallet_with}
use microservice_metarang.Market.Constants
use microservice_metarang.Market.Constants.{
  maskoni, calculate_fee, calculate_buyer_charge, calculate_seller_payment, calculate_platform_fee,
}
use microservice_metarang.Market.Tables.{
  Feature, BuyRequest, LockedWallet, Market, Env, request_not_found,
}
use microservice_metarang.Market.Repository as Repository
use microservice_metarang.Market.Repository.{find_request, find_feature, get_locked}
use microservice_metarang.Market.Underpriced as Underpriced
use microservice_metarang.Market.Requests
use microservice_metarang.Market.Requests.{
  accept_buy_request, reject_buy_request, delete_buy_request, update_grace_period, send_buy_request,
}
use microservice_metarang.Wallet.Balance.{balance, plus}
use microservice_metarang.Wallet.Calls.{has_wallet}
use microservice_metarang.Wallet.Repository.{find_by_user_id}
use microservice_metarang.Wallet.Row.{irr, psc}
use microservice_metarang.Market.Constants.{calculate_buyer_charge}
use microservice_metarang.Market.Requests.{pay_for_request}
use microservice_metarang.Market.Payout.{pay_for_request_shares}
use microservice_metarang.Market.Closing
use microservice_metarang.Market.Refunds.{IsRefunded, reject_buy_request_refunds}
use microservice_metarang.Market.Competing.{
  accept_buy_request_closes, accept_buy_request_settles_others,
}
use microservice_metarang.Market.Settlement.{accepting, rejecting, settle, settle_once}

abbrev pub plot : Feature
plot = record {
  id = 1;
  owner_id = 2;
  karbari = maskoni;
  rgb = "a";
  owner_name = "Sara";
  label = "";
  stability = 4;
  price_psc = pos 0;
  price_irr = pos 0;
  minimum_price_percentage = 80;
}

abbrev offer : ℕ → ℕ → BuyRequest
offer id buyer = record {
  id = id;
  buyer_id = buyer;
  seller_id = 2;
  feature_id = 1;
  note = "";
  price_psc = pos 100;
  price_irr = pos 40;
  status = 0;
  grace_period = none;
  is_deleted = false;
}

abbrev pub locked : ℕ → LockedWallet
locked id = record { request_id = id; feature_id = 1; psc = pos 105; irr = pos 42 }

-- Offers 10 and 11 have locked funds, offer 12 has none.
abbrev pub market : Market
market = record {
  commercial = record {
    wallets =
        wallet_with 2 (pos 0) (pos 0)
        ∷ wallet_with 3 (pos 5) (pos 8)
        ∷ wallet_with 4 (pos 0) (pos 0)
        ∷ [];
    locked_assets = [];
  };
  transactions = [];
  features = plot ∷ [];
  requests = offer 10 3 ∷ offer 11 4 ∷ offer 12 5 ∷ [];
  locked_wallets = locked 10 ∷ locked 11 ∷ [];
  sell_requests = [];
  trades = [];
  commissions = [];
  profits = [];
  limited_purchases = [];
  next_request_id = 13;
  next_trade_id = 1;
  next_sell_request_id = 1;
}

abbrev pub surroundings : Env
surroundings = record {
  now = 1000;
  has_client = true;
  rgb_user_id = none;
  has_rgb_code = λ user. some false;
  user_name = λ user. "Ali";
  withdraw_profit = λ user. none;
  birthdate = λ user. none;
  pricing_limits = (80, 110);
  psc_rate = 30;
  color_rate = λ color. 2;
  limitation = λ feature. none;
}

live_10 : find_request 10 market ≡ some (offer 10 3)
unfolding find_request
live_10 = refl

plot_found : find_feature 1 market ≡ some plot
unfolding find_feature
plot_found = refl

locked_10 : get_locked 10 market ≡ some (locked 10)
unfolding get_locked
locked_10 = refl

accepted_10 : (accept_buy_request surroundings 10 2 market).0 ≡ ok (offer 10 3)
unfolding accept_buy_request find_request find_feature get_locked
    Underpriced.check_underpriced_restriction Underpriced.is_underpriced Requests.pay_for_request
    Client.add_balance Client.handle_add_balance WalletService.add_balance WalletService.get_wallet
    WalletTable.add_balance WalletTable.find_by_user_id increase set_column
accepted_10 = refl

rejected_10 : (reject_buy_request surroundings 10 2 market).0 ≡ ok tt
unfolding reject_buy_request Requests.return_funds find_request get_locked Client.add_balance
    Client.handle_add_balance WalletService.add_balance WalletService.get_wallet
    WalletTable.add_balance WalletTable.find_by_user_id increase set_column
rejected_10 = refl

deleted_10 : (delete_buy_request surroundings 10 3 market).0 ≡ ok tt
unfolding delete_buy_request Requests.return_funds find_request get_locked Client.add_balance
    Client.handle_add_balance WalletService.add_balance WalletService.get_wallet
    WalletTable.add_balance WalletTable.find_by_user_id increase set_column
deleted_10 = refl

settle_once_example :
    let m = (settle surroundings 10 (rejecting 2) market).1 in
    settle surroundings 10 (accepting 2) m ≡ (err request_not_found, m)
settle_once_example =
    settle_once surroundings surroundings 10 (rejecting 2) (accepting 2) market
      (unfold settle in rejected_10)

reject_buy_request_refunds_example :
    ((offer 10 3).seller_id ≡ 2)
    × IsRefunded surroundings 10
        (offer 10 3)
        (locked 10)
        market
        (reject_buy_request surroundings 10 2 market).1
reject_buy_request_refunds_example =
    reject_buy_request_refunds surroundings 10 2 (offer 10 3) (locked 10) market live_10 locked_10
      rejected_10

abbrev after_accept : Market
after_accept = (accept_buy_request surroundings 10 2 market).1

accept_buy_request_closes_example :
    ((offer 10 3).seller_id ≡ 2)
    × ((offer 10 3).status ≡ 0)
    × (find_feature 1 after_accept
        ≡ some (record plot {
          owner_id = 3;
          rgb = "b";
          owner_name = "Ali";
          minimum_price_percentage = 80;
        }))
    × (find_request 10 after_accept ≡ none)
unfolding Constants.change_status_to_sold_and_not_priced Requests.is_user_under18
    Closing.handed_over
accept_buy_request_closes_example =
    accept_buy_request_closes surroundings 10 2 1 (offer 10 3) (offer 10 3) plot market live_10
      plot_found accepted_10

still_12 : find_request 12 after_accept ≡ some (offer 12 5)
unfolding accept_buy_request Requests.close_requests Requests.refund_others
    Requests.refund_buy_request Requests.hand_over Requests.pay_profit Requests.pay_platform
    Requests.record_trade Requests.create_transaction Requests.create_commission Requests.credit
    find_request find_feature get_locked Underpriced.check_underpriced_restriction
    Underpriced.is_underpriced Requests.pay_for_request Client.add_balance Client.handle_add_balance
    WalletService.add_balance WalletService.get_wallet WalletTable.add_balance
    WalletTable.find_by_user_id increase set_column Repository.soft_delete_request
    Repository.delete_locked Repository.update_request_status Repository.get_all_for_feature
    Repository.complete_sell_requests Repository.update_owner Repository.update_status
    Repository.transfer_profit_to_new_owner Repository.create_profit Repository.get_profit
    Repository.create_trade
still_12 = refl

-- The offer without locked funds is still there.
accept_buy_request_settles_others_example : get_locked 12 market ≡ none
accept_buy_request_settles_others_example =
    accept_buy_request_settles_others surroundings 10 2 12 (offer 10 3) (offer 10 3) (offer 12 5)
      plot market live_10 plot_found accepted_10 still_12 refl

period_of_10 : (update_grace_period surroundings 10 2 5 market).0 ≡ ok tt
unfolding update_grace_period find_request Repository.update_grace_period
period_of_10 = refl

abbrev with_platform : Env
with_platform = record surroundings { rgb_user_id = some 4 }

-- The buyer paid 105 units of PSC and 42 rials.
abbrev whole_offer : BuyRequest
whole_offer = record (offer 10 3) { price_psc = pos 100; price_irr = pos 400000000000 }

pay_for_request_shares_example :
    let db = (pay_for_request with_platform whole_offer 2 market).1.commercial in
    (calculate_buyer_charge (pos 100) ≡ pos 105)
    × (calculate_buyer_charge (pos 400000000000) ≡ pos 420000000000)
    × (balance 2 psc db ≡ plus (pos 95) (balance 2 psc market.commercial))
    × (balance 2 irr db ≡ plus (pos 380000000000) (balance 2 irr market.commercial))
    × (balance 4 psc db ≡ plus (pos 10) (balance 4 psc market.commercial))
    × (balance 4 irr db ≡ plus (pos 40000000000) (balance 4 irr market.commercial))
pay_for_request_shares_example =
    pay_for_request_shares with_platform whole_offer 2 4 5 2 market refl refl refl
      (unfold has_wallet find_by_user_id in refl) (unfold has_wallet find_by_user_id in refl) refl
