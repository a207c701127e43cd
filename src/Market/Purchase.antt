-- ===== src/Market/Purchase.antt =====
-- `BuyFeature` of marketplace_service.go with its three paths.
use microservice_metarang.Prelude.{
  ℕ, ◌-◌, ◌*◌, Bool, true, false, not, ◌&&◌, Option, none, some, ltb, if◌then◌else◌,
}
use microservice_metarang.Prelude.Int.{ℤ, pos}
use microservice_metarang.Prelude.Action.{
  Result, ok, err, pure, fail, gets, or_fail, fail_if, modify, ◌>>=◌, ◌>>◌,
}
use microservice_metarang.Wallet.Row.{Asset, psc, irr}
use microservice_metarang.Wallet.Repository.{Error as WalletError}
use microservice_metarang.Wallet.Client
use microservice_metarang.Market.Constants.{
  calculate_buyer_charge, calculate_seller_payment, calculate_platform_fee, get_color,
  default_public_pricing_limit, default_under18_pricing_limit, is_limited_feature,
  change_status_to_sold_and_not_priced,
}
use microservice_metarang.Market.Tables.{
  Feature, Market, Env, feature_not_found, user_not_found, no_limitation, no_client,
  insufficient_color, insufficient_funds, wallet_failed, Step,
}
use microservice_metarang.Market.Repository.{
  find_feature, update_owner, update_status, create_trade, create_profit,
  transfer_profit_to_new_owner, cancel_all_for_feature, complete_sell_requests,
  track_limited_purchase,
}
use microservice_metarang.Market.Underpriced.{check_underpriced_restriction}
use microservice_metarang.Market.Requests.{
  wallet, credit, withdraw_profit_days, create_commission, pay_platform, pay_profit, refuse,
  answered, has_balance, or_give_back, attempt,
}

-- `hours / 24 / 365 < 18`
unfoldable pub is_buyer_under18 : Env → ℕ → Bool
is_buyer_under18 env user = elim (env.birthdate user) [
  | none ↦ false
  | some date ↦ ltb (env.now - date) (18 * (365 * 86400))
]

-- The row of the buyer.
abbrev pub expect_user : Env → ℕ → Step Bool
expect_user env user = or_fail (env.has_rgb_code user) user_not_found

unfoldable pub has_color : ℕ → Option Asset → ℤ → Market → Bool
has_color user color x m = answered (Client.check_balance user color x m.commercial).0

-- The second half of an exchange; if it fails the first is given back.
abbrev pub or_return : ℕ → Option Asset → ℤ → Result WalletError (Unit {0}) → Step (Unit {0})
or_return buyer color x (ok done) = pure tt
or_return buyer color x (err e) = do modify (credit buyer color x); fail (wallet_failed e)

abbrev pub attempt_credit : ℕ → Option Asset → ℤ → Step (Result WalletError (Unit {0}))
attempt_credit user color x m =
    let (r, db) = Client.add_balance user color x m.commercial in
    (ok r, record m { commercial = db })

-- The colour that the feature costs goes from the buyer to the owner.
unfoldable pub exchange_color : Feature → ℕ → Step (Unit {0})
exchange_color f buyer = do
  wallet (Client.deduct_balance buyer (get_color f.karbari) (pos f.stability))
  or_return buyer (get_color f.karbari) (pos f.stability)
      (← attempt_credit f.owner_id (get_color f.karbari) (pos f.stability))

unfoldable pub give_to : Env → Feature → ℕ → Market → Market
give_to env f buyer m =
    update_status f.id (change_status_to_sold_and_not_priced f.karbari) (env.user_name buyer) ""
      (if is_buyer_under18 env buyer
        then default_under18_pricing_limit
        else default_public_pricing_limit)
      (update_owner f.id buyer m)

-- The feature changes hands for its colour: a trade without prices and a new hourly profit.
unfoldable pub sell_for_color : Env → Feature → ℕ → ℕ → Market → Market
sell_for_color env f buyer days m =
    create_profit env.now buyer f.id (get_color f.karbari) days
      (create_trade env.now f.id buyer f.owner_id (pos 0) (pos 0) (give_to env f buyer m))

abbrev pub check_color : Feature → ℕ → Bool → Step (Unit {0})
check_color f buyer false = pure tt
check_color f buyer true = do
  covered ← gets (has_color buyer (get_color f.karbari) (pos f.stability))
  fail_if (not covered) insufficient_color

-- Here a profit of zero days is not replaced by the default.
abbrev pub limited_days : Option ℕ → ℕ
limited_days none = 10
limited_days (some days) = days

unfoldable pub handle_limited_feature : Env → Feature → ℕ → Step (Unit {0})
handle_limited_feature env f buyer = do
  l ← or_fail (env.limitation f.id) no_limitation
  expect_user env buyer
  fail_if (not env.has_client) no_client
  check_color f buyer l.price_limit
  exchange_color f buyer
  modify (sell_for_color env f buyer (limited_days (env.withdraw_profit buyer)))
  modify (track_limited_purchase buyer l.id f.id)

unfoldable pub buy_from_rgb : Env → Feature → ℕ → Step (Unit {0})
buy_from_rgb env f buyer = do
  expect_user env buyer
  fail_if (not env.has_client) no_client
  check_color f buyer true
  exchange_color f buyer
  modify (sell_for_color env f buyer (withdraw_profit_days env buyer))

-- The wallet calls for a feature with prices.
unfoldable pub pay_prices : Env → Feature → ℕ → Step (Unit {0})
pay_prices env f buyer = do
  wallet (Client.deduct_balance buyer (some psc) (calculate_buyer_charge f.price_psc))
  or_give_back buyer (calculate_buyer_charge f.price_psc)
      (← attempt buyer (calculate_buyer_charge f.price_irr))
  wallet (Client.add_balance f.owner_id (some psc) (calculate_seller_payment f.price_psc))
  wallet (Client.add_balance f.owner_id (some irr) (calculate_seller_payment f.price_irr))
  modify (
      pay_platform env.rgb_user_id (calculate_platform_fee f.price_psc)
        (calculate_platform_fee f.price_irr))

-- What follows: the trade, the new owner, the profit, and the end of all offers.
unfoldable pub pass_on : Env → Feature → ℕ → Market → Market
pass_on env f buyer m =
    let m1 = create_trade env.now f.id buyer f.owner_id f.price_irr f.price_psc m in
    let m2 =
      create_commission m.next_trade_id (calculate_platform_fee f.price_psc)
        (calculate_platform_fee f.price_irr) m1 in
    let m3 = pay_profit env f.id f.owner_id (give_to env f buyer m2) in
    let m4 =
      transfer_profit_to_new_owner env.now f.id f.owner_id buyer (withdraw_profit_days env buyer)
        m3 in
    complete_sell_requests f.id (cancel_all_for_feature f.id m4)

unfoldable pub buy_from_user : Env → Feature → ℕ → Step (Unit {0})
buy_from_user env f buyer = do
  refuse (← gets (check_underpriced_restriction env f))
  expect_user env buyer
  fail_if (not env.has_client) no_client
  has_psc ← gets (has_balance buyer psc (calculate_buyer_charge f.price_psc))
  has_irr ← gets (has_balance buyer irr (calculate_buyer_charge f.price_irr))
  fail_if (not (has_psc && has_irr)) insufficient_funds
  pay_prices env f buyer
  modify (pass_on env f buyer)

abbrev pub choose_path : Env → Feature → ℕ → Bool → Bool → Step (Unit {0})
choose_path env f buyer true is_rgb = handle_limited_feature env f buyer
choose_path env f buyer false true = buy_from_rgb env f buyer
choose_path env f buyer false false = buy_from_user env f buyer

unfoldable pub buy_feature : Env → ℕ → ℕ → Step Feature
buy_feature env id buyer = do
  f ← or_fail (← gets (find_feature id)) feature_not_found
  is_rgb ← or_fail (env.has_rgb_code f.owner_id) user_not_found
  choose_path env f buyer (is_limited_feature f.rgb) is_rgb
  or_fail (← gets (find_feature id)) feature_not_found
