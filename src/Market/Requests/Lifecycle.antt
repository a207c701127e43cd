-- ===== src/Market/Requests/Lifecycle.antt =====
-- `AcceptBuyRequest`, `RejectBuyRequest`, `DeleteBuyRequest`, `UpdateGracePeriod` and
-- `refundBuyRequest` of marketplace_service.go.
use microservice_metarang.Prelude.{
  ℕ, ◌+◌, ◌*◌, not, ◌||◌, Option, none, some, List, [], ◌∷◌, ltb, ◌==◌, if◌then◌else◌,
}
use microservice_metarang.Prelude.Action.{pure, fail, gets, or_fail, fail_if, modify, ◌>>=◌, ◌>>◌}
use microservice_metarang.Wallet.Row.{psc, irr}
use microservice_metarang.Wallet.Client
use microservice_metarang.Market.Constants.{
  default_public_pricing_limit, default_under18_pricing_limit, change_status_to_sold_and_not_priced,
}
use microservice_metarang.Market.Tables.{
  Feature, BuyRequest, LockedWallet, Market, Env, MarketError, request_not_found, feature_not_found,
  unauthorized, not_pending, locked_assets_not_found, bad_grace_period, Step,
}
use microservice_metarang.Market.Repository.{
  find_request, soft_delete_request, get_all_for_feature, update_request_status, delete_request,
  get_locked, delete_locked, find_feature, update_owner, update_status,
  transfer_profit_to_new_owner, complete_sell_requests,
}
use microservice_metarang.Market.Repository as Repository
use microservice_metarang.Market.Underpriced.{check_underpriced_restriction}
use microservice_metarang.Market.Requests.Payments.{
  wallet, credit, when, withdraw_profit_days, is_user_under18, pay_for_request, pay_profit,
}

abbrev pub refuse : Option MarketError → Step (Unit {0})
refuse none = pure tt
refuse (some e) = fail e

-- A refund of what a request has locked. The ids that the caller passes were just read, so the
-- request is found; what it has not found it leaves alone.
abbrev pub pay_back : Env → BuyRequest → LockedWallet → Market → Market
pay_back env r l m =
    if env.has_client
    then credit r.buyer_id (some irr) l.irr (credit r.buyer_id (some psc) l.psc m)
    else m

abbrev pub refund_found : Env → ℕ → Option BuyRequest → Option LockedWallet → Market → Market
refund_found env id (some r) (some l) m =
    soft_delete_request id (delete_locked id (pay_back env r l m))
refund_found env id r l m = m

unfoldable pub refund_buy_request : Env → ℕ → Market → Market
refund_buy_request env id m = refund_found env id (find_request id m) (get_locked id m) m

unfoldable pub refund_others : Env → ℕ → List BuyRequest → Market → Market
refund_others env id [] m = m
refund_others env id (r ∷ rs) m =
    refund_others env id rs (if r.id == id then m else refund_buy_request env r.id m)

-- The feature changes hands: its owner, its properties and its hourly profit.
unfoldable pub hand_over : Env → Feature → ℕ → ℕ → Market → Market
hand_over env f buyer seller m =
    let limit =
      if is_user_under18 env buyer
      then default_under18_pricing_limit
      else default_public_pricing_limit in
    let m1 = update_owner f.id buyer m in
    let m2 =
      update_status f.id (change_status_to_sold_and_not_priced f.karbari) (env.user_name buyer) ""
        limit m1 in
    transfer_profit_to_new_owner env.now f.id seller buyer (withdraw_profit_days env buyer)
      (pay_profit env f.id seller m2)

-- The accepted request and its lock are closed, and all other requests are refunded.
unfoldable pub close_requests : Env → BuyRequest → Market → Market
close_requests env r m =
    let m1 = delete_locked r.id (soft_delete_request r.id (update_request_status r.id 1 m)) in
    complete_sell_requests r.feature_id
      (refund_others env r.id (get_all_for_feature r.feature_id m1) m1)

unfoldable pub accept_buy_request : Env → ℕ → ℕ → Step BuyRequest
accept_buy_request env id seller = do
  r ← or_fail (← gets (find_request id)) request_not_found
  fail_if (not (r.seller_id == seller)) unauthorized
  fail_if (not (r.status == 0)) not_pending
  f ← or_fail (← gets (find_feature r.feature_id)) feature_not_found
  refuse (← gets (check_underpriced_restriction env f))
  or_fail (← gets (get_locked id)) locked_assets_not_found
  when env.has_client (pay_for_request env r seller)
  modify (hand_over env f r.buyer_id seller)
  modify (close_requests env r)
  pure r

-- The part that RejectBuyRequest and DeleteBuyRequest share: the refund, and the rows removed.
unfoldable pub return_funds : Env → ℕ → BuyRequest → Step (Unit {0})
return_funds env id r = do
  l ← or_fail (← gets (get_locked id)) locked_assets_not_found
  when env.has_client (do
    wallet (Client.add_balance r.buyer_id (some psc) l.psc)
    wallet (Client.add_balance r.buyer_id (some irr) l.irr))
  modify (delete_locked id)
  modify (delete_request id)

unfoldable pub reject_buy_request : Env → ℕ → ℕ → Step (Unit {0})
reject_buy_request env id seller = do
  r ← or_fail (← gets (find_request id)) request_not_found
  fail_if (not (r.seller_id == seller)) unauthorized
  return_funds env id r

unfoldable pub delete_buy_request : Env → ℕ → ℕ → Step (Unit {0})
delete_buy_request env id buyer = do
  r ← or_fail (← gets (find_request id)) request_not_found
  fail_if (not (r.buyer_id == buyer)) unauthorized
  return_funds env id r

unfoldable pub update_grace_period : Env → ℕ → ℕ → ℕ → Step (Unit {0})
update_grace_period env id seller days = do
  fail_if (ltb days 1 || ltb 30 days) bad_grace_period
  r ← or_fail (← gets (find_request id)) request_not_found
  fail_if (not (r.seller_id == seller)) unauthorized
  fail_if (not (r.status == 0)) not_pending
  modify (Repository.update_grace_period id (env.now + days * 86400))
