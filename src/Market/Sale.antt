-- ===== src/Market/Sale.antt =====
-- `CreateSellRequest` and `DeleteSellRequest` of marketplace_service.go.
use microservice_metarang.Prelude.{
  ℕ, ◌*◌, ◌/◌, ◌^◌, Bool, true, false, not, ◌&&◌, ◌||◌, Option, ◌==◌, ltb, if◌then◌else◌,
}
use microservice_metarang.Prelude.Int.{ℤ, pos, pos_part, cut, scale, ltb_ℤ, eqb_ℤ}
use microservice_metarang.Prelude.Action.{pure, fail, gets, or_fail, fail_if, modify, ◌>>=◌, ◌>>◌}
use microservice_metarang.Market.Constants.{
  change_status_to_sold_and_priced, change_status_to_sold_and_not_priced,
}
use microservice_metarang.Market.Tables.{
  Feature, SellRequest, Market, Env, request_not_found, feature_not_found, unauthorized,
  below_floor, zero_price, two_prices, no_price, bad_price, not_finite, Step,
}
use microservice_metarang.Market.Repository.{
  find_feature, create_sell_request, find_sell_request, delete_sell_request_row, update_prices,
  update_rgb,
}
use microservice_metarang.Market.Requests.{is_user_under18, requested_price, feature_price}

-- The text of a price: the empty one, "0", a number otherwise written, or no number.
pub data Price : Type 0 where
  empty zero_text malformed : Price
  number : ℤ → Price

abbrev pub is_explicit : Price → Bool
is_explicit empty = false
is_explicit zero_text = false
is_explicit malformed = true
is_explicit (number x) = true

abbrev pub parse : Price → Step ℤ
parse empty = pure (pos 0)
parse zero_text = pure (pos 0)
parse malformed = fail bad_price
parse (number x) = pure x

-- The floor for the seller, in percent.
abbrev pub floor_for : Env → ℕ → ℕ
floor_for env seller =
    if is_user_under18 env seller then env.pricing_limits.1 else env.pricing_limits.0

-- The price in PSC, that in IRR, and the percentage.
abbrev pub Terms : Type 0
Terms = ℤ × ℤ × ℕ

-- Half of the value at the percentage in PSC, half in IRR. A quotient by zero is no price.
unfoldable pub terms_of_percentage : Env → Feature → ℕ → ℕ → Step Terms
terms_of_percentage env f seller percentage = do
  fail_if (ltb percentage 80) below_floor
  fail_if (ltb percentage (floor_for env seller)) below_floor
  fail_if (env.psc_rate == 0) not_finite
  let value = feature_price env f * percentage
  pure (pos (value / (200 * env.psc_rate)), pos (value / (200 * 10 ^ 10)), percentage)

-- `int(requested / traded * 100)`
abbrev pub implied : ℤ → ℕ → ℤ
implied requested traded = if ltb 0 traded then cut traded (scale 100 requested) else pos 100

unfoldable pub terms_of_prices : Env → Feature → ℕ → Price → Price → Step Terms
terms_of_prices env f seller price_psc price_irr = do
  psc ← parse price_psc
  irr ← parse price_irr
  fail_if (eqb_ℤ psc (pos 0) && eqb_ℤ irr (pos 0)) zero_price
  let percentage = implied (requested_price env psc irr) (feature_price env f)
  fail_if (ltb_ℤ percentage (pos (floor_for env seller))) below_floor
  pure (psc, irr, pos_part percentage)

abbrev pub terms_of : Env → Feature → ℕ → Price → Price → ℤ → Bool → Step Terms
terms_of env f seller price_psc price_irr percentage true =
    terms_of_percentage env f seller (pos_part percentage)
terms_of env f seller price_psc price_irr percentage false =
    terms_of_prices env f seller price_psc price_irr

abbrev pub offer_for_sale : Env → Feature → ℕ → Terms → Market → Market
offer_for_sale env f seller (psc, irr, percentage) m =
    update_prices f.id (change_status_to_sold_and_priced f.karbari) psc irr percentage (
      create_sell_request
        (record {
          id = m.next_sell_request_id;
          seller_id = seller;
          feature_id = f.id;
          price_psc = psc;
          price_irr = irr;
          limit = percentage;
          status = 0;
          created_at = env.now;
        })
        m)

unfoldable pub create_sell_request_for : Env → ℕ → ℕ → Price → Price → ℤ → Step (Option SellRequest)
create_sell_request_for env seller feature price_psc price_irr percentage = do
  f ← or_fail (← gets (find_feature feature)) feature_not_found
  fail_if (not (f.owner_id == seller)) unauthorized
  fail_if ((is_explicit price_psc || is_explicit price_irr) && ltb_ℤ (pos 0) percentage) two_prices
  fail_if (not (is_explicit price_psc || is_explicit price_irr) && not (ltb_ℤ (pos 0) percentage))
      no_price
  terms ← terms_of env f seller price_psc price_irr percentage (ltb_ℤ (pos 0) percentage)
  id ← gets (λ m. m.next_sell_request_id)
  modify (offer_for_sale env f seller terms)
  gets (find_sell_request id)

unfoldable pub delete_sell_request : ℕ → ℕ → Step (Unit {0})
delete_sell_request id seller = do
  s ← or_fail (← gets (find_sell_request id)) request_not_found
  fail_if (not (s.seller_id == seller)) unauthorized
  f ← or_fail (← gets (find_feature s.feature_id)) feature_not_found
  modify (update_rgb f.id (change_status_to_sold_and_not_priced f.karbari))
  modify (delete_sell_request_row id)
