-- ===== src/Market/Underpriced.antt =====
-- `checkUnderpricedRestriction` of marketplace_service.go, with the queries of
-- sell_request_repository.go and trade_repository.go: who has sold a feature below 100 % waits for
-- 24 hours before the next sale.
use microservice_metarang.Prelude.{
  ℕ, ◌+◌, ◌-◌, ◌/◌, ◌%◌, Bool, ◌&&◌, Option, none, some, List, [], ◌∷◌, ltb, ◌==◌, if◌then◌else◌,
}
use microservice_metarang.Market.Tables.{Feature, SellRequest, Trade, Market, Env, MarketError}
use microservice_metarang.Market.Tables.{wait_hours, wait_minutes}
use microservice_metarang.Market.Repository.{is_some, first, select}

abbrev pub seconds_a_day : ℕ
seconds_a_day = 86400

-- `ORDER BY created_at DESC LIMIT 1`: of several of one time, the first.
module _ {A : Type 0} (time : A → ℕ) where
  abbrev later : A → Option A → A
  later a none = a
  later a (some b) = if ltb (time a) (time b) then b else a

  abbrev pub latest : List A → Option A
  latest [] = none
  latest (a ∷ rest) = some (later a (latest rest))

abbrev pub is_underpriced_sale : SellRequest → Bool
is_underpriced_sale s = ltb s.limit 100

unfoldable pub is_underpriced : ℕ → Market → Bool
is_underpriced feature m =
    is_some (first (λ s. s.feature_id == feature && is_underpriced_sale s) m.sell_requests)

unfoldable pub latest_underpriced_sale : ℕ → Market → Option SellRequest
latest_underpriced_sale seller m =
    latest (λ s. s.created_at)
      (select (λ s. s.seller_id == seller && is_underpriced_sale s) m.sell_requests)

-- The trades that the join with the sell requests of the same feature and seller keeps.
unfoldable pub latest_underpriced_trade : ℕ → ℕ → Market → Option Trade
latest_underpriced_trade seller feature m =
    latest (λ t. t.created_at)
      (select
        (λ t.
          t.seller_id == seller
          && (t.feature_id == feature
              && is_some (
                  first
                    (λ s.
                      s.feature_id == t.feature_id
                      && (s.seller_id == t.seller_id && is_underpriced_sale s))
                    m.sell_requests)))
        m.trades)

unfoldable pub is_within24_hours : ℕ → Trade → Bool
is_within24_hours now t = ltb (now - t.created_at) seconds_a_day

-- Hours and minutes until the lock expires; both are zero once it has.
unfoldable pub get_time_remaining : ℕ → Trade → ℕ × ℕ
get_time_remaining now t =
    let remaining = t.created_at + seconds_a_day - now in (remaining / 3600, remaining / 60 % 60)

abbrev wait : ℕ × ℕ → MarketError
wait (hours, minutes) = if ltb hours 1 then wait_minutes minutes else wait_hours hours

unfoldable pub check_trade : ℕ → Option Trade → Option MarketError
unfolding is_within24_hours get_time_remaining
check_trade now none = none
check_trade now (some t) =
    if is_within24_hours now t then some (wait (get_time_remaining now t)) else none

unfoldable pub check_sale : ℕ → ℕ → Option SellRequest → Market → Option MarketError
unfolding check_trade latest_underpriced_trade
check_sale now seller none m = none
check_sale now seller (some s) m = check_trade now (latest_underpriced_trade seller s.feature_id m)

-- The error that refuses the sale of a feature, if there is one.
unfoldable pub check_underpriced_restriction : Env → Feature → Market → Option MarketError
unfolding is_underpriced latest_underpriced_sale check_sale
check_underpriced_restriction env f m =
    if is_underpriced f.id m
    then check_sale env.now f.owner_id (latest_underpriced_sale f.owner_id m) m
    else none
