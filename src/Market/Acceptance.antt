-- ===== src/Market/Acceptance.antt =====
-- Accepting an offer: who may, what it pays, and what a refusal leaves.
use microservice_metarang.Prelude.{ℕ, Option, none, some, ◌≡◌, ◌≢◌, refl, if◌then◌else◌, arith}
use microservice_metarang.Prelude.Int.{◌+ℤ◌, ◌-ℤ◌}
use microservice_metarang.Prelude.Action.{ok, err}
use microservice_metarang.Wallet.Row.{psc, irr, Db}
use microservice_metarang.Wallet.Repository.{wallet_not_found}
use microservice_metarang.Wallet.Calls.{
  has_wallet, after_add, add_balance_lem, has_wallet-after_add,
}
use microservice_metarang.Market.Constants.{calculate_fee}
use microservice_metarang.Market.Tables.{
  Feature, BuyRequest, Market, Env, MarketError, wallet_failed,
}
use microservice_metarang.Market.Repository.{find_request, find_feature, get_locked}
use microservice_metarang.Market.Underpriced.{check_underpriced_restriction}
use microservice_metarang.Market.Requests.{
  pay_for_request, pay_platform, record_trade, hand_over, close_requests, accept_buy_request,
  refuse, when,
}
use microservice_metarang.Market.Atomic.{Reads, IsAtomic, atomic}

-- The database after the seller was paid.
unfoldable pub seller_paid : BuyRequest → ℕ → Db → Db
seller_paid r seller db =
    after_add seller irr (r.price_irr -ℤ calculate_fee r.price_irr)
      (after_add seller psc (r.price_psc -ℤ calculate_fee r.price_psc) db)

unfoldable pub paid : Env → BuyRequest → ℕ → Market → Market
paid env r seller m = record_trade env r seller (
    pay_platform env.rgb_user_id (calculate_fee r.price_psc +ℤ calculate_fee r.price_psc)
      (calculate_fee r.price_irr +ℤ calculate_fee r.price_irr)
      (record m { commercial = seller_paid r seller m.commercial }))

pub pay_for_request_lem :
    (env : Env) (r : BuyRequest) (seller : ℕ) (m : Market)
    → pay_for_request env r seller m ≡ (
        if has_wallet seller m.commercial
        then (ok tt, paid env r seller m)
        else (err (wallet_failed wallet_not_found), m))
unfolding pay_for_request paid seller_paid
pay_for_request_lem env r seller m = ground (
  arith,
  add_balance_lem seller psc (r.price_psc -ℤ calculate_fee r.price_psc) m.commercial,
  add_balance_lem seller irr (r.price_irr -ℤ calculate_fee r.price_irr)
      (after_add seller psc (r.price_psc -ℤ calculate_fee r.price_psc) m.commercial),
  has_wallet-after_add seller seller psc (r.price_psc -ℤ calculate_fee r.price_psc) m.commercial,
)

-- What precedes the hand-over.
unfoldable pub settled : Env → BuyRequest → ℕ → Market → Market
settled env r seller m = if env.has_client then paid env r seller m else m

pub refuse-Reads : (o : Option MarketError) → Reads (refuse o)
refuse-Reads none = record { same = λ m. refl }
refuse-Reads (some e) = record { same = λ m. refl }

pay_for_request-IsAtomic :
    (env : Env) (r : BuyRequest) (seller : ℕ)
    → IsAtomic (when env.has_client (pay_for_request env r seller))
pay_for_request-IsAtomic env r seller = record {
  undone = λ m e h. ground (arith, pay_for_request_lem env r seller m);
}

pub accept_buy_request-IsAtomic :
    (env : Env) (id seller : ℕ) → IsAtomic (accept_buy_request env id seller)
unfolding accept_buy_request
accept_buy_request-IsAtomic env id seller =
    search (atomic, refuse-Reads, pay_for_request-IsAtomic) depth 30

-- A refusal of AcceptBuyRequest changes nothing, whatever its reason.
pub accept_buy_request_atomic :
    (env : Env) (id seller : ℕ) (m : Market) {e : MarketError}
    → (accept_buy_request env id seller m).0 ≡ err e
    → (accept_buy_request env id seller m).1 ≡ m
accept_buy_request_atomic env id seller m {e} h =
    (accept_buy_request-IsAtomic env id seller).undone m e h

pub accept_found :
    (env : Env) (id seller : ℕ) (r x : BuyRequest) (f : Feature) (m : Market)
    → find_request id m ≡ some r
    → find_feature r.feature_id m ≡ some f
    → (accept_buy_request env id seller m).0 ≡ ok x
    → (r.seller_id ≡ seller)
      × (r.status ≡ 0)
      × (check_underpriced_restriction env f m ≡ none)
      × (get_locked id m ≢ none)
      × (x ≡ r)
      × ((accept_buy_request env id seller m).1
          ≡ close_requests env r (hand_over env f r.buyer_id seller (settled env r seller m)))
unfolding accept_buy_request settled
accept_found env id seller r x f m fr ff h = ground (arith, pay_for_request_lem env r seller m)
