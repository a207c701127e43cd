-- ===== src/Market/GracePeriod.antt =====
-- The grace period that a seller gives an offer.
use microservice_metarang.Prelude.{
  ℕ, ◌+◌, ◌*◌, ◌≤◌, none, some, List, [], ◌∷◌, ◌≡◌, refl, ◌==◌, if◌then◌else◌, arith, Option-cases,
  inl, inr,
}
use microservice_metarang.Prelude.Action.{ok}
use microservice_metarang.Market.Tables.{BuyRequest, Market, Env}
use microservice_metarang.Market.Repository.{
  find_request, find_feature, get_locked, first, change, is_live,
}
use microservice_metarang.Market.Repository
use microservice_metarang.Market.Requests.{update_grace_period}

abbrev with_period : ℕ → BuyRequest → BuyRequest
with_period time r = record r { grace_period = some time }

first-with_period :
    (j k time : ℕ) (rs : List BuyRequest)
    → first (is_live j) (change (λ r. r.id == k) (with_period time) rs)
      ≡ (elim (first (is_live j) rs) [
        | none ↦ none
        | some q ↦ some (if j == k then with_period time q else q)
      ])
first-with_period j k time [] = refl
first-with_period j k time (r ∷ rs) = ground (arith, first-with_period j k time rs)

grace_result :
    (env : Env) (id seller days : ℕ) (m : Market)
    → (update_grace_period env id seller days m).0 ≡ ok tt
    → (update_grace_period env id seller days m).1
      ≡ Repository.update_grace_period id (env.now + days * 86400) m
unfolding update_grace_period
grace_result env id seller days m h = elim (Option-cases (find_request id m)) [
  | inl n ↦ absurd (ground arith)
  | inr (r, s) ↦ ground arith
]

-- UpdateGracePeriod succeeds on a live request only for its seller, while it is pending, and for 1
-- to 30 days. Then the request has the new end of the period, so many days from now, and every
-- other request is as it was.
pub update_grace_period_lem :
    (env : Env) (id seller days j : ℕ) (r : BuyRequest) (m : Market)
    → find_request id m ≡ some r
    → (update_grace_period env id seller days m).0 ≡ ok tt
    → (1 ≤ days)
      × (days ≤ 30)
      × (r.seller_id ≡ seller)
      × (r.status ≡ 0)
      × (find_request j (update_grace_period env id seller days m).1 ≡ (
          if j == id
          then some (record r { grace_period = some (env.now + days * 86400) })
          else find_request j m))
unfolding update_grace_period
update_grace_period_lem env id seller days j r m fr h =
    (ground arith, ground arith, ground arith, ground arith, period)
  where
    period : find_request j (update_grace_period env id seller days m).1 ≡ (
        if j == id
        then some (record r { grace_period = some (env.now + days * 86400) })
        else find_request j m)
    period = rw (grace_result env id seller days m h) (
        unfold find_request Repository.update_grace_period in
        ground (arith, first-with_period j id (env.now + days * 86400) m.requests))
