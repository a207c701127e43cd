-- ===== src/Market/Settlement.antt =====
-- The calls that settle an offer, by whomever, seen together.
use microservice_metarang.Prelude.{
  ℕ, none, some, ◌≡◌, ◌≢◌, refl, ap, ◌∙◌, arith, Option-cases, inl, inr, ◌⊎◌,
}
use microservice_metarang.Prelude.Action.{Result, ok, err}
use microservice_metarang.Market.Tables.{
  BuyRequest, Market, Env, MarketError, request_not_found, locked_assets_not_found, Step,
}
use microservice_metarang.Market.Repository.{find_request, find_feature, get_locked}
use microservice_metarang.Market.Requests.{
  accept_buy_request, reject_buy_request, delete_buy_request, return_funds,
}
use microservice_metarang.Market.Acceptance.{accept_buy_request_atomic, accept_found}
use microservice_metarang.Market.Competing.{accept_buy_request_closes}
use microservice_metarang.Market.Refunds.{
  reject_buy_request_refunds, delete_buy_request_refunds, return_funds_lem, reject_found,
  delete_found, reject_buy_request_atomic, delete_buy_request_atomic,
}

-- The calls that settle an offer, each with its caller.
pub data Settlement : Type 0 where
  accepting rejecting withdrawing : ℕ → Settlement

abbrev done : Result MarketError BuyRequest × Market → Result MarketError (Unit {0}) × Market
done (ok r, m) = (ok tt, m)
done (err e, m) = (err e, m)

unfoldable pub settle : Env → ℕ → Settlement → Step (Unit {0})
settle env id (accepting seller) m = done (accept_buy_request env id seller m)
settle env id (rejecting seller) m = reject_buy_request env id seller m
settle env id (withdrawing buyer) m = delete_buy_request env id buyer m

accept_missing :
    (env : Env) (id seller : ℕ) (m : Market)
    → find_request id m ≡ none
    → accept_buy_request env id seller m ≡ (err request_not_found, m)
unfolding accept_buy_request
accept_missing env id seller m n = rw n refl

reject_missing :
    (env : Env) (id seller : ℕ) (m : Market)
    → find_request id m ≡ none
    → reject_buy_request env id seller m ≡ (err request_not_found, m)
unfolding reject_buy_request
reject_missing env id seller m n = rw n refl

delete_missing :
    (env : Env) (id buyer : ℕ) (m : Market)
    → find_request id m ≡ none
    → delete_buy_request env id buyer m ≡ (err request_not_found, m)
unfolding delete_buy_request
delete_missing env id buyer m n = rw n refl

settle_missing :
    (env : Env) (id : ℕ) (a : Settlement) (m : Market)
    → find_request id m ≡ none
    → settle env id a m ≡ (err request_not_found, m)
unfolding settle
settle_missing env id (accepting seller) m n = ap done (accept_missing env id seller m n)
settle_missing env id (rejecting seller) m n = reject_missing env id seller m n
settle_missing env id (withdrawing buyer) m n = delete_missing env id buyer m n

accept_without_feature :
    (env : Env) (id seller : ℕ) (r x : BuyRequest) (m : Market)
    → find_request id m ≡ some r
    → find_feature r.feature_id m ≡ none
    → (accept_buy_request env id seller m).0 ≢ ok x
unfolding accept_buy_request
accept_without_feature env id seller r x m fr n = ground arith

accept_gone :
    (env : Env) (id seller : ℕ) (x : BuyRequest) (m : Market)
    → (accept_buy_request env id seller m).0 ≡ ok x
    → find_request id (accept_buy_request env id seller m).1 ≡ none
accept_gone env id seller x m h = elim (Option-cases (find_request id m)) [
  | inl n ↦ absurd (ground (arith, accept_missing env id seller m n))
  | inr (r, fr) ↦ elim (Option-cases (find_feature r.feature_id m)) [
    | inl n ↦ absurd (accept_without_feature env id seller r x m fr n h)
    | inr (f, ff) ↦ (accept_buy_request_closes env id seller id r x f m fr ff h).3
  ]
]

return_funds_unlocked :
    (env : Env) (id : ℕ) (r : BuyRequest) (m : Market)
    → get_locked id m ≡ none
    → return_funds env id r m ≡ (err locked_assets_not_found, m)
return_funds_unlocked env id r m n = rw (return_funds_lem env id r m, n) refl

reject_gone :
    (env : Env) (id seller : ℕ) (m : Market)
    → (reject_buy_request env id seller m).0 ≡ ok tt
    → find_request id (reject_buy_request env id seller m).1 ≡ none
reject_gone env id seller m h = elim (Option-cases (find_request id m)) [
  | inl n ↦ absurd (ground (arith, reject_missing env id seller m n))
  | inr (r, fr) ↦ elim (Option-cases (get_locked id m)) [
    | inl n ↦
        absurd
          (ground (arith, reject_found env id seller r m fr, return_funds_unlocked env id r m n))
    | inr (l, g) ↦ ground (arith, (reject_buy_request_refunds env id seller r l m fr g h).1.0 id)
  ]
]

delete_gone :
    (env : Env) (id buyer : ℕ) (m : Market)
    → (delete_buy_request env id buyer m).0 ≡ ok tt
    → find_request id (delete_buy_request env id buyer m).1 ≡ none
delete_gone env id buyer m h = elim (Option-cases (find_request id m)) [
  | inl n ↦ absurd (ground (arith, delete_missing env id buyer m n))
  | inr (r, fr) ↦ elim (Option-cases (get_locked id m)) [
    | inl n ↦
        absurd
          (ground (arith, delete_found env id buyer r m fr, return_funds_unlocked env id r m n))
    | inr (l, g) ↦ ground (arith, (delete_buy_request_refunds env id buyer r l m fr g h).1.0 id)
  ]
]

done_ok :
    (p : Result MarketError BuyRequest × Market)
    → (done p).0 ≡ ok tt
    → ((x : BuyRequest) × (p.0 ≡ ok x)) × ((done p).1 ≡ p.1)
done_ok (ok x, m) h = ((x, refl), refl)
done_ok (err e, m) h = cc

settle_gone :
    (env : Env) (id : ℕ) (a : Settlement) (m : Market)
    → (settle env id a m).0 ≡ ok tt
    → find_request id (settle env id a m).1 ≡ none
unfolding settle
settle_gone env id (accepting seller) m h =
    let (found, same) = done_ok (accept_buy_request env id seller m) h in
    rw same (accept_gone env id seller found.0 m found.1)
settle_gone env id (rejecting seller) m h = reject_gone env id seller m h
settle_gone env id (withdrawing buyer) m h = delete_gone env id buyer m h

-- Of all the calls that accept, reject or withdraw one offer, by whomever and in whatever
-- surroundings, at most one succeeds: after one that did, every other one finds no request and
-- changes nothing. So no funds are paid out twice.
pub settle_once :
    (env env' : Env) (id : ℕ) (a b : Settlement) (m : Market)
    → (settle env id a m).0 ≡ ok tt
    → let m' = (settle env id a m).1 in settle env' id b m' ≡ (err request_not_found, m')
settle_once env env' id a b m h =
    settle_missing env' id b (settle env id a m).1 (settle_gone env id a m h)

Result-cases :
    {A : Type 0} (r : Result MarketError A)
    → ((a : A) × (r ≡ ok a)) ⊎ ((e : MarketError) × (r ≡ err e))
Result-cases (ok a) = inl (a, refl)
Result-cases (err e) = inr (e, refl)

accept_unlocked :
    (env : Env) (id seller : ℕ) (x : BuyRequest) (m : Market)
    → get_locked id m ≡ none
    → (accept_buy_request env id seller m).0 ≢ ok x
accept_unlocked env id seller x m n h = elim (Option-cases (find_request id m)) [
  | inl no_request ↦ absurd (ground (arith, accept_missing env id seller m no_request))
  | inr (r, fr) ↦ elim (Option-cases (find_feature r.feature_id m)) [
    | inl no_feature ↦ accept_without_feature env id seller r x m fr no_feature h
    | inr (f, ff) ↦ (accept_found env id seller r x f m fr ff h).3 n
  ]
]

settle_unlocked_fails :
    (env : Env) (id : ℕ) (a : Settlement) (m : Market)
    → get_locked id m ≡ none
    → (settle env id a m).0 ≢ ok tt
unfolding settle
settle_unlocked_fails env id (accepting seller) m n h =
    let (found, same) = done_ok (accept_buy_request env id seller m) h in
    accept_unlocked env id seller found.0 m n found.1
settle_unlocked_fails env id (rejecting seller) m n h = elim (Option-cases (find_request id m)) [
  | inl no_request ↦ absurd (ground (arith, reject_missing env id seller m no_request))
  | inr (r, fr) ↦
      absurd (ground (arith, reject_found env id seller r m fr, return_funds_unlocked env id r m n))
]
settle_unlocked_fails env id (withdrawing buyer) m n h = elim (Option-cases (find_request id m)) [
  | inl no_request ↦ absurd (ground (arith, delete_missing env id buyer m no_request))
  | inr (r, fr) ↦
      absurd (ground (arith, delete_found env id buyer r m fr, return_funds_unlocked env id r m n))
]

done_err :
    (p : Result MarketError BuyRequest × Market) (e : MarketError)
    → (done p).0 ≡ err e
    → (p.0 ≡ err e) × ((done p).1 ≡ p.1)
done_err (ok x, m) e h = cc
done_err (err k, m) e h = (ground arith, refl)

-- A call that accepts, rejects or withdraws an offer and fails has changed nothing, as a wallet call
-- fails for a missing wallet or an unknown asset only: the second of two then fails with the first.
pub settle_atomic :
    (env : Env) (id : ℕ) (a : Settlement) (m : Market) (e : MarketError)
    → (settle env id a m).0 ≡ err e
    → (settle env id a m).1 ≡ m
unfolding settle
settle_atomic env id (accepting seller) m e h =
    let (failed, same) = done_err (accept_buy_request env id seller m) e h in
    same ∙ accept_buy_request_atomic env id seller m failed
settle_atomic env id (rejecting seller) m e h = reject_buy_request_atomic env id seller m h
settle_atomic env id (withdrawing buyer) m e h = delete_buy_request_atomic env id buyer m h

-- While no funds are locked for an offer, no call by anyone accepts, rejects or withdraws it: each
-- fails and changes nothing, so the offer stays as it is.
pub settle_unlocked :
    (env : Env) (id : ℕ) (a : Settlement) (m : Market)
    → get_locked id m ≡ none
    → ((e : MarketError) × ((settle env id a m).0 ≡ err e)) × ((settle env id a m).1 ≡ m)
settle_unlocked env id a m n = elim (Result-cases (settle env id a m).0) [
  | inl (u, h) ↦ absurd (settle_unlocked_fails env id a m n h)
  | inr (e, h) ↦ ((e, h), settle_atomic env id a m e h)
]
