-- ===== src/Dynasty/Decisions.antt =====
-- services/dynasty-service/internal/service/join_request_service_enhanced.go: the calls that accept
-- and reject a request.
use microservice_metarang.Prelude.{
  ℕ, Bool, true, false, ◌&&◌, Option, none, some, List, ◌≡◌, ◌≢◌, refl, ◌∙◌, ap, inl, inr, arith,
  ◌==◌, if◌then◌else◌, Bool-cases, Option-cases,
}
use microservice_metarang.Prelude.Action.{Result, ok, err}
use microservice_metarang.Dynasty.Tables.{
  Status, pending, accepted, rejected, JoinRequest, Registry, Env, Refusal, not_pending,
  unauthorized, request_not_found, Step, status_code,
}
use microservice_metarang.Dynasty.Repository.{get_join_request_by_id}
use microservice_metarang.Dynasty.Policy.{can_accept, can_reject}
use microservice_metarang.Dynasty.Enhanced.{accept_join_request, reject_join_request}
use microservice_metarang.Dynasty.Statuses.{status_of, holds, accept-status, reject-status}
use microservice_metarang.Dynasty.Machine.{Call, serve_all, serve_all_decided}

abbrev pub done :
    Result Refusal (Option JoinRequest) × Registry → Result Refusal (Unit {0}) × Registry
done (ok r, m) = (ok tt, m)
done (err e, m) = (err e, m)

-- The answer to a request: `true` accepts it.
abbrev pub answer : Env → Bool → ℕ → ℕ → Step (Unit {0})
answer env true id user m = done (accept_join_request env id user m)
answer env false id user m = reject_join_request id user m

abbrev pub verdict : Bool → Status
verdict b = if b then accepted else rejected

abbrev pub refusal : ℕ → JoinRequest → Refusal
refusal user r = if r.to_user == user then not_pending else unauthorized

-- The refusal is that of the policy, and comes before all writing.
accept_refused :
    (env : Env) (id user : ℕ) (m : Registry) (r : JoinRequest)
    → get_join_request_by_id id m ≡ some r
    → can_accept user r ≡ false
    → accept_join_request env id user m ≡ (err (refusal user r), m)
unfolding accept_join_request can_accept
accept_refused env id user m r e h = rw e (elim (Bool-cases (r.to_user == user)) [
  | inl u ↦ (let p : (status_code r.status == 0) ≡ false = ground (arith, u, h) in rw (u, p) refl)
  | inr u ↦ rw u refl
])

reject_refused :
    (id user : ℕ) (m : Registry) (r : JoinRequest)
    → get_join_request_by_id id m ≡ some r
    → can_reject user r ≡ false
    → reject_join_request id user m ≡ (err (refusal user r), m)
unfolding reject_join_request can_reject
reject_refused id user m r e h = rw e (elim (Bool-cases (r.to_user == user)) [
  | inl u ↦ (let p : (status_code r.status == 0) ≡ false = ground (arith, u, h) in rw (u, p) refl)
  | inr u ↦ rw u refl
])

accept_missing :
    (env : Env) (id user : ℕ) (m : Registry)
    → get_join_request_by_id id m ≡ none
    → accept_join_request env id user m ≡ (err request_not_found, m)
unfolding accept_join_request
accept_missing env id user m e = rw e refl

reject_missing :
    (id user : ℕ) (m : Registry)
    → get_join_request_by_id id m ≡ none
    → reject_join_request id user m ≡ (err request_not_found, m)
unfolding reject_join_request
reject_missing id user m e = rw e refl

is_decided : (s : Status) → s ≢ pending → (status_code s == 0) ≡ false
is_decided pending h = absurd (h refl)
is_decided accepted h = refl
is_decided rejected h = refl

status_of-found :
    (id : ℕ) (m : Registry) (s : Status)
    → status_of id m ≡ some s
    → (r : JoinRequest) × (get_join_request_by_id id m ≡ some r) × (r.status ≡ s)
unfolding status_of
status_of-found id m s e = elim (Option-cases (get_join_request_by_id id m)) [
  | inl f ↦ absurd (ground (arith, e, f))
  | inr (r, f) ↦ (r, f, ground (arith, e, f))
]

abbrev pub may_answer : Bool → ℕ → JoinRequest → Bool
may_answer true user r = can_accept user r
may_answer false user r = can_reject user r

decided_refused :
    (b : Bool) (user : ℕ) (r : JoinRequest)
    → (status_code r.status == 0) ≡ false
    → may_answer b user r ≡ false
unfolding can_accept can_reject
decided_refused true user r h = ground (arith, h)
decided_refused false user r h = ground (arith, h)

answer_refused :
    (env : Env) (b : Bool) (id user : ℕ) (m : Registry) (r : JoinRequest)
    → get_join_request_by_id id m ≡ some r
    → may_answer b user r ≡ false
    → answer env b id user m ≡ (err (refusal user r), m)
answer_refused env true id user m r e h = ap done (accept_refused env id user m r e h)
answer_refused env false id user m r e h = reject_refused id user m r e h

answer_missing :
    (env : Env) (b : Bool) (id user : ℕ) (m : Registry)
    → get_join_request_by_id id m ≡ none
    → answer env b id user m ≡ (err request_not_found, m)
answer_missing env true id user m e = ap done (accept_missing env id user m e)
answer_missing env false id user m e = reject_missing id user m e

done-same : (p : Result Refusal (Option JoinRequest) × Registry) → (done p).1 ≡ p.1
done-same (ok r, m) = refl
done-same (err e, m) = refl

answer-status :
    (env : Env) (b : Bool) (j id user : ℕ) (m : Registry)
    → status_of j (answer env b id user m).1 ≡ (
        if (j == id) && holds (may_answer b user) (get_join_request_by_id id m)
        then some (verdict b)
        else status_of j m)
answer-status env true j id user m =
    ap (status_of j) (done-same (accept_join_request env id user m)) ∙ accept-status env j id user m
answer-status env false j id user m = reject-status j id user m

-- Who gets an answer was permitted to ask for it.
pub answer_permitted :
    (env : Env) (b : Bool) (id user : ℕ) (m : Registry)
    → (answer env b id user m).0 ≡ ok tt
    → (r : JoinRequest) × (get_join_request_by_id id m ≡ some r) × (may_answer b user r ≡ true)
answer_permitted env b id user m h = elim (Option-cases (get_join_request_by_id id m)) [
  | inl e ↦ absurd (ground (arith, h, answer_missing env b id user m e))
  | inr (r, e) ↦ (
    r,
    e,
    elim (Bool-cases (may_answer b user r)) [
      | inl t ↦ t
      | inr f ↦ absurd (ground (arith, h, answer_refused env b id user m r e f))
    ],
  )
]

verdict-decided : (b : Bool) → verdict b ≢ pending
verdict-decided true e = ground (arith, ap status_code e)
verdict-decided false e = ground (arith, ap status_code e)

answered-status :
    (env : Env) (b : Bool) (id user : ℕ) (m : Registry)
    → (answer env b id user m).0 ≡ ok tt
    → status_of id (answer env b id user m).1 ≡ some (verdict b)
answered-status env b id user m h =
    let (r, e, t) = answer_permitted env b id user m h in
    answer-status env b id id user m ∙ rw (e, t) (ground arith)

-- A decided request refuses every answer.
pub answer_decided :
    (env : Env) (b : Bool) (id user : ℕ) (m : Registry) (s : Status)
    → status_of id m ≡ some s
    → s ≢ pending
    → (e : Refusal) × (answer env b id user m ≡ (err e, m))
answer_decided env b id user m s e h =
    let (r, f, g) = status_of-found id m s e in
    (
      refusal user r,
      answer_refused env b id user m r f (decided_refused b user r (rw g (is_decided s h))),
    )

-- Once a call that accepts or rejects a request has succeeded, each further such call is refused
-- and changes nothing, whatever calls were made in between.
pub answer_once :
    (env : Env) (b c : Bool) (id user other_user : ℕ) (cs : List Call) (m : Registry)
    → (answer env b id user m).0 ≡ ok tt
    → (e : Refusal) × (answer env c id other_user (serve_all env cs (answer env b id user m).1)
        ≡ (err e, serve_all env cs (answer env b id user m).1))
answer_once env b c id user other_user cs m h =
    let m' = serve_all env cs (answer env b id user m).1 in
    let s =
      serve_all_decided env cs id (answer env b id user m).1 (verdict b)
        (answered-status env b id user m h) (verdict-decided b) in
    answer_decided env c id other_user m' (verdict b) s (verdict-decided b)
