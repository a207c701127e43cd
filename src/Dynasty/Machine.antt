-- ===== src/Dynasty/Machine.antt =====
-- services/dynasty-service/internal: a join request as a state machine, the specification of the
-- calls of the service with all rules.
use mathlib.Core.Path.{subst}
use microservice_metarang.Prelude.{
  ap, ℕ, Bool, true, false, ◌&&◌, Option, none, some, List, [], ◌∷◌, ◌≡◌, ◌≢◌, refl, sym, inl, inr,
  arith, ◌==◌, if◌then◌else◌, Bool-cases, Option-cases,
}
use microservice_metarang.Prelude.Action.{Result, ok, err}
use microservice_metarang.Prelude.Rows.{first}
use microservice_metarang.Dynasty.Tables.{
  Relationship, Status, pending, accepted, rejected, JoinRequest, Registry, Env, Refusal,
  status_code,
}
use microservice_metarang.Dynasty.Repository.{get_join_request_by_id, has_id}
use microservice_metarang.Dynasty.Policy.{can_accept, can_reject}
use microservice_metarang.Dynasty.Requests.{Asked}
use microservice_metarang.Dynasty.Enhanced.{
  send_join_request, accept_join_request, reject_join_request,
}
use microservice_metarang.Dynasty.Statuses.{
  status_of, status_found, holds, accept-status, reject-status, first-append,
}
use microservice_metarang.Dynasty.Sending.{send-requests, rows_after, IsNew}

-- The specification: a request is sent once and decided once.
pub data Move : Option Status → Option Status → Type 0 where
  stay : (p : Option Status) → Move p p
  sent : {p q : Option Status} → p ≡ none → q ≡ some pending → Move p q
  decided : {p q : Option Status} (s : Status) → p ≡ some pending → q ≡ some s → Move p q

pub data Moves (p : Option Status) : Option Status → Type 0 where
  here : Moves p p
  next : {q r : Option Status} → Moves p q → Move q r → Moves p r

pub data Call : Type 0 where
  send : ℕ → ℕ → Relationship → Asked → Call
  accept : ℕ → ℕ → Call
  reject : ℕ → ℕ → Call

-- The tables after a call, whether it succeeds or fails, and after a list of calls.
abbrev pub serve : Env → Call → Registry → Registry
serve env (send sender receiver r asked) m = (send_join_request env sender receiver r asked m).1
serve env (accept id user) m = (accept_join_request env id user m).1
serve env (reject id user) m = (reject_join_request id user m).1

abbrev pub serve_all : Env → List Call → Registry → Registry
serve_all env [] m = m
serve_all env (c ∷ cs) m = serve_all env cs (serve env c m)

decided-Move :
    (p q : Option Status) (s : Status) (b : Bool)
    → (b ≡ true → p ≡ some pending)
    → q ≡ (if b then some s else p)
    → Move p q
decided-Move p q s true h e = decided s (h refl) e
decided-Move p q s false h e = subst (λ x. Move p x) (sym e) (stay p)

-- Who may decide finds the request pending.
held-pending : (s : Status) (b : Bool) → b && (status_code s == 0) ≡ true → s ≡ pending
held-pending pending b h = refl
held-pending accepted b h = ground arith
held-pending rejected b h = ground arith

accept-pending :
    (user : ℕ) (o : Option JoinRequest)
    → holds (can_accept user) o ≡ true
    → status_found o ≡ some pending
unfolding can_accept
accept-pending user none h = ground arith
accept-pending user (some r) h = ap some (held-pending r.status (r.to_user == user) h)

reject-pending :
    (user : ℕ) (o : Option JoinRequest)
    → holds (can_reject user) o ≡ true
    → status_found o ≡ some pending
unfolding can_reject
reject-pending user none h = ground arith
reject-pending user (some r) h = ap some (held-pending r.status (r.to_user == user) h)

decide-Move :
    (j id : ℕ) (m : Registry) (b : Bool) (s : Status) (q : Option Status)
    → (b ≡ true → status_of id m ≡ some pending)
    → q ≡ (if (j == id) && b then some s else status_of j m)
    → Move (status_of j m) q
decide-Move j id m b s q h e =
    decided-Move (status_of j m) q s ((j == id) && b) (λ t. ground (arith, h, t)) e

added-Move :
    (j : ℕ) (m m' : Registry) (x : Result Refusal JoinRequest)
    → m'.requests ≡ rows_after m.requests x
    → IsNew m x
    → Move (status_of j m) (status_of j m')
unfolding status_of get_join_request_by_id
added-Move j m m' (err y) e h = rw e (stay _)
added-Move j m m' (ok r) e h =
    rw (e, first-append j m.requests r)
      (elim (Option-cases (first (has_id j) m.requests)) [
        | inl f ↦ rw f (elim (Bool-cases (r.id == j)) [
          | inl t ↦ rw t (sent refl (ap some h.0))
          | inr t ↦ rw t (stay none)
        ])
        | inr (a, f) ↦ rw f (stay (some a.status))
      ])

-- Every call moves the status of every request by a move of the specification.
serve-Move :
    (env : Env) (c : Call) (j : ℕ) (m : Registry)
    → Move (status_of j m) (status_of j (serve env c m))
serve-Move env (send sender receiver r asked) j m =
    let h = send-requests env sender receiver r asked m in added-Move j m _ _ h.0 h.1
serve-Move env (accept id user) j m =
    decide-Move j id m (holds (can_accept user) (get_join_request_by_id id m)) accepted _
      (unfold status_of in accept-pending user (get_join_request_by_id id m))
      (accept-status env j id user m)
serve-Move env (reject id user) j m =
    decide-Move j id m (holds (can_reject user) (get_join_request_by_id id m)) rejected _
      (unfold status_of in reject-pending user (get_join_request_by_id id m))
      (reject-status j id user m)

Moves-prepend : {p q r : Option Status} → Move p q → Moves q r → Moves p r
Moves-prepend m here = next here m
Moves-prepend m (next k n) = next (Moves-prepend m k) n

-- What a list of calls does to the status of a request is a sequence of moves of the specification.
pub serve_all-Moves :
    (env : Env) (cs : List Call) (j : ℕ) (m : Registry)
    → Moves (status_of j m) (status_of j (serve_all env cs m))
serve_all-Moves env [] j m = here
serve_all-Moves env (c ∷ cs) j m =
    Moves-prepend (serve-Move env c j m) (serve_all-Moves env cs j (serve env c m))

decided_stays : (s : Status) → s ≢ pending → {q : Option Status} → Moves (some s) q → q ≡ some s
decided_stays s h here = refl
decided_stays s h (next k m) = moved (decided_stays s h k) m
  where
    moved : {q r : Option Status} → q ≡ some s → Move q r → r ≡ some s
    moved e (stay p) = e
    moved e (sent f g) = absurd (ground (arith, e, f))
    moved e (decided t f g) = absurd (ground (arith, h, e, f))

-- A request that is accepted or rejected stays so, whatever calls follow.
pub serve_all_decided :
    (env : Env) (cs : List Call) (j : ℕ) (m : Registry) (s : Status)
    → status_of j m ≡ some s
    → s ≢ pending
    → status_of j (serve_all env cs m) ≡ some s
serve_all_decided env cs j m s e h =
    decided_stays s h
      (subst (λ x. Moves x (status_of j (serve_all env cs m))) (e) (serve_all-Moves env cs j m))
