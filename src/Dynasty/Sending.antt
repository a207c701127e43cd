-- ===== src/Dynasty/Sending.antt =====
-- services/dynasty-service/internal/service/join_request_service_enhanced.go: what a call that sends
-- a request does with the table of the requests.
use microservice_metarang.Prelude.{
  ℕ, Bool, not, ◌&&◌, Option, none, some, List, [], ◌∷◌, ◌++◌, ◌≡◌, ap, refl, inl, inr, arith,
  Bool-cases, Option-cases,
}
use microservice_metarang.Prelude.Action.{Result, ok, err, pure, or_fail, gets, modify, ◌>>=◌, ◌>>◌}
use microservice_metarang.Dynasty.Tables.{
  Relationship, pending, JoinRequest, Registry, Env, Refusal, Step, no_dynasty, no_family, House,
  offspring, same_relationship,
}
use microservice_metarang.Dynasty.Repository.{
  create_join_request, get_dynasty_by_user_id, get_family_by_dynasty_id, new_request,
}
use microservice_metarang.Dynasty.Validation.{
  validate_relationship, validate_add_family_member, validate_relationship_limits,
  is_valid_relationship,
}
use microservice_metarang.Dynasty.Requests.{Asked, is_asked, store_permissions}
use microservice_metarang.Dynasty.Enhanced.{send_join_request, unverified}
use microservice_metarang.Dynasty.Statuses.{store-requests}

validate_add-same :
    (sender receiver : ℕ) (b : Bool) (m : Registry)
    → (validate_add_family_member sender receiver b m).1 ≡ m
unfolding validate_add_family_member
validate_add-same sender receiver b m = ground arith

validate_limits-same :
    (family : ℕ) (r : Relationship) (m : Registry) → (validate_relationship_limits family r m).1 ≡ m
unfolding validate_relationship_limits
validate_limits-same family r m = ground arith

abbrev pub rows_after : List JoinRequest → Result Refusal JoinRequest → List JoinRequest
rows_after l (ok r) = l ++ r ∷ []
rows_after l (err e) = l

-- A request that is sent is pending and has the next id.
abbrev pub IsNew : Registry → Result Refusal JoinRequest → Type 0
IsNew m (ok r) = (r.status ≡ pending) × (r.id ≡ m.next_request_id)
IsNew m (err e) = Unit

abbrev pub Adds : Step JoinRequest → Registry → Type 0
Adds s m = ((s m).1.requests ≡ rows_after m.requests (s m).0) × IsNew m (s m).0

-- A check that reads only, and what follows it.
Adds-check :
    (x : Result Refusal (Unit {0})) (m m' : Registry) (k : Step JoinRequest)
    → m' ≡ m
    → Adds k m
    → Adds ((λ (n : Registry). (x, m')) >> k) m
Adds-check (ok a) m m' k e h = rw e h
Adds-check (err y) m m' k e h = (ap (λ (n : Registry). n.requests) e, tt)

module _ (env : Env) (sender receiver : ℕ) (r : Relationship) (asked : Asked) where
  -- The stages of the call, the last one first.
  abbrev place : Step JoinRequest
  place = do
    id ← gets (λ m. m.next_request_id)
    let q = new_request id sender receiver r (some (env.receiver_message sender receiver r))
    modify (create_join_request q)
    modify (store_permissions receiver r (unverified asked))
    pure q

  abbrev measure : Option House → Step JoinRequest
  measure d = do
    e ← or_fail d no_dynasty
    f ← or_fail (← gets (get_family_by_dynasty_id e.id)) no_family
    validate_relationship_limits f.id r
    place

  abbrev admit : Step JoinRequest
  admit = do
    validate_add_family_member sender receiver (env.is_under18 sender)
    d ← gets (get_dynasty_by_user_id sender)
    measure d

  place-Adds : (m : Registry) → Adds place m
  unfolding create_join_request
  place-Adds m = (store-requests receiver r (unverified asked) _, (refl, refl))

  measure-Adds : (d : Option House) (m : Registry) → Adds (measure d) m
  measure-Adds none m = (refl, tt)
  measure-Adds (some d) m = elim (Option-cases (get_family_by_dynasty_id d.id m)) [
    | inl e ↦ rw e (refl, tt)
    | inr (f, e) ↦ rw e (Adds-check _ m _ place (validate_limits-same f.id r m) (place-Adds m))
  ]

  admit-Adds : (m : Registry) → Adds admit m
  admit-Adds m =
      Adds-check _ m _ (gets (get_dynasty_by_user_id sender) >>= measure)
        (validate_add-same sender receiver (env.is_under18 sender) m)
        (measure-Adds (get_dynasty_by_user_id sender m) m)

  pub send-requests : (m : Registry) → Adds (send_join_request env sender receiver r asked) m
  unfolding send_join_request validate_relationship
  send-requests m = elim (Bool-cases (is_valid_relationship r)) [
    | inl v ↦
        rw v
          (elim (Bool-cases
            (same_relationship r offspring && (is_asked asked && not (env.is_under18 receiver)))) [
              | inl o ↦ rw o (refl, tt)
              | inr o ↦ rw o (admit-Adds m)
            ])
    | inr v ↦ rw v (refl, tt)
  ]
