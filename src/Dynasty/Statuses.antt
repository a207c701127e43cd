-- ===== src/Dynasty/Statuses.antt =====
-- services/dynasty-service/internal: the status of a join request under the calls of the service
-- with all rules.
use Prim.Native.String.{String}
use microservice_metarang.Prelude.{
  ℕ, Bool, true, false, ◌&&◌, Option, none, some, List, [], ◌∷◌, ◌++◌, ◌≡◌, refl, ◌∙◌, inl, inr,
  arith, ◌==◌, if◌then◌else◌, Bool-cases, Option-cases,
}
use microservice_metarang.Prelude.Action.{Result, ok, err, modify, gets, ◌>>=◌, ◌>>◌}
use microservice_metarang.Prelude.Rows.{first, change}
use microservice_metarang.Dynasty.Tables.{
  Relationship, Status, accepted, rejected, JoinRequest, Registry, Env, DynastyPrize, Refusal, Step,
  status_code,
}
use microservice_metarang.Dynasty.Repository.{
  has_id, with_status, update_join_request_status, get_join_request_by_id, get_dynasty_by_user_id,
  get_family_by_dynasty_id, create_family_member, create_child_permission, update_child_permission,
  award_prize, get_prize_by_relationship,
}
use microservice_metarang.Dynasty.Policy.{can_accept, can_reject}
use microservice_metarang.Dynasty.Requests.{
  Asked, store_permissions, grant_permissions, join_family, award_found,
}
use microservice_metarang.Dynasty.Enhanced.{accept_join_request, reject_join_request}

abbrev pub status_found : Option JoinRequest → Option Status
status_found none = none
status_found (some r) = some r.status

unfoldable pub status_of : ℕ → Registry → Option Status
unfolding get_join_request_by_id
status_of id m = status_found (get_join_request_by_id id m)

abbrev pub holds : (JoinRequest → Bool) → Option JoinRequest → Bool
holds test none = false
holds test (some r) = test r

first-change :
    (j id : ℕ) (s : Status) (l : List JoinRequest)
    → status_found (first (has_id j) (change (has_id id) (with_status s) l)) ≡ (
        if (j == id) && holds (λ r. true) (first (has_id id) l)
        then some s
        else status_found (first (has_id j) l))
first-change j id s [] = ground arith
first-change j id s (r ∷ l) = ground (arith, first-change j id s l)

pub first-append :
    (j : ℕ) (l : List JoinRequest) (r : JoinRequest)
    → status_found (first (has_id j) (l ++ r ∷ [])) ≡ elim (first (has_id j) l) [
      | some a ↦ some a.status
      | none ↦ if r.id == j then some r.status else none
    ]
first-append j [] r = ground arith
first-append j (a ∷ l) r = ground (arith, first-append j l r)

pub update-status_of :
    (j id : ℕ) (s : Status) (m : Registry)
    → status_of j (update_join_request_status id s m) ≡ (
        if (j == id) && holds (λ r. true) (get_join_request_by_id id m)
        then some s
        else status_of j m)
unfolding status_of update_join_request_status get_join_request_by_id
update-status_of j id s m = first-change j id s m.requests

grant-requests :
    (env : Env) (r : JoinRequest) (user : ℕ) (m : Registry)
    → (grant_permissions env r user m).requests ≡ m.requests
unfolding grant_permissions create_child_permission update_child_permission
grant-requests env r user m = ground arith

join-requests :
    (env : Env) (r : JoinRequest) (user : ℕ) (m : Registry)
    → (join_family env r user m).1.requests ≡ m.requests
unfolding join_family create_family_member
join-requests env r user m = elim (Option-cases (get_dynasty_by_user_id r.from_user m)) [
  | inl e ↦ rw e refl
  | inr (d, e) ↦ rw e (elim (Option-cases (get_family_by_dynasty_id d.id m)) [
    | inl e' ↦ rw e' refl
    | inr (f, e') ↦
        rw e' (grant-requests env r user (create_family_member f.id user r.relationship m))
  ])
]

award-requests :
    (p : Option DynastyPrize) (user : ℕ) (t : String) (m : Registry)
    → (award_found p user t m).requests ≡ m.requests
unfolding award_prize
award-requests none user t m = refl
award-requests (some p) user t m = refl

pub store-requests :
    (user : ℕ) (r : Relationship) (asked : Asked) (m : Registry)
    → (store_permissions user r asked m).requests ≡ m.requests
unfolding store_permissions create_child_permission
store-requests user r none m = refl
store-requests user r (some (v, g)) m = ground arith

-- What follows the joining in a call that accepts.
abbrev pub award : Env → JoinRequest → ℕ → ℕ → Step (Option JoinRequest)
award env r id user = do
  modify (
      award_found (get_prize_by_relationship r.relationship env.prizes) r.from_user
        (env.accept_message r.from_user user r.relationship))
  gets (get_join_request_by_id id)

award-requests_after :
    (env : Env) (r : JoinRequest) (id user : ℕ) (x : Result Refusal (Unit {0})) (m m' : Registry)
    → m'.requests ≡ m.requests
    → Registry.requests (((λ (n : Registry). (x, m')) >>= λ a. award env r id user) m).1
      ≡ m.requests
award-requests_after env r id user (ok a) m m' e = award-requests _ _ _ m' ∙ e
award-requests_after env r id user (err y) m m' e = e

enroll-requests :
    (env : Env) (r : JoinRequest) (id user : ℕ) (m : Registry)
    → Registry.requests ((join_family env r user >> award env r id user) m).1 ≡ m.requests
enroll-requests env r id user m =
    award-requests_after env r id user (join_family env r user m).0 m (join_family env r user m).1
      (join-requests env r user m)

status-kept : (j : ℕ) (m m' : Registry) → m'.requests ≡ m.requests → status_of j m' ≡ status_of j m
unfolding status_of get_join_request_by_id
status-kept j m m' e = rw e refl

pub accept-status :
    (env : Env) (j id user : ℕ) (m : Registry)
    → status_of j (accept_join_request env id user m).1 ≡ (
        if (j == id) && holds (can_accept user) (get_join_request_by_id id m)
        then some accepted
        else status_of j m)
unfolding accept_join_request can_accept
accept-status env j id user m = elim (Option-cases (get_join_request_by_id id m)) [
  | inl e ↦ rw e (ground arith)
  | inr (r, e) ↦ rw e (elim (Bool-cases (r.to_user == user)) [
    | inl u ↦ rw u (elim (Bool-cases (status_code r.status == 0)) [
      | inl p ↦ rw p (
          status-kept j (update_join_request_status id accepted m) _
            (enroll-requests env r id user (update_join_request_status id accepted m))
          ∙ rw (update-status_of j id accepted m, e) (ground arith))
      | inr p ↦ rw p (ground arith)
    ])
    | inr u ↦ rw u (ground arith)
  ])
]

pub reject-status :
    (j id user : ℕ) (m : Registry)
    → status_of j (reject_join_request id user m).1 ≡ (
        if (j == id) && holds (can_reject user) (get_join_request_by_id id m)
        then some rejected
        else status_of j m)
unfolding reject_join_request can_reject
reject-status j id user m = elim (Option-cases (get_join_request_by_id id m)) [
  | inl e ↦ rw e (ground arith)
  | inr (r, e) ↦ rw e (elim (Bool-cases (r.to_user == user)) [
    | inl u ↦ rw u (elim (Bool-cases (status_code r.status == 0)) [
      | inl p ↦ rw p (rw (update-status_of j id rejected m, e) (ground arith))
      | inr p ↦ rw p (ground arith)
    ])
    | inr u ↦ rw u (ground arith)
  ])
]
