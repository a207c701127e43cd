-- ===== src/Dynasty/Requests.antt =====
-- services/dynasty-service/internal/service/join_request_service.go, the service that main.go
-- starts.
use Prim.Native.String.{String}
use microservice_metarang.Prelude.{
  ℕ, Bool, true, false, not, ◌&&◌, Option, none, some, ◌==◌, if◌then◌else◌,
}
use microservice_metarang.Prelude.Action.{pure, or_fail, fail_if, gets, modify, ◌>>=◌, ◌>>◌}
use microservice_metarang.Dynasty.Tables.{
  Relationship, father, offspring, same_relationship, JoinRequest, accepted, rejected, Grants,
  ChildPermission, DynastyPrize, Registry, Env, request_not_found, unauthorized, no_dynasty,
  no_family, over_18, Step,
}
use microservice_metarang.Dynasty.Repository.{
  new_request, create_join_request, get_join_request_by_id, update_join_request_status,
  delete_request_row, create_child_permission, get_child_permission, update_child_permission,
  get_dynasty_by_user_id, get_family_by_dynasty_id, create_family_member, get_prize_by_relationship,
  award_prize,
}

-- The permissions that a request asks for: whether they are verified, and the flags.
abbrev pub Asked : Type 0
Asked = Option (Bool × Grants)

abbrev pub is_asked : Asked → Bool
is_asked none = false
is_asked (some a) = true

-- The permissions that come with a request for offspring.
unfoldable pub store_permissions : ℕ → Relationship → Asked → Registry → Registry
store_permissions receiver r none m = m
store_permissions receiver r (some (verified, grants)) m =
    if same_relationship r offspring
    then create_child_permission
        (record { user_id = receiver; verified = verified; grants = grants }) m
    else m

unfoldable pub send_join_request :
    Env → ℕ → ℕ → Relationship → Option String → Asked → Step JoinRequest
send_join_request env sender receiver relationship message asked = do
  fail_if
      (same_relationship relationship offspring
        && (is_asked asked && not (env.is_under18 receiver)))
      over_18
  id ← gets (λ m. m.next_request_id)
  let r = new_request id sender receiver relationship message
  modify (create_join_request r)
  modify (store_permissions receiver relationship asked)
  pure r

unfoldable pub get_join_request : ℕ → ℕ → Step JoinRequest
get_join_request id user = do
  r ← or_fail (← gets (get_join_request_by_id id)) request_not_found
  fail_if (not (r.from_user == user) && not (r.to_user == user)) unauthorized
  pure r

abbrev give_defaults : Option Grants → ℕ → Registry → Registry
give_defaults none user m = m
give_defaults (some g) user m =
    create_child_permission (record { user_id = user; verified = true; grants = g }) m

abbrev verify_permission : Option ChildPermission → ℕ → Registry → Registry
verify_permission none user m = m
verify_permission (some p) user m = update_child_permission user (record p { verified = true }) m

-- A father's child who is under 18 gets the default permissions; offspring under 18 gets its own
-- ones verified.
unfoldable pub grant_permissions : Env → JoinRequest → ℕ → Registry → Registry
grant_permissions env r user m =
    if env.is_under18 r.from_user && same_relationship r.relationship father
    then give_defaults env.default_permissions r.from_user m
    else if env.is_under18 user && same_relationship r.relationship offspring
    then verify_permission (get_child_permission user m) user m
    else m

-- The part that the two services share: the new member of the family, and the permissions.
unfoldable pub join_family : Env → JoinRequest → ℕ → Step (Unit {0})
join_family env r user = do
  d ← or_fail (← gets (get_dynasty_by_user_id r.from_user)) no_dynasty
  f ← or_fail (← gets (get_family_by_dynasty_id d.id)) no_family
  modify (create_family_member f.id user r.relationship)
  modify (grant_permissions env r user)

abbrev pub award_found : Option DynastyPrize → ℕ → String → Registry → Registry
award_found none user message m = m
award_found (some p) user message m = award_prize user p.id message m

-- The prize goes to the user who accepts.
unfoldable pub accept_join_request : Env → ℕ → ℕ → Step (Unit {0})
accept_join_request env id user = do
  r ← or_fail (← gets (get_join_request_by_id id)) request_not_found
  fail_if (not (r.to_user == user)) unauthorized
  modify (update_join_request_status id accepted)
  join_family env r user
  modify (
      award_found (get_prize_by_relationship r.relationship env.prizes) user
        (env.prize_message r.relationship))

unfoldable pub reject_join_request : ℕ → ℕ → Step (Unit {0})
reject_join_request id user = do
  r ← or_fail (← gets (get_join_request_by_id id)) request_not_found
  fail_if (not (r.to_user == user)) unauthorized
  modify (update_join_request_status id rejected)

unfoldable pub delete_join_request : ℕ → ℕ → Step (Unit {0})
delete_join_request id user = do
  r ← or_fail (← gets (get_join_request_by_id id)) request_not_found
  fail_if (not (r.from_user == user)) unauthorized
  modify (delete_request_row id)
