-- ===== src/Dynasty/Tests.antt =====
-- services/dynasty-service/internal/service: runs of the calls on small tables.
use microservice_metarang.Prelude.{
  Option, ℕ, Bool, true, false, none, some, List, [], ◌∷◌, ◌++◌, ◌≡◌, refl, arith, ◌==◌,
  if◌then◌else◌,
}
use microservice_metarang.Prelude.Action.{ok, err}
use microservice_metarang.Prelude.Rows.{count}
use microservice_metarang.Dynasty.Tables.{
  Grants, ChildPermission, brother, father, owner, House, Family, accepted, JoinRequest, Registry,
  Env, Refusal, no_dynasty,
}
use microservice_metarang.Dynasty.Repository.{
  new_request, create_join_request, get_join_request_by_id, update_join_request_status,
  get_dynasty_by_user_id, get_family_by_dynasty_id, create_family_member, get_prize_by_relationship,
  award_prize, check_user_dm_permission, check_user_has_dynasty, check_pending_request,
  check_rejected_request, check_user_in_family, count_family_members_by_relationship,
  get_child_permission, with_status, stands_as,
}
use microservice_metarang.Dynasty.Policy.{can_accept}
use microservice_metarang.Dynasty.Validation.{
  validate_relationship, validate_add_family_member, validate_relationship_limits, limit_of,
  is_valid_relationship,
}
use microservice_metarang.Dynasty.Requests
use microservice_metarang.Dynasty.Requests.{join_family, grant_permissions, store_permissions}
use microservice_metarang.Dynasty.Enhanced
use microservice_metarang.Dynasty.Statuses.{status_of}
use microservice_metarang.Dynasty.Machine.{
  Moves, Call, send, accept, reject, serve_all, serve_all-Moves,
}
use microservice_metarang.Dynasty.Decisions.{answer, answer_once}
use microservice_metarang.Dynasty.Membership.{
  Found, member, accept_join_request_joins, accept_join_request_strands,
}
use microservice_metarang.Dynasty.Rejoining.{accept_join_request_again}
use microservice_metarang.Dynasty.Progress.{accept_join_request_succeeds}
use microservice_metarang.Dynasty.Permissions.{
  sf, check_permission, update_child_permission, can_control_permissions, get_family_members,
}
use microservice_metarang.Dynasty.Grants.{check_permission-update_child_permission}
use microservice_metarang.Dynasty.Founding.{
  found, move, claim, perform_all, IsOrderly, perform_all-IsOrderly,
}

abbrev env : Env
env = record {
  is_under18 = λ user. false;
  default_permissions = none;
  prizes = record { id = 1; member = brother } ∷ [];
  prize_message = λ r. "prize";
  receiver_message = λ sender receiver r. "asks";
  accept_message = λ sender receiver r. "accepted";
}

-- User 10 has a dynasty and asks user 20 to join it.
abbrev asked : JoinRequest
asked = new_request 1 10 20 brother none

abbrev empty : Registry
empty = record {
  dynasties = [];
  families = [];
  members = [];
  requests = [];
  permissions = [];
  received_prizes = [];
  next_dynasty_id = 1;
  next_family_id = 1;
  next_request_id = 1;
  next_prize_id = 1;
}

abbrev asking : Registry
asking = record empty { requests = asked ∷ []; next_request_id = 2 }

abbrev house : House
house = record { id = 1; user_id = 10; feature_id = 5 }

abbrev family : Family
family = record { id = 1; dynasty_id = 1 }

abbrev tables : Registry
tables = record asking {
  dynasties = house ∷ [];
  families = family ∷ [];
  members = record { family_id = 1; user_id = 10; relationship = owner } ∷ [];
  next_dynasty_id = 2;
  next_family_id = 2;
}

abbrev calls : List Call
calls = reject 1 30 ∷ accept 1 20 ∷ reject 1 20 ∷ []

after_calls : status_of 1 (serve_all env calls tables) ≡ some accepted
unfolding status_of get_join_request_by_id Enhanced.accept_join_request Enhanced.reject_join_request
    update_join_request_status join_family get_dynasty_by_user_id get_family_by_dynasty_id
    create_family_member grant_permissions get_prize_by_relationship award_prize
after_calls = refl

serve_all-Moves_example : Moves (status_of 1 tables) (status_of 1 (serve_all env calls tables))
serve_all-Moves_example = serve_all-Moves env calls 1 tables

accepted_1 :
    (Enhanced.accept_join_request env 1 20 tables).0 ≡ ok (some (with_status accepted asked))
unfolding get_join_request_by_id Enhanced.accept_join_request update_join_request_status join_family
    get_dynasty_by_user_id get_family_by_dynasty_id create_family_member grant_permissions
    get_prize_by_relationship award_prize
accepted_1 = refl

answered_1 : (answer env true 1 20 tables).0 ≡ ok tt
unfolding get_join_request_by_id Enhanced.accept_join_request update_join_request_status join_family
    get_dynasty_by_user_id get_family_by_dynasty_id create_family_member grant_permissions
    get_prize_by_relationship award_prize
answered_1 = refl

answer_once_example :
    let m = serve_all env calls (answer env true 1 20 tables).1 in
    (e : Refusal) × (answer env false 1 20 m ≡ (err e, m))
answer_once_example = answer_once env true false 1 20 20 calls tables answered_1

accept_join_request_joins_example :
    let m = (Enhanced.accept_join_request env 1 20 tables).1 in
    (f : Found 1 tables) × (can_accept 20 f.request ≡ true)
    × (m.members ≡ tables.members ++ member f.family 20 f.request ∷ [])
    × ((j : ℕ) → status_of j m ≡ (if j == 1 then some accepted else status_of j tables))
accept_join_request_joins_example =
    accept_join_request_joins env 1 20 tables (some (with_status accepted asked)) accepted_1

accept_join_request_strands_example :
    let n = (Enhanced.accept_join_request env 1 20 asking).1 in
    ((Enhanced.accept_join_request env 1 20 asking).0 ≡ err no_dynasty)
    × (n.members ≡ [])
    × (status_of 1 n ≡ some accepted)
    × ((b : Bool) (other_user : ℕ) (cs : List Call)
        → (e : Refusal) × (answer env b 1 other_user (serve_all env cs n)
            ≡ (err e, serve_all env cs n)))
accept_join_request_strands_example =
    accept_join_request_strands env 1 20 asking asked (unfold get_join_request_by_id in refl)
      (unfold can_accept in refl) (unfold get_dynasty_by_user_id in refl)

plainly_accepted_1 : (Requests.accept_join_request env 1 20 tables).0 ≡ ok tt
unfolding get_join_request_by_id Requests.accept_join_request update_join_request_status join_family
    get_dynasty_by_user_id get_family_by_dynasty_id create_family_member grant_permissions
    get_prize_by_relationship award_prize
plainly_accepted_1 = refl

accept_join_request_again_example :
    let n = (Requests.accept_join_request env 1 20 tables).1 in
    (f : Found 1 tables) × (n.members ≡ tables.members ++ member f.family 20 f.request ∷ [])
    × ((Requests.accept_join_request env 1 20 n).0 ≡ ok tt)
    × ((Requests.accept_join_request env 1 20 n).1.members
        ≡ n.members ++ member f.family 20 f.request ∷ [])
    × ((r : JoinRequest) × (get_join_request_by_id 1 n ≡ some r) × (can_accept 20 r ≡ false))
accept_join_request_again_example = accept_join_request_again env 1 20 tables plainly_accepted_1

tables-IsOrderly : IsOrderly tables
tables-IsOrderly = record { single = λ user. ground arith; housed = (refl, tt) }

perform_all-IsOrderly_example :
    IsOrderly (perform_all (found 20 6 ∷ found 10 7 ∷ move 1 7 10 ∷ claim env 1 20 ∷ []) tables)
perform_all-IsOrderly_example =
    perform_all-IsOrderly (found 20 6 ∷ found 10 7 ∷ move 1 7 10 ∷ claim env 1 20 ∷ []) tables
      tables-IsOrderly

accept_join_request_succeeds_example :
    let (x, n) = Enhanced.accept_join_request env 1 20 tables in
    ((a : Option JoinRequest) × (x ≡ ok a)) × (status_of 1 n ≡ some accepted)
accept_join_request_succeeds_example =
    accept_join_request_succeeds env 1 20 tables asked tables-IsOrderly
      (unfold get_join_request_by_id in refl) (unfold can_accept in refl)
      (unfold get_dynasty_by_user_id in refl)

-- Two requests for a father are sent while the family has none; both are accepted.
two_fathers :
    count
      (stands_as 1 father)
      (serve_all env
        (send 10 21 father none ∷ send 10 22 father none ∷ accept 2 21 ∷ accept 3 22 ∷ [])
        tables).members
    ≡ 2
unfolding status_of get_join_request_by_id Enhanced.accept_join_request Enhanced.send_join_request
    update_join_request_status join_family get_dynasty_by_user_id get_family_by_dynasty_id
    create_family_member grant_permissions get_prize_by_relationship award_prize
    validate_relationship validate_add_family_member validate_relationship_limits limit_of
    is_valid_relationship create_join_request check_user_dm_permission check_user_has_dynasty
    check_pending_request check_rejected_request check_user_in_family
    count_family_members_by_relationship store_permissions get_child_permission
two_fathers = refl

abbrev no_flags : Grants
no_flags = record {
  bfr = false;
  sf = false;
  w = false;
  ju = false;
  dm = false;
  piup = false;
  pitc = false;
  pic = false;
  esoo = false;
  cotb = false;
}

-- User 10 is the parent of user 20, who is under 18.
abbrev young : Env
young = record env { is_under18 = λ user. user == 20 }

abbrev child_of_20 : ChildPermission
child_of_20 = record { user_id = 20; verified = true; grants = record no_flags { sf = true } }

abbrev with_child : Registry
with_child = record tables {
  members = record { family_id = 1; user_id = 20; relationship = brother } ∷ [];
  permissions = child_of_20 ∷ [];
}

taken : (update_child_permission young 10 20 sf false with_child).0 ≡ ok tt
unfolding update_child_permission can_control_permissions get_dynasty_by_user_id
    get_family_by_dynasty_id get_family_members get_child_permission
taken = refl

check_permission-update_child_permission_example :
    check_permission young 20 sf (update_child_permission young 10 20 sf false with_child).1 ≡ false
check_permission-update_child_permission_example =
    check_permission-update_child_permission young 10 20 sf sf false with_child child_of_20
      (unfold get_child_permission in refl) refl taken
