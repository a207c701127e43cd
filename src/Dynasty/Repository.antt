-- ===== src/Dynasty/Repository.antt =====
-- services/dynasty-service/internal/repository: the SQL statements as functions on the rows. Each
-- answers; a failing database is not modelled.
use Prim.Native.String.{String}
use microservice_metarang.Prelude.{
  ℕ, suc, Bool, false, not, ◌&&◌, Option, none, some, List, [], ◌∷◌, ◌++◌, ◌==◌,
}
use microservice_metarang.Prelude.Rows.{first, remove, change, count, is_some}
use microservice_metarang.Dynasty.Tables.{
  Relationship, owner, same_relationship, House, Family, FamilyMember, Status, pending, rejected,
  status_code, JoinRequest, ChildPermission, DynastyPrize, ReceivedPrize, Registry, Env,
}

-- JoinRequestRepository.
abbrev pub has_id : ℕ → JoinRequest → Bool
has_id id r = r.id == id

abbrev pub new_request : ℕ → ℕ → ℕ → Relationship → Option String → JoinRequest
new_request id sender receiver relationship message = record {
  id = id;
  from_user = sender;
  to_user = receiver;
  status = pending;
  relationship = relationship;
  message = message;
}

unfoldable pub create_join_request : JoinRequest → Registry → Registry
create_join_request r m = record m {
  requests = m.requests ++ r ∷ [];
  next_request_id = suc m.next_request_id;
}

unfoldable pub get_join_request_by_id : ℕ → Registry → Option JoinRequest
get_join_request_by_id id m = first (has_id id) m.requests

abbrev pub with_status : Status → JoinRequest → JoinRequest
with_status s r = record r { status = s }

unfoldable pub update_join_request_status : ℕ → Status → Registry → Registry
update_join_request_status id s m = record m {
  requests = change (has_id id) (with_status s) m.requests;
}

unfoldable pub delete_request_row : ℕ → Registry → Registry
delete_request_row id m = record m { requests = remove (has_id id) m.requests }

unfoldable pub create_child_permission : ChildPermission → Registry → Registry
create_child_permission p m = record m { permissions = m.permissions ++ p ∷ [] }

abbrev pub permits : ℕ → ChildPermission → Bool
permits user p = p.user_id == user

unfoldable pub get_child_permission : ℕ → Registry → Option ChildPermission
get_child_permission user m = first (permits user) m.permissions

-- All rows of the user get the values of the permission.
unfoldable pub update_child_permission : ℕ → ChildPermission → Registry → Registry
update_child_permission user p m = record m {
  permissions =
      change (permits user) (λ q. record q { verified = p.verified; grants = p.grants })
        m.permissions;
}

-- ValidationRepository.
abbrev pub between : ℕ → ℕ → Status → JoinRequest → Bool
between sender receiver s r =
    r.from_user == sender && (r.to_user == receiver && status_code r.status == status_code s)

unfoldable pub check_pending_request : ℕ → ℕ → Registry → Bool
check_pending_request sender receiver m =
    is_some (first (between sender receiver pending) m.requests)

unfoldable pub check_rejected_request : ℕ → ℕ → Registry → Bool
check_rejected_request sender receiver m =
    is_some (first (between sender receiver rejected) m.requests)

abbrev pub is_relative : ℕ → FamilyMember → Bool
is_relative user f = f.user_id == user && not (same_relationship f.relationship owner)

unfoldable pub check_user_in_family : ℕ → Registry → Bool
check_user_in_family user m = is_some (first (is_relative user) m.members)

abbrev pub stands_as : ℕ → Relationship → FamilyMember → Bool
stands_as family r f = f.family_id == family && same_relationship f.relationship r

unfoldable pub count_family_members_by_relationship : ℕ → Relationship → Registry → ℕ
count_family_members_by_relationship family r m = count (stands_as family r) m.members

unfoldable pub check_user_has_dynasty : ℕ → Registry → Bool
check_user_has_dynasty user m = is_some (first (λ d. d.user_id == user) m.dynasties)

-- `verified AND DM`, of the user's first row; false if there is none.
abbrev permits_management : Option ChildPermission → Bool
permits_management none = false
permits_management (some p) = p.verified && p.grants.dm

unfoldable pub check_user_dm_permission : ℕ → Registry → Bool
unfolding get_child_permission
check_user_dm_permission user m = permits_management (get_child_permission user m)

-- DynastyRepository and FamilyRepository.
unfoldable pub get_dynasty_by_id : ℕ → Registry → Option House
get_dynasty_by_id id m = first (λ d. d.id == id) m.dynasties

unfoldable pub get_dynasty_by_user_id : ℕ → Registry → Option House
get_dynasty_by_user_id user m = first (λ d. d.user_id == user) m.dynasties

-- The new row has the id `next_dynasty_id`.
unfoldable pub create_dynasty_row : ℕ → ℕ → Registry → Registry
create_dynasty_row user feature m = record m {
  dynasties =
      m.dynasties ++ record { id = m.next_dynasty_id; user_id = user; feature_id = feature } ∷ [];
  next_dynasty_id = suc m.next_dynasty_id;
}

unfoldable pub set_dynasty_feature : ℕ → ℕ → Registry → Registry
set_dynasty_feature id feature m = record m {
  dynasties = change (λ d. d.id == id) (λ d. record d { feature_id = feature }) m.dynasties;
}

-- A join with the dynasties: a pending request of a user whose dynasty has the feature.
abbrev pub sends_from : ℕ → List House → JoinRequest → Bool
sends_from feature ds r =
    status_code r.status == 0
    && is_some (first (λ d. d.user_id == r.from_user && d.feature_id == feature) ds)

unfoldable pub check_feature_has_pending_request : ℕ → Registry → Bool
check_feature_has_pending_request feature m =
    is_some (first (sends_from feature m.dynasties) m.requests)

unfoldable pub get_family_by_dynasty_id : ℕ → Registry → Option Family
get_family_by_dynasty_id id m = first (λ f. f.dynasty_id == id) m.families

unfoldable pub create_family : ℕ → Registry → Registry
create_family dynasty m = record m {
  families = m.families ++ record { id = m.next_family_id; dynasty_id = dynasty } ∷ [];
  next_family_id = suc m.next_family_id;
}

unfoldable pub create_family_member : ℕ → ℕ → Relationship → Registry → Registry
create_family_member family user r m = record m {
  members = m.members ++ record { family_id = family; user_id = user; relationship = r } ∷ [];
}

-- PrizeRepository.
unfoldable pub get_prize_by_relationship : Relationship → List DynastyPrize → Option DynastyPrize
get_prize_by_relationship r ps = first (λ p. same_relationship p.member r) ps

unfoldable pub award_prize : ℕ → ℕ → String → Registry → Registry
award_prize user prize message m = record m {
  received_prizes =
      m.received_prizes
      ++ record { id = m.next_prize_id; user_id = user; prize_id = prize; message = message } ∷ [];
  next_prize_id = suc m.next_prize_id;
}

-- The join drops a prize that is not in `dynasty_prizes`.
unfoldable pub get_received_prize : Env → ℕ → Registry → Option ReceivedPrize
get_received_prize env id m =
    first (λ p. p.id == id && is_some (first (λ d. d.id == p.prize_id) env.prizes))
      m.received_prizes

unfoldable pub delete_received_prize : ℕ → Registry → Registry
delete_received_prize id m = record m {
  received_prizes = remove (λ p. p.id == id) m.received_prizes;
}
