-- ===== src/Dynasty/Validation.antt =====
-- services/dynasty-service/internal/validation/family_validator.go.
use microservice_metarang.Prelude.{ℕ, Bool, true, false, not, ◌&&◌, Option, none, some, ◌==◌, leb}
use microservice_metarang.Prelude.Action.{pure, fail_if, gets, ◌>>=◌, ◌>>◌}
use microservice_metarang.Dynasty.Tables.{
  Relationship, father, mother, husband, wife, offspring, brother, sister, not_permitted,
  self_request, no_dynasty, already_sent, was_rejected, in_family, limit_reached,
  invalid_relationship, Step,
}
use microservice_metarang.Dynasty.Repository.{
  check_user_dm_permission, check_user_has_dynasty, check_pending_request, check_rejected_request,
  check_user_in_family, count_family_members_by_relationship,
}

unfoldable pub validate_add_family_member : ℕ → ℕ → Bool → Step (Unit {0})
validate_add_family_member sender receiver is_under18 = do
  permitted ← gets (check_user_dm_permission sender)
  fail_if (is_under18 && not permitted) not_permitted
  fail_if (sender == receiver) self_request
  founded ← gets (check_user_has_dynasty sender)
  fail_if (not founded) no_dynasty
  waiting ← gets (check_pending_request sender receiver)
  fail_if waiting already_sent
  refused ← gets (check_rejected_request sender receiver)
  fail_if refused was_rejected
  related ← gets (check_user_in_family receiver)
  fail_if related in_family

-- The table of the limits; a relationship that is not in it has none.
unfoldable pub limit_of : Relationship → Option ℕ
limit_of father = some 1
limit_of mother = some 1
limit_of husband = some 1
limit_of wife = some 4
limit_of offspring = some 4
limit_of rest = none

abbrev check_limit : Option ℕ → ℕ → Step (Unit {0})
check_limit none n = pure tt
check_limit (some most) n = fail_if (leb most n) limit_reached

unfoldable pub validate_relationship_limits : ℕ → Relationship → Step (Unit {0})
validate_relationship_limits family r = do
  n ← gets (count_family_members_by_relationship family r)
  check_limit (limit_of r) n

unfoldable pub is_valid_relationship : Relationship → Bool
is_valid_relationship brother = true
is_valid_relationship sister = true
is_valid_relationship father = true
is_valid_relationship mother = true
is_valid_relationship husband = true
is_valid_relationship wife = true
is_valid_relationship offspring = true
is_valid_relationship rest = false

unfoldable pub validate_relationship : Relationship → Step (Unit {0})
validate_relationship r = fail_if (not (is_valid_relationship r)) invalid_relationship
