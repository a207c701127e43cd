-- ===== src/Dynasty/Houses.antt =====
-- services/dynasty-service/internal/service: CreateDynasty and UpdateDynastyFeature of
-- dynasty_service.go, and ClaimPrize of prize_service.go.
use microservice_metarang.Prelude.{ℕ, not, ◌==◌}
use microservice_metarang.Prelude.Rows.{is_some}
use microservice_metarang.Prelude.Action.{pure, or_fail, fail_if, gets, modify, ◌>>=◌, ◌>>◌}
use microservice_metarang.Dynasty.Tables.{
  Env, owner, has_dynasty, dynasty_not_found, unauthorized, prize_not_found, Step,
}
use microservice_metarang.Dynasty.Repository.{
  get_dynasty_by_user_id, get_dynasty_by_id, create_dynasty_row, create_family,
  create_family_member, set_dynasty_feature, get_received_prize, delete_received_prize,
}

-- The ids of the new dynasty and its family.
unfoldable pub create_dynasty : ℕ → ℕ → Step (ℕ × ℕ)
create_dynasty user feature = do
  existing ← gets (get_dynasty_by_user_id user)
  fail_if (is_some existing) has_dynasty
  dynasty ← gets (λ m. m.next_dynasty_id)
  modify (create_dynasty_row user feature)
  family ← gets (λ m. m.next_family_id)
  modify (create_family dynasty)
  modify (create_family_member family user owner)
  pure (dynasty, family)

unfoldable pub update_dynasty_feature : ℕ → ℕ → ℕ → Step (Unit {0})
update_dynasty_feature dynasty feature user = do
  d ← or_fail (← gets (get_dynasty_by_id dynasty)) dynasty_not_found
  fail_if (not (d.user_id == user)) unauthorized
  modify (set_dynasty_feature dynasty feature)

unfoldable pub claim_prize : Env → ℕ → ℕ → Step (Unit {0})
claim_prize env id user = do
  p ← or_fail (← gets (get_received_prize env id)) prize_not_found
  fail_if (not (p.user_id == user)) unauthorized
  modify (delete_received_prize id)
