-- ===== src/Dynasty/Policy.antt =====
-- services/dynasty-service/internal/policy: who may view, delete, accept and reject a join request,
-- found a dynasty and move it to another feature.
use microservice_metarang.Prelude.{ℕ, Bool, ◌&&◌, ◌||◌, Option, none, some, ◌==◌, if◌then◌else◌}
use microservice_metarang.Prelude.Rows.{is_some}
use microservice_metarang.Dynasty.Tables.{
  House, JoinRequest, status_code, Registry, Refusal, has_dynasty, unauthorized, dynasty_not_found,
  already_sent, self_request,
}
use microservice_metarang.Dynasty.Repository.{
  get_dynasty_by_user_id, get_dynasty_by_id, check_feature_has_pending_request,
}

unfoldable pub can_view : ℕ → JoinRequest → Bool
can_view user r = r.from_user == user || r.to_user == user

unfoldable pub can_delete : ℕ → JoinRequest → Bool
can_delete user r = r.from_user == user && status_code r.status == 0

unfoldable pub can_accept : ℕ → JoinRequest → Bool
can_accept user r = r.to_user == user && status_code r.status == 0

unfoldable pub can_reject : ℕ → JoinRequest → Bool
can_reject user r = r.to_user == user && status_code r.status == 0

-- The refusal, if there is one; `already_sent` is that of a feature with a pending request.
unfoldable pub can_create_dynasty : ℕ → ℕ → Registry → Option Refusal
can_create_dynasty user feature m =
    if is_some (get_dynasty_by_user_id user m)
    then some has_dynasty
    else if check_feature_has_pending_request feature m
    then some already_sent
    else none

abbrev judge_move : ℕ → ℕ → Option House → Option Refusal
judge_move user feature none = some dynasty_not_found
judge_move user feature (some d) =
    if d.user_id == user
    then (if d.feature_id == feature then some self_request else none)
    else some unauthorized

-- `self_request` is the refusal of the feature that the dynasty has already.
unfoldable pub can_update_dynasty_feature : ℕ → ℕ → ℕ → Registry → Option Refusal
can_update_dynasty_feature user dynasty feature m =
    judge_move user feature (get_dynasty_by_id dynasty m)
