-- ===== src/Dynasty/Enhanced.antt =====
-- services/dynasty-service/internal/service/join_request_service_enhanced.go: the calls with all
-- their rules.
use microservice_metarang.Prelude.{ℕ, false, not, ◌&&◌, Option, none, some, ◌==◌}
use microservice_metarang.Prelude.Action.{pure, or_fail, fail_if, gets, modify, ◌>>=◌, ◌>>◌}
use microservice_metarang.Dynasty.Tables.{
  Relationship, offspring, same_relationship, status_code, JoinRequest, accepted, rejected, Env,
  request_not_found, unauthorized, not_pending, no_dynasty, no_family, over_18, Step,
}
use microservice_metarang.Dynasty.Repository.{
  new_request, create_join_request, get_join_request_by_id, update_join_request_status,
  get_dynasty_by_user_id, get_family_by_dynasty_id, get_prize_by_relationship,
}
use microservice_metarang.Dynasty.Validation.{
  validate_relationship, validate_add_family_member, validate_relationship_limits,
}
use microservice_metarang.Dynasty.Requests.{
  Asked, is_asked, store_permissions, join_family, award_found,
}

-- The permissions are not verified until the request is accepted.
abbrev pub unverified : Asked → Asked
unverified none = none
unverified (some (verified, grants)) = some (false, grants)

-- A dynasty without a family is refused here: the statement reads no row, which is an error.
unfoldable pub send_join_request : Env → ℕ → ℕ → Relationship → Asked → Step JoinRequest
send_join_request env sender receiver relationship asked = do
  validate_relationship relationship
  fail_if
      (same_relationship relationship offspring
        && (is_asked asked && not (env.is_under18 receiver)))
      over_18
  validate_add_family_member sender receiver (env.is_under18 sender)
  d ← or_fail (← gets (get_dynasty_by_user_id sender)) no_dynasty
  f ← or_fail (← gets (get_family_by_dynasty_id d.id)) no_family
  validate_relationship_limits f.id relationship
  id ← gets (λ m. m.next_request_id)
  let r =
      new_request id sender receiver relationship
        (some (env.receiver_message sender receiver relationship))
  modify (create_join_request r)
  modify (store_permissions receiver relationship (unverified asked))
  pure r

-- The prize goes to the sender of the request; the request is read again for the answer.
unfoldable pub accept_join_request : Env → ℕ → ℕ → Step (Option JoinRequest)
accept_join_request env id user = do
  r ← or_fail (← gets (get_join_request_by_id id)) request_not_found
  fail_if (not (r.to_user == user)) unauthorized
  fail_if (not (status_code r.status == 0)) not_pending
  modify (update_join_request_status id accepted)
  join_family env r user
  modify (
      award_found (get_prize_by_relationship r.relationship env.prizes) r.from_user
        (env.accept_message r.from_user user r.relationship))
  gets (get_join_request_by_id id)

unfoldable pub reject_join_request : ℕ → ℕ → Step (Unit {0})
reject_join_request id user = do
  r ← or_fail (← gets (get_join_request_by_id id)) request_not_found
  fail_if (not (r.to_user == user)) unauthorized
  fail_if (not (status_code r.status == 0)) not_pending
  modify (update_join_request_status id rejected)
