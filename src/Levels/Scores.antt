-- ===== src/Levels/Scores.antt =====
-- services/levels-service/internal/service: the calls of activity_service.go that change a score, and
-- ClaimPrize of level_service.go.
use microservice_metarang.Prelude.{
  ℕ, Bool, not, ◌&&◌, true, false, Option, none, some, if◌then◌else◌,
}
use microservice_metarang.Prelude.Int.{ℤ, pos, cut, ◌-ℤ◌, leb_ℤ}
use microservice_metarang.Prelude.Action.{pure, gets, or_fail, fail_if, modify, ◌>>=◌, ◌>>◌}
use microservice_metarang.Levels.Tables.{
  Level, LevelPrize, Levels, Env, no_log, nil_prize, prize_not_found, already_claimed, bad_amount,
  Step, get_user_log, calculate_score, update_score, increment_deposit, overdraws,
  has_negative_hours, out_of_range, update_followers_count, update_activity_hours,
  get_next_level_for_score, attach_level_to_user, get_level_prize, has_user_received_prize,
  record_received_prize, EventType, create_activity, create_user_event, get_latest_activity,
  update_activity, get_total_activity_minutes, no_activity,
}

-- The score, whether there is a new level, and which.
abbrev pub Progress : Type 0
Progress = ℤ × Bool × ℕ

abbrev pub receive_once : ℕ → LevelPrize → Levels → Levels
receive_once user p m =
    if has_user_received_prize user p.id m then m else record_received_prize user p.id m

-- A level without a prize stops the call after the level has been attached.
abbrev pub award : ℕ → ℤ → Option Level → Step Progress
award user s none = pure (s, false, 0)
award user s (some l) = do
  modify (attach_level_to_user user l.id)
  p ← or_fail (← gets (get_level_prize l.id)) nil_prize
  modify (receive_once user p)
  pure (s, true, l.id)

unfoldable pub update_activity_score : Env → ℕ → Step Progress
update_activity_score env user = do
  r ← or_fail (← gets (get_user_log user)) no_log
  modify (update_score user (calculate_score env r))
  next ← gets (get_next_level_for_score user (calculate_score env r))
  award user (calculate_score env r) next

abbrev pub recalculate : Env → ℕ → Step (Unit {0})
recalculate env user = do update_activity_score env user; pure tt

-- The ten-thousandth part of an amount, rounded to units; none if the text is no number.
unfoldable pub record_deposit : Env → ℕ → Option ℤ → Step (Unit {0})
record_deposit env user amount = do
  units ← or_fail amount bad_amount
  overdrawn ← gets (overdraws user units)
  fail_if overdrawn out_of_range
  modify (increment_deposit user units)
  recalculate env user

unfoldable pub record_follower : Env → ℕ → Step (Unit {0})
record_follower env user = do
  modify (update_followers_count user (env.followers user))
  recalculate env user

unfoldable pub hour_reached : Env → ℕ → Step (Unit {0})
hour_reached env user = do
  minutes ← gets (get_total_activity_minutes user)
  negative ← gets (has_negative_hours user minutes)
  fail_if negative out_of_range
  modify (update_activity_hours user minutes)
  recalculate env user

-- An activity, for every type of event, and the id of it.
unfoldable pub log_activity : Env → ℕ → EventType → Step ℕ
log_activity env user e = do
  id ← gets (λ m. m.next_activity)
  modify (create_activity env user)
  modify (create_user_event user e)
  pure id

unfoldable pub log_logout : Env → ℕ → Step (Unit {0})
log_logout env user = do
  a ← or_fail (← gets (get_latest_activity user)) no_activity
  modify (update_activity a.id env.now (cut 60 (pos env.now -ℤ pos a.start)))
  hour_reached env user

-- Below 7,000,000 rials, and below the 30,000th part of that in PSC.
abbrev pub is_insignificant : ℤ → ℤ → Bool
is_insignificant irr psc = not (leb_ℤ (pos 70000000000) irr) && not (leb_ℤ (pos 2333334) psc)

-- The count of the trades stays as it is.
unfoldable pub record_trade : Env → ℕ → ℤ → ℤ → Step (Unit {0})
record_trade env user irr psc = if is_insignificant irr psc then pure tt else recalculate env user

unfoldable pub claim_prize : ℕ → ℕ → Step (Unit {0})
claim_prize user level = do
  p ← or_fail (← gets (get_level_prize level)) prize_not_found
  claimed ← gets (has_user_received_prize user p.id)
  fail_if claimed already_claimed
  modify (record_received_prize user p.id)
