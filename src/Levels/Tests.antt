-- ===== src/Levels/Tests.antt =====
-- Runs of the levels service, and the theorems at inputs that meet their hypotheses.
use microservice_metarang.Prelude.{◌/◌, true, some, [], ◌∷◌, ◌≡◌, refl, arith, All}
use microservice_metarang.Prelude.Int.{ℤ, pos, leb_ℤ, cut, ◌+ℤ◌, ◌-ℤ◌}
use microservice_metarang.Prelude.Action.{err}
use microservice_metarang.Levels.Tables.{
  Level, Levels, Env, nil_prize, already_claimed, get_user_log, calculate_score, update_score,
  holds, get_next_level_for_score, attach_level_to_user, get_level_prize, has_user_received_prize,
  record_received_prize, login, create_activity, create_user_event, get_latest_activity,
  update_activity, get_total_activity_minutes, has_negative_hours, update_activity_hours,
}
use microservice_metarang.Levels.Scores.{
  update_activity_score, claim_prize, hour_reached, log_activity, log_logout,
}
use microservice_metarang.Levels.Awards.{update, claim, deposit}
use microservice_metarang.Levels.Single.{serve_all, IsUnrepeated, serve_all-IsUnrepeated}
use microservice_metarang.Levels.Reaching.{repeat, update_activity_score_reaches}

-- The sum of the parts, in whole numbers.
abbrev whole : ℤ → ℤ
whole (pos n) = pos (n / 10000)
whole z = z

abbrev env : Env
env = record { total = λ a b c d. whole (a +ℤ b +ℤ c +ℤ d); followers = λ u. 4; now = 5400 }

-- A user of score 12, and levels at 0, 10 and 50, of which the second has no prize.
abbrev start : Levels
start = record {
  levels =
      record { id = 1; score = 0 }
      ∷ record { id = 2; score = 10 }
      ∷ record { id = 3; score = 50 }
      ∷ [];
  prizes = record { id = 8; level_id = 1 } ∷ [];
  users = record { id = 7; score = pos 0 } ∷ [];
  logs =
      record {
        user_id = 7;
        transactions_count = pos 100000;
        followers_count = pos 0;
        deposit_amount = pos 20000;
        activity_hours = pos 0;
        score = pos 0;
      }
      ∷ [];
  level_users = [];
  received = [];
  activities = [];
  next_activity = 1;
  events = [];
}

-- The second level comes first, and stops the call.
stopped : (update_activity_score env 7 start).0 ≡ err nil_prize
unfolding update_activity_score get_user_log calculate_score update_score get_next_level_for_score
    attach_level_to_user get_level_prize ◌+ℤ◌
stopped = refl

attached_anyway : holds 7 2 (update_activity_score env 7 start).1.level_users ≡ true
unfolding update_activity_score get_user_log calculate_score update_score get_next_level_for_score
    attach_level_to_user get_level_prize ◌+ℤ◌
attached_anyway = refl

first_level_later : (repeat 2 env 7 start).received ≡ record { user_id = 7; of = 8 } ∷ []
unfolding update_activity_score get_user_log calculate_score update_score get_next_level_for_score
    attach_level_to_user get_level_prize has_user_received_prize record_received_prize ◌+ℤ◌
first_level_later = refl

claimed_again : (claim_prize 7 1 (claim_prize 7 1 start).1).0 ≡ err already_claimed
unfolding claim_prize get_level_prize has_user_received_prize record_received_prize
claimed_again = refl

-- Ninety minutes, two tenths for which the column rounds to 0.
hours_counted :
    get_user_log 7 (log_logout env 7 (log_activity (record env { now = 0 }) 7 login start).1).1
    ≡ some (record {
      user_id = 7;
      transactions_count = pos 100000;
      followers_count = pos 0;
      deposit_amount = pos 20000;
      activity_hours = pos 0;
      score = pos 12;
    })
unfolding log_logout log_activity hour_reached create_activity create_user_event get_latest_activity
    update_activity get_total_activity_minutes update_activity_hours has_negative_hours
    update_activity_score get_user_log calculate_score update_score get_next_level_for_score
    attach_level_to_user get_level_prize cut ◌+ℤ◌ ◌-ℤ◌
hours_counted = refl

update_activity_score_reaches_example :
    let n = repeat 2 env 7 start in
    (n.levels ≡ start.levels)
    × All
        (λ (l : Level). leb_ℤ (pos l.score) (pos 12) ≡ true → holds 7 l.id n.level_users ≡ true)
        n.levels
unfolding get_user_log calculate_score ◌+ℤ◌
update_activity_score_reaches_example =
    update_activity_score_reaches 2 env 7 start _ refl (omega arith)

start-IsUnrepeated : IsUnrepeated start
start-IsUnrepeated = record { levels = λ u l. omega arith; prizes = λ u p. omega arith }

serve_all-IsUnrepeated_example :
    IsUnrepeated
      (serve_all ((env, update 7) ∷ (env, deposit 7 (some (pos 10))) ∷ (env, claim 7 1) ∷ []) start)
serve_all-IsUnrepeated_example =
    serve_all-IsUnrepeated
      ((env, update 7) ∷ (env, deposit 7 (some (pos 10))) ∷ (env, claim 7 1) ∷ []) start
      start-IsUnrepeated
