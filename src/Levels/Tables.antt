-- ===== src/Levels/Tables.antt =====
-- services/levels-service/internal/repository: the rows that the levels use, and the statements on
-- them of level_repository.go, user_log_repository.go and activity_repository.go. The parts of a score
-- are whole numbers of units of 10⁻⁴, the columns that only show a level are left out.
use microservice_metarang.Prelude.{
  ◌+◌, ◌%◌, ◌/◌, false, ℕ, ◌*◌, Bool, not, ◌&&◌, Option, none, some, List, [], ◌∷◌, ◌++◌, ◌==◌, suc,
  ltb, if◌then◌else◌,
}
use microservice_metarang.Prelude.Int.{ℤ, pos, negsuc, pos_part, ◌+ℤ◌, scale, cut, leb_ℤ}
use microservice_metarang.Prelude.Rows.{first, select, change, count}
use microservice_metarang.Prelude.Action.{Action}

pub record Level : Type 0 where
  pub id : ℕ
  pub score : ℕ

pub record LevelPrize : Type 0 where
  pub id : ℕ
  pub level_id : ℕ

pub record UserLog : Type 0 where
  pub user_id : ℕ
  pub transactions_count : ℤ
  pub followers_count : ℤ
  pub deposit_amount : ℤ
  pub activity_hours : ℤ
  pub score : ℤ

pub record User : Type 0 where
  pub id : ℕ
  pub score : ℤ

-- A row of `level_user` or of `recieved_level_prizes`: what of a user.
pub record Held : Type 0 where
  pub user_id : ℕ
  pub of : ℕ

-- A total that is null counts as 0.
pub record UserActivity : Type 0 where
  pub id : ℕ
  pub user_id : ℕ
  pub start : ℕ
  pub end : Option ℕ
  pub total : ℤ

pub data EventType : Type 0 where
  login logout : EventType

pub record UserEvent : Type 0 where
  pub user_id : ℕ
  pub event : EventType

pub record Levels : Type 0 where
  pub levels : List Level
  pub prizes : List LevelPrize
  pub users : List User
  pub logs : List UserLog
  pub level_users : List Held
  pub received : List Held
  pub activities : List UserActivity
  pub next_activity : ℕ
  pub events : List UserEvent

-- The float64 sum of the four parts of a score, cut off, taken as it comes; how many follow a user,
-- and the time.
pub record Env : Type 0 where
  pub total : ℤ → ℤ → ℤ → ℤ → ℤ
  pub followers : ℕ → ℕ
  pub now : ℕ

-- `nil_prize` is the nil pointer that stops the call.
pub data Refusal : Type 0 where
  no_log out_of_range no_activity nil_prize prize_not_found already_claimed bad_amount : Refusal

abbrev pub Step : Type 0 → Type 0
Step A = Action Levels Refusal A

unfoldable pub get_user_log : ℕ → Levels → Option UserLog
get_user_log user m = first (λ r. r.user_id == user) m.logs

unfoldable pub calculate_score : Env → UserLog → ℤ
calculate_score env r =
    env.total r.transactions_count r.followers_count r.deposit_amount r.activity_hours

-- Both rows, in one transaction.
unfoldable pub update_score : ℕ → ℤ → Levels → Levels
update_score user s m = record m {
  logs = change (λ r. r.user_id == user) (λ r. record r { score = s }) m.logs;
  users = change (λ u. u.id == user) (λ u. record u { score = s }) m.users;
}

-- `deposit_amount` and `activity_hours` are whole numbers that are not negative: the sum with a
-- deposit, which is a float64, is rounded to the nearest whole number, to the even one of two, the
-- text of the hours to the upper one of two, and an UPDATE with a negative value is refused.
abbrev pub to_even : ℕ → ℕ
to_even n =
    if n % 10000 == 5000 && n / 10000 % 2 == 0
    then n / 10000 * 10000
    else (n + 5000) / 10000 * 10000

abbrev pub to_upper : ℕ → ℕ
to_upper n = (n + 5000) / 10000 * 10000

-- What is less than half below 0 still rounds to 0.
abbrev pub is_negative : ℕ → ℤ → Bool
is_negative half (pos n) = false
is_negative half (negsuc n) = ltb half (suc n)

abbrev pub deposited : ℤ → UserLog → ℤ
deposited units r = r.deposit_amount +ℤ units

unfoldable pub overdraws : ℕ → ℤ → Levels → Bool
overdraws user units m = elim (get_user_log user m) [
  | none ↦ false
  | some r ↦ is_negative 5000 (deposited units r)
]

unfoldable pub increment_deposit : ℕ → ℤ → Levels → Levels
increment_deposit user units m = record m {
  logs =
      change (λ r. r.user_id == user)
        (λ r. record r { deposit_amount = pos (to_even (pos_part (deposited units r))) }) m.logs;
}

-- A tenth for a follower.
unfoldable pub update_followers_count : ℕ → ℕ → Levels → Levels
update_followers_count user n m = record m {
  logs =
      change (λ r. r.user_id == user) (λ r. record r { followers_count = pos (1000 * n) }) m.logs;
}

-- A tenth for each hour, and for one more.
abbrev pub hours_value : ℤ → ℤ
hours_value minutes = scale 1000 (cut 60 minutes +ℤ pos 1)

unfoldable pub has_negative_hours : ℕ → ℤ → Levels → Bool
has_negative_hours user minutes m = elim (get_user_log user m) [
  | none ↦ false
  | some r ↦ is_negative 4999 (hours_value minutes)
]

unfoldable pub update_activity_hours : ℕ → ℤ → Levels → Levels
update_activity_hours user minutes m = record m {
  logs =
      change (λ r. r.user_id == user)
        (λ r. record r { activity_hours = pos (to_upper (pos_part (hours_value minutes))) }) m.logs;
}

unfoldable pub create_activity : Env → ℕ → Levels → Levels
create_activity env user m = record m {
  activities =
      m.activities
      ++ record { id = m.next_activity; user_id = user; start = env.now; end = none; total = pos 0 }
        ∷ [];
  next_activity = suc m.next_activity;
}

unfoldable pub create_user_event : ℕ → EventType → Levels → Levels
create_user_event user e m = record m {
  events = m.events ++ record { user_id = user; event = e } ∷ [];
}

-- `ORDER BY id DESC LIMIT 1`.
abbrev pub later : UserActivity → Option UserActivity → UserActivity
later a none = a
later a (some b) = if ltb a.id b.id then b else a

abbrev pub latest : List UserActivity → Option UserActivity
latest [] = none
latest (a ∷ rest) = some (later a (latest rest))

unfoldable pub get_latest_activity : ℕ → Levels → Option UserActivity
get_latest_activity user m = latest (select (λ a. a.user_id == user) m.activities)

unfoldable pub update_activity : ℕ → ℕ → ℤ → Levels → Levels
update_activity id at minutes m = record m {
  activities =
      change (λ a. a.id == id) (λ a. record a { end = some at; total = minutes }) m.activities;
}

abbrev pub total_minutes : List UserActivity → ℤ
total_minutes [] = pos 0
total_minutes (a ∷ rest) = a.total +ℤ total_minutes rest

unfoldable pub get_total_activity_minutes : ℕ → Levels → ℤ
get_total_activity_minutes user m = total_minutes (select (λ a. a.user_id == user) m.activities)

abbrev pub is_held : ℕ → ℕ → Held → Bool
is_held user k h = h.user_id == user && h.of == k

abbrev pub holds : ℕ → ℕ → List Held → Bool
holds user k l = ltb 0 (count (is_held user k) l)

-- A level that the score reaches and the user does not have.
abbrev pub is_due : ℕ → ℤ → List Held → Level → Bool
is_due user s held l = leb_ℤ (pos l.score) s && not (holds user l.id held)

abbrev pub higher : Level → Option Level → Level
higher a none = a
higher a (some b) = if ltb a.score b.score then b else a

-- `ORDER BY score DESC LIMIT 1`: of several of one score, the first.
abbrev pub highest : List Level → Option Level
highest [] = none
highest (a ∷ rest) = some (higher a (highest rest))

unfoldable pub get_next_level_for_score : ℕ → ℤ → Levels → Option Level
get_next_level_for_score user s m = highest (select (is_due user s m.level_users) m.levels)

unfoldable pub attach_level_to_user : ℕ → ℕ → Levels → Levels
attach_level_to_user user level m = record m {
  level_users = m.level_users ++ record { user_id = user; of = level } ∷ [];
}

unfoldable pub get_level_prize : ℕ → Levels → Option LevelPrize
get_level_prize level m = first (λ p. p.level_id == level) m.prizes

unfoldable pub has_user_received_prize : ℕ → ℕ → Levels → Bool
has_user_received_prize user prize m = holds user prize m.received

unfoldable pub record_received_prize : ℕ → ℕ → Levels → Levels
record_received_prize user prize m = record m {
  received = m.received ++ record { user_id = user; of = prize } ∷ [];
}
