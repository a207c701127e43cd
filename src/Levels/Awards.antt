-- ===== src/Levels/Awards.antt =====
-- services/levels-service/internal/service: what a call adds to the levels and prizes of the users.
use mathlib.Core.Path.{subst}
use microservice_metarang.Prelude.{
  ℕ, Bool, true, false, Option, none, some, List, [], ◌∷◌, ◌++◌, ◌≡◌, refl, ◌∙◌, inl, inr, arith,
  ltb, Bool-cases, Option-cases,
}
use microservice_metarang.Prelude.Int.{ℤ, pos, cut, ◌-ℤ◌}
use microservice_metarang.Prelude.Rows.{select}
use microservice_metarang.Prelude.Action.{pure, bind_keeps}
use microservice_metarang.Levels.Tables.{
  Level, LevelPrize, Held, Levels, Env, get_user_log, calculate_score, update_score,
  increment_deposit, overdraws, has_negative_hours, update_followers_count, update_activity_hours,
  holds, is_due, higher, highest, get_next_level_for_score, attach_level_to_user, get_level_prize,
  has_user_received_prize, record_received_prize, EventType, create_activity, create_user_event,
  get_latest_activity, update_activity, get_total_activity_minutes,
}
use microservice_metarang.Levels.Scores.{
  receive_once, award, update_activity_score, recalculate, record_deposit, record_follower,
  hour_reached, claim_prize, log_activity, log_logout, is_insignificant, record_trade,
}

-- Nothing is added, or something that was not held.
pub data Added (l : List Held) : List Held → Type 0 where
  same : {k : List Held} → k ≡ l → Added l k
  new :
      {k : List Held} (user it : ℕ)
      → holds user it l ≡ false
      → k ≡ l ++ record { user_id = user; of = it } ∷ []
      → Added l k

pub record Grows (m n : Levels) : Type 0 where
  pub levels : n.levels ≡ m.levels
  pub attached : Added m.level_users n.level_users
  pub received : Added m.received n.received

higher-found :
    (p : Level → Bool) (a : Level) (o : Option Level) (l : Level)
    → p a ≡ true
    → ((b : Level) → o ≡ some b → p b ≡ true)
    → higher a o ≡ l
    → p l ≡ true
higher-found p a none l h k e = rw (← e) h
higher-found p a (some b) l h k e = elim (Bool-cases (ltb a.score b.score)) [
  | inl t ↦ rw (← e, t) (k b refl)
  | inr t ↦ rw (← e, t) h
]

pub highest-select :
    (p : Level → Bool) (ls : List Level) (l : Level) → highest (select p ls) ≡ some l → p l ≡ true
highest-select p [] l e = absurd (ground (arith, e))
highest-select p (a ∷ ls) l e = elim (Bool-cases (p a)) [
  | inr n ↦ highest-select p ls l (ground (arith, e, n))
  | inl t ↦
      higher-found p a (highest (select p ls)) l t (λ b f. highest-select p ls b f)
        (ground (arith, e, t))
]

receive_once-rows :
    (user : ℕ) (p : LevelPrize) (m : Levels)
    → ((receive_once user p m).levels ≡ m.levels)
      × ((receive_once user p m).level_users ≡ m.level_users)
      × Added m.received (receive_once user p m).received
unfolding has_user_received_prize record_received_prize
receive_once-rows user p m = elim (Bool-cases (holds user p.id m.received)) [
  | inl e ↦ rw e (refl, refl, same refl)
  | inr e ↦ rw e (refl, refl, new user p.id e refl)
]

award_found-Grows :
    (user : ℕ) (s : ℤ) (l : Level) (m : Levels)
    → holds user l.id m.level_users ≡ false
    → Grows m (award user s (some l) m).1
unfolding attach_level_to_user
award_found-Grows user s l m h =
    elim (Option-cases (get_level_prize l.id (attach_level_to_user user l.id m))) [
      | inl e ↦
          rw e (record { levels = refl; attached = new user l.id h refl; received = same refl })
      | inr (p, e) ↦
          let r = receive_once-rows user p (attach_level_to_user user l.id m) in
          rw e (record { levels = r.0; attached = new user l.id h r.1; received = r.2 })
    ]

award-Grows :
    (user : ℕ) (s : ℤ) (m : Levels) (o : Option Level)
    → get_next_level_for_score user s m ≡ o
    → Grows m (award user s o m).1
unfolding get_next_level_for_score
award-Grows user s m none e = record { levels = refl; attached = same refl; received = same refl }
award-Grows user s m (some l) e =
    award_found-Grows user s l m
      (ground (arith, highest-select (is_due user s m.level_users) m.levels l e))

-- What comes before a call and leaves levels and prizes alone.
after_same :
    (m n k : Levels)
    → n.levels ≡ m.levels
    → n.level_users ≡ m.level_users
    → n.received ≡ m.received
    → Grows n k
    → Grows m k
after_same m n k e f g h = record {
  levels = h.levels ∙ e;
  attached = subst (λ l. Added l k.level_users) f h.attached;
  received = subst (λ l. Added l k.received) g h.received;
}

update-Grows : (env : Env) (user : ℕ) (m : Levels) → Grows m (update_activity_score env user m).1
unfolding update_activity_score update_score
update-Grows env user m = elim (Option-cases (get_user_log user m)) [
  | inl e ↦ rw e (record { levels = refl; attached = same refl; received = same refl })
  | inr (r, e) ↦
      let s = calculate_score env r in
      rw e (
        after_same m (update_score user s m) _ refl refl refl
          (award-Grows user s (update_score user s m) _ refl))
]

recalculate-Grows : (env : Env) (user : ℕ) (m : Levels) → Grows m (recalculate env user m).1
recalculate-Grows env user m =
    bind_keeps (update_activity_score env user) (λ p. pure tt) (Grows m) m (update-Grows env user m)
      (λ p t h. h)

-- A call; each one meets surroundings of its own.
pub data Call : Type 0 where
  update follower hour leave : ℕ → Call
  enter : ℕ → EventType → Call
  trade : ℕ → ℤ → ℤ → Call
  deposit : ℕ → Option ℤ → Call
  claim : ℕ → ℕ → Call

abbrev pub serve : Env → Call → Levels → Levels
serve env (update user) m = (update_activity_score env user m).1
serve env (follower user) m = (record_follower env user m).1
serve env (hour user) m = (hour_reached env user m).1
serve env (deposit user amount) m = (record_deposit env user amount m).1
serve env (leave user) m = (log_logout env user m).1
serve env (enter user e) m = (log_activity env user e m).1
serve env (trade user irr psc) m = (record_trade env user irr psc m).1
serve env (claim user level) m = (claim_prize user level m).1

claim-Grows : (user level : ℕ) (m : Levels) → Grows m (claim_prize user level m).1
unfolding claim_prize has_user_received_prize record_received_prize
claim-Grows user level m = elim (Option-cases (get_level_prize level m)) [
  | inl e ↦ rw e (record { levels = refl; attached = same refl; received = same refl })
  | inr (p, e) ↦ rw e (elim (Bool-cases (holds user p.id m.received)) [
    | inl f ↦ rw f (record { levels = refl; attached = same refl; received = same refl })
    | inr f ↦ rw f (record { levels = refl; attached = same refl; received = new user p.id f refl })
  ])
]

-- The calls that record hours.
hour_reached-Grows : (env : Env) (user : ℕ) (m : Levels) → Grows m (hour_reached env user m).1
unfolding hour_reached update_activity_hours
hour_reached-Grows env user m =
    let minutes = get_total_activity_minutes user m in
    elim (Bool-cases (has_negative_hours user minutes m)) [
      | inl e ↦ rw e (record { levels = refl; attached = same refl; received = same refl })
      | inr e ↦ rw e (
          after_same m _ _ refl refl refl
            (recalculate-Grows env user (update_activity_hours user minutes m)))
    ]

log_logout-Grows : (env : Env) (user : ℕ) (m : Levels) → Grows m (log_logout env user m).1
unfolding log_logout update_activity
log_logout-Grows env user m = elim (Option-cases (get_latest_activity user m)) [
  | inl e ↦ rw e (record { levels = refl; attached = same refl; received = same refl })
  | inr (a, e) ↦ rw e (
      after_same m _ _ refl refl refl (
        hour_reached-Grows env user
          (update_activity a.id env.now (cut 60 (pos env.now -ℤ pos a.start)) m)))
]

record_trade-Grows :
    (env : Env) (user : ℕ) (irr psc : ℤ) (m : Levels) → Grows m (record_trade env user irr psc m).1
unfolding record_trade
record_trade-Grows env user irr psc m = elim (Bool-cases (is_insignificant irr psc)) [
  | inl e ↦ rw e (record { levels = refl; attached = same refl; received = same refl })
  | inr e ↦ rw e (recalculate-Grows env user m)
]

record_deposit-Grows :
    (env : Env) (user : ℕ) (amount : Option ℤ) (m : Levels)
    → Grows m (record_deposit env user amount m).1
unfolding record_deposit increment_deposit
record_deposit-Grows env user none m = record {
  levels = refl;
  attached = same refl;
  received = same refl;
}
record_deposit-Grows env user (some units) m = elim (Bool-cases (overdraws user units m)) [
  | inl e ↦ rw e (record { levels = refl; attached = same refl; received = same refl })
  | inr e ↦ rw e (
      after_same m _ _ refl refl refl (recalculate-Grows env user (increment_deposit user units m)))
]

pub serve-Grows : (env : Env) (c : Call) (m : Levels) → Grows m (serve env c m)
unfolding record_follower update_followers_count log_activity create_activity create_user_event
serve-Grows env (update user) m = update-Grows env user m
serve-Grows env (follower user) m =
    after_same m _ _ refl refl refl
      (recalculate-Grows env user (update_followers_count user (env.followers user) m))
serve-Grows env (hour user) m = hour_reached-Grows env user m
serve-Grows env (leave user) m = log_logout-Grows env user m
serve-Grows env (enter user e) m = record {
  levels = refl;
  attached = same refl;
  received = same refl;
}
serve-Grows env (trade user irr psc) m = record_trade-Grows env user irr psc m
serve-Grows env (deposit user amount) m = record_deposit-Grows env user amount m
serve-Grows env (claim user level) m = claim-Grows user level m
