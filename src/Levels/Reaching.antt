-- ===== src/Levels/Reaching.antt =====
-- services/levels-service/internal/service/activity_service.go: UpdateActivityScore attaches one level
-- at a time, and how many calls it takes.
use microservice_metarang.Prelude.{
  ℕ, zero, suc, ◌-◌, ◌≤◌, ◌<◌, Bool, true, not, ◌&&◌, ◌||◌, Option, none, some, List, [], ◌∷◌, ◌++◌,
  ◌≡◌, ◌⊎◌, refl, ap, ◌∙◌, inl, inr, arith, ◌==◌, ==_refl, ltb, Bool-cases, Option-cases, All,
}
use microservice_metarang.Prelude.Int.{ℤ, pos, leb_ℤ}
use microservice_metarang.Prelude.Rows.{first, select, count, count-append}
use microservice_metarang.Prelude.Keys.{first_passes, first-change_of}
use microservice_metarang.Levels.Tables.{
  Level, LevelPrize, UserLog, Held, Levels, Env, get_user_log, calculate_score, update_score,
  is_held, holds, is_due, higher, highest, get_next_level_for_score, attach_level_to_user,
  get_level_prize, has_user_received_prize, record_received_prize,
}
use microservice_metarang.Levels.Scores.{receive_once, award, update_activity_score}

-- The same call, so many times.
abbrev pub repeat : ℕ → Env → ℕ → Levels → Levels
repeat zero env user m = m
repeat (suc k) env user m = repeat k env user (update_activity_score env user m).1

-- The levels that the user still lacks for a score.
abbrev pub missing : ℕ → ℤ → Levels → ℕ
missing user s m = count (is_due user s m.level_users) m.levels

higher-cases : (a : Level) (o : Option Level) (l : Level) → higher a o ≡ l → (a ≡ l) ⊎ (o ≡ some l)
higher-cases a none l e = inl e
higher-cases a (some b) l e = elim (Bool-cases (ltb a.score b.score)) [
  | inl t ↦ inr (ground (arith, e, t))
  | inr t ↦ inl (ground (arith, e, t))
]

highest-none : (p : Level → Bool) (ls : List Level) → highest (select p ls) ≡ none → count p ls ≡ 0
highest-none p [] e = refl
highest-none p (a ∷ ls) e = ground (arith, e, highest-none p ls)

module _ (p q : Level → Bool) (l : Level)
    (same : (x : Level) → q x ≡ (p x && not (l.id == x.id))) where
  count-fewer : (ls : List Level) → count q ls ≤ count p ls
  count-fewer [] = omega arith
  count-fewer (x ∷ ls) = ground (arith, same x, count-fewer ls)

  count_drops : (ls : List Level) → highest (select p ls) ≡ some l → count q ls < count p ls
  count_drops [] e = absurd (ground (arith, e))
  count_drops (x ∷ ls) e = elim (Bool-cases (p x)) [
    | inr n ↦ ground (arith, same x, n, count_drops ls (ground (arith, e, n)))
    | inl t ↦ elim (higher-cases x (highest (select p ls)) l (ground (arith, e, t))) [
      | inl f ↦ ground (arith, same x, t, ap (λ (a : Level). a.id) f, count-fewer ls)
      | inr f ↦ ground (arith, same x, t, count_drops ls f)
    ]
  ]

holds-append :
    (user k it : ℕ) (l : List Held)
    → holds user k (l ++ record { user_id = user; of = it } ∷ []) ≡ (holds user k l || (it == k))
holds-append user k it l =
    let r : Held = record { user_id = user; of = it } in
    rw (count-append (is_held user k) l r, ==_refl user) (ground arith)

due-append :
    (user : ℕ) (s : ℤ) (it : ℕ) (l : List Held) (x : Level)
    → is_due user s (l ++ record { user_id = user; of = it } ∷ []) x
      ≡ (is_due user s l x && not (it == x.id))
due-append user s it l x = rw (holds-append user x.id it l) (ground arith)

receive_once-rest :
    (user : ℕ) (p : LevelPrize) (m : Levels)
    → ((receive_once user p m).levels ≡ m.levels)
      × ((receive_once user p m).level_users ≡ m.level_users)
      × ((receive_once user p m).logs ≡ m.logs)
unfolding record_received_prize
receive_once-rest user p m = elim (Bool-cases (has_user_received_prize user p.id m)) [
  | inl e ↦ rw e (refl, refl, refl)
  | inr e ↦ rw e (refl, refl, refl)
]

award-rest :
    (user : ℕ) (s : ℤ) (l : Level) (m : Levels)
    → ((award user s (some l) m).1.levels ≡ m.levels)
      × ((award user s (some l) m).1.level_users
          ≡ m.level_users ++ record { user_id = user; of = l.id } ∷ [])
      × ((award user s (some l) m).1.logs ≡ m.logs)
unfolding attach_level_to_user
award-rest user s l m =
    elim (Option-cases (get_level_prize l.id (attach_level_to_user user l.id m))) [
      | inl e ↦ rw e (refl, refl, refl)
      | inr (p, e) ↦ rw e (receive_once-rest user p (attach_level_to_user user l.id m))
    ]

-- What a call leaves: the levels, the log but for the score, and one level less that is missing, if one is.
abbrev Closer : ℕ → ℤ → Levels → Levels → Type 0
Closer user s m n =
    (n.levels ≡ m.levels) × (n.logs ≡ m.logs) × (missing user s n ≤ missing user s m - 1)

award-Closer :
    (user : ℕ) (s : ℤ) (m : Levels) (o : Option Level)
    → get_next_level_for_score user s m ≡ o
    → Closer user s m (award user s o m).1
unfolding get_next_level_for_score
award-Closer user s m none e =
    let h = highest-none (is_due user s m.level_users) m.levels e in (refl, refl, omega (arith, h))
award-Closer user s m (some l) e =
    let r = award-rest user s l m in
    (
      r.0,
      r.2,
      rw (r.0, r.1)
          (omega (
            arith,
            count_drops (is_due user s m.level_users) _ l (due-append user s l.id m.level_users)
                m.levels e,
          )),
    )

-- One call, with the log that it finds.
update-Closer :
    (env : Env) (user : ℕ) (m : Levels) (r : UserLog)
    → get_user_log user m ≡ some r
    → let n = (update_activity_score env user m).1 in
      (n.levels ≡ m.levels)
      × (get_user_log user n ≡ some (record r { score = calculate_score env r }))
      × (missing user (calculate_score env r) n ≤ missing user (calculate_score env r) m - 1)
unfolding update_activity_score update_score get_user_log
update-Closer env user m r e =
    let s = calculate_score env r in
    let c = award-Closer user s (update_score user s m) _ refl in
    rw e (
      c.0,
      ap (first (λ (x : UserLog). x.user_id == user)) c.1
          ∙ first-change_of (λ (x : UserLog). x.user_id == user) (λ x. x.user_id == user) _ m.logs r
              (λ x. refl) e
          ∙ rw (first_passes (λ (x : UserLog). x.user_id == user) m.logs r e) refl,
      c.2,
    )

repeat-missing :
    (k : ℕ) (env : Env) (user : ℕ) (m : Levels) (r : UserLog)
    → get_user_log user m ≡ some r
    → let s = calculate_score env r in
      ((repeat k env user m).levels ≡ m.levels)
      × (missing user s (repeat k env user m) ≤ missing user s m - k)
unfolding calculate_score
repeat-missing zero env user m r e = (refl, omega arith)
repeat-missing (suc k) env user m r e =
    let u = update-Closer env user m r e in
    let h =
      repeat-missing k env user (update_activity_score env user m).1
        (record r { score = calculate_score env r }) u.1 in
    (h.0 ∙ u.0, omega (arith, h.1, u.2))

none_missing :
    (user : ℕ) (s : ℤ) (held : List Held) (ls : List Level)
    → count (is_due user s held) ls ≡ 0
    → All (λ (l : Level). leb_ℤ (pos l.score) s ≡ true → holds user l.id held ≡ true) ls
none_missing user s held [] h = tt
none_missing user s held (l ∷ ls) h =
    (λ e. ground (arith, h, e), none_missing user s held ls (ground (arith, h)))

-- As many calls of UpdateActivityScore as there are levels up to the score that the user lacks are
-- enough: then a user with a log has every level up to the score, and the levels are as before.
pub update_activity_score_reaches :
    (k : ℕ) (env : Env) (user : ℕ) (m : Levels) (r : UserLog)
    → get_user_log user m ≡ some r
    → missing user (calculate_score env r) m ≤ k
    → let n = repeat k env user m in
      (n.levels ≡ m.levels)
      × All
          (λ (l : Level).
            leb_ℤ (pos l.score) (calculate_score env r) ≡ true
            → holds user l.id n.level_users ≡ true)
          n.levels
update_activity_score_reaches k env user m r e h =
    let t = repeat-missing k env user m r e in
    (
      t.0,
      none_missing user (calculate_score env r) _ (repeat k env user m).levels
          (omega (arith, t.1, h)),
    )
