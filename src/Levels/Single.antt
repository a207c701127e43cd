-- ===== src/Levels/Single.antt =====
-- services/levels-service/internal/service: levels and prizes under sequences of calls.
use microservice_metarang.Prelude.{ℕ, ◌≤◌, true, List, [], ◌∷◌, ◌≡◌, refl, arith, ◌==◌, ==_iff}
use microservice_metarang.Prelude.Rows.{count, count-append}
use microservice_metarang.Levels.Tables.{Held, Levels, Env, is_held}
use microservice_metarang.Levels.Awards.{Added, same, new, Call, serve, serve-Grows}

abbrev pub serve_all : List (Env × Call) → Levels → Levels
serve_all [] m = m
serve_all ((env, c) ∷ cs) m = serve_all cs (serve env c m)

abbrev Once : List Held → Type 0
Once l = (user it : ℕ) → count (is_held user it) l ≤ 1

-- Nobody holds a level twice, and nobody has got a prize twice.
pub record IsUnrepeated (m : Levels) : Type 0 where
  pub levels : (user level : ℕ) → count (is_held user level) m.level_users ≤ 1
  pub prizes : (user prize : ℕ) → count (is_held user prize) m.received ≤ 1

same_held :
    (a b c d : ℕ) (l : List Held)
    → (a == c) ≡ true
    → (b == d) ≡ true
    → count (is_held a b) l ≡ count (is_held c d) l
same_held a b c d l h k = rw ((==_iff a c).0 h, (==_iff b d).0 k) refl

Added-Once : (l k : List Held) → Once l → Added l k → Once k
Added-Once l k h (same e) = λ a b. rw e (h a b)
Added-Once l k h (new user it f e) = λ a b.
    let r : Held = record { user_id = user; of = it } in
    rw (e, count-append (is_held a b) l r) (ground (arith, f, h a b, same_held user it a b l))

-- Whatever is recorded and claimed, nobody gets a level or a prize twice, if it was so at first.
pub serve_all-IsUnrepeated :
    (cs : List (Env × Call)) (m : Levels) → IsUnrepeated m → IsUnrepeated (serve_all cs m)
serve_all-IsUnrepeated [] m h = h
serve_all-IsUnrepeated ((env, c) ∷ cs) m h =
    let g = serve-Grows env c m in
    serve_all-IsUnrepeated cs (serve env c m) (record {
      levels = Added-Once m.level_users (serve env c m).level_users h.levels g.attached;
      prizes = Added-Once m.received (serve env c m).received h.prizes g.received;
    })
