-- ===== src/Social/Votes.antt =====
-- services/social-service/internal/service/challenge_service.go: the percentages of the votes.
use microservice_metarang.Prelude.{
  ℕ, ◌+◌, ◌*◌, ◌≤◌, ◌<◌, Bool, true, some, List, [], ◌∷◌, ◌++◌, map, ◌≡◌, refl, sym, ap, ◌∙◌, inl,
  inr, arith, ◌==◌, ==_iff, ==_refl, ltb, if◌then◌else◌, Bool-cases, All,
}
use mathlib.Core.Path.{subst}
use native.Mathlib.Nat.{le_of_mul-le-mul_right}
use microservice_metarang.Prelude.Rows.{first, select, count}
use microservice_metarang.Prelude.Keys.{Apart, Distinct, Apart-first}
use microservice_metarang.Prelude.Action.{Result, ok}
use microservice_metarang.Social.Challenge.{
  Answer, UserAnswer, Challenge, Env, Refusal, AnswerResource, QuestionResource, is_answer_to,
  get_answers_by_question_id, get_answer_vote_count, get_question_total_answers, percentage_of,
  shown, resource, record_answer, submit_answer,
}
use microservice_metarang.Social.Answering.{
  Taken, submit_answer-Taken, record_answer-rows, question_id, Call, serve, serve_all, Adds,
  none_added, one_added, serve-Adds, submit,
}

abbrev id_of : Answer → ℕ
id_of a = a.id

-- An answer that was given is on record, for the question that it was given to.
abbrev pub Belongs : List Answer → UserAnswer → Type 0
Belongs answers r =
    (a : Answer) × (first (λ a. a.id == r.answer_id) answers ≡ some a)
    × (a.question_id ≡ r.question_id)

pub record IsConsistent (m : Challenge) : Type 0 where
  pub distinct : Distinct (λ (a : Answer). a.id) m.answers
  pub rows : All (Belongs m.answers) m.user_answers

found_later :
    (x : Answer) (s : Answer → Bool) (l : List Answer) (a : Answer)
    → Apart id_of x.id l
    → (first (λ y. y.id == a.id) l ≡ some a) × (s a ≡ true)
    → (first (λ y. y.id == a.id) (x ∷ l) ≡ some a) × (s a ≡ true)
found_later x s l a d (f, t) =
    (ground (arith, f, Apart-first id_of x.id (λ y. y.id == a.id) l a d f), t)

found_by_id :
    (p s : Answer → Bool) (l : List Answer) (a : Answer)
    → Distinct id_of l
    → first p (select s l) ≡ some a
    → (first (λ x. x.id == a.id) l ≡ some a) × (s a ≡ true)
found_by_id p s [] a d h = absurd (ground (arith, h))
found_by_id p s (x ∷ l) a d h = elim (Bool-cases (s x)) [
  | inr n ↦ found_later x s l a d.0 (found_by_id p s l a d.1 (ground (arith, h, n)))
  | inl t ↦ elim (Bool-cases (p x)) [
    | inl u ↦ let e : x ≡ a = ground (arith, h, t, u) in rw (← e) (rw (==_refl x.id) refl, t)
    | inr u ↦ found_later x s l a d.0 (found_by_id p s l a d.1 (ground (arith, h, t, u)))
  ]
]

count-Apart :
    (k : ℕ) (s : Answer → Bool) (l : List Answer)
    → Apart id_of k l
    → count (λ a. k == a.id) (select s l) ≡ 0
count-Apart k s [] h = refl
count-Apart k s (x ∷ l) h = ground (arith, h, count-Apart k s l h.1)

hits :
    (q : ℕ) (r : UserAnswer) (l : List Answer)
    → Distinct id_of l
    → ((a : Answer) → first (λ a. a.id == r.answer_id) l ≡ some a → a.question_id ≡ r.question_id)
    → count (λ a. r.answer_id == a.id) (select (is_answer_to q) l)
      ≤ (if r.question_id == q then 1 else 0)
hits q r [] d h = ground arith
hits q r (x ∷ l) d h = elim (Bool-cases (r.answer_id == x.id)) [
  | inl e ↦ ground (
    arith,
    e,
    h x (ground (arith, e)),
    count-Apart r.answer_id (is_answer_to q) l (rw ((==_iff _ _).0 e) d.0),
  )
  | inr e ↦ ground (arith, e, hits q r l d.1 (λ a f. h a (ground (arith, e, f))))
]

-- The votes for these answers.
abbrev votes : List Answer → List UserAnswer → ℕ
votes [] rows = 0
votes (a ∷ l) rows = count (λ r. r.answer_id == a.id) rows + votes l rows

votes-none : (l : List Answer) → votes l [] ≡ 0
votes-none [] = refl
votes-none (a ∷ l) = omega (arith, votes-none l)

votes-more :
    (l : List Answer) (r : UserAnswer) (rows : List UserAnswer)
    → votes l (r ∷ rows) ≡ votes l rows + count (λ a. r.answer_id == a.id) l
votes-more [] r rows = refl
votes-more (a ∷ l) r rows = ground (arith, votes-more l r rows)

-- Every vote for an answer to a question is an answer to the question.
votes-le :
    (q : ℕ) (answers : List Answer) (rows : List UserAnswer)
    → Distinct id_of answers
    → All (Belongs answers) rows
    → votes (select (is_answer_to q) answers) rows ≤ count (λ r. r.question_id == q) rows
votes-le q answers [] d h = omega (arith, votes-none (select (is_answer_to q) answers))
votes-le q answers (r ∷ rows) d h =
    let (a, f, e) = h.0 in
    ground (
      arith,
      votes-more (select (is_answer_to q) answers) r rows,
      hits q r answers d (λ b g. ground (arith, e, f, g)),
      votes-le q answers rows d h.1,
    )

abbrev pub total_percentage : List AnswerResource → ℕ
total_percentage [] = 0
total_percentage (a ∷ l) = a.vote_percentage + total_percentage l

scaled_add : (x y t u v : ℕ) → x * t ≤ u * 100 → y * t ≤ v * 100 → (x + y) * t ≤ (u + v) * 100
scaled_add x y t u v h k = grind arith

module _ (env : Env) (exact : (v t : ℕ) → env.percentage v t * t ≤ v * 100) where
  percentage-vote :
      (total : ℕ) (n : Challenge) (a : Answer)
      → percentage_of env total n a * total ≤ count (λ r. r.answer_id == a.id) n.user_answers * 100
  unfolding get_answer_vote_count
  percentage-vote total n a = elim (Bool-cases (ltb 0 total)) [
    | inl p ↦ rw p (exact (get_answer_vote_count a.id n) total)
    | inr p ↦ rw p (omega arith)
  ]

  percentages-votes :
      (total : ℕ) (n : Challenge) (l : List Answer)
      → total_percentage (map (shown env total n) l) * total ≤ votes l n.user_answers * 100
  percentages-votes total n [] = omega arith
  percentages-votes total n (a ∷ l) =
      scaled_add (percentage_of env total n a) _ total _ _ (percentage-vote total n a)
        (percentages-votes total n l)

  total_percentage-le :
      (q : ℕ) (n : Challenge)
      → IsConsistent n
      → 0 < get_question_total_answers q n
      → total_percentage
          (map (shown env (get_question_total_answers q n) n) (get_answers_by_question_id q n))
        ≤ 100
  unfolding get_question_total_answers get_answers_by_question_id
  total_percentage-le q n c p =
      le_of_mul-le-mul_right {k = get_question_total_answers q n}
        (omega (
          arith,
          percentages-votes (get_question_total_answers q n) n (get_answers_by_question_id q n),
          votes-le q n.answers n.user_answers c.distinct c.rows,
        ))
        p

All-append :
    (answers : List Answer) (l : List UserAnswer) (r : UserAnswer)
    → All (Belongs answers) l
    → Belongs answers r
    → All (Belongs answers) (l ++ r ∷ [])
All-append answers [] r h k = (k, tt)
All-append answers (x ∷ l) r h k = (h.0, All-append answers l r h.1 k)

-- Every call keeps the answers consistent.
Adds-IsConsistent : (m n : Challenge) → Adds m n → IsConsistent m → IsConsistent n
unfolding get_answers_by_question_id
Adds-IsConsistent m n (none_added e f) c = record {
  distinct = rw f c.distinct;
  rows = rw (e, f) c.rows;
}
Adds-IsConsistent m n (one_added env user question answer t e f) c = record {
  distinct = rw f c.distinct;
  rows =
      let (g, k) =
        found_by_id (λ a. a.id == answer) (is_answer_to question) m.answers t.a c.distinct
          t.given in
      rw (e, f)
        (All-append m.answers m.user_answers _ c.rows
          (t.a, g, (==_iff _ _).0 k ∙ sym (question_id env user question answer m t)));
}

pub serve_all-IsConsistent :
    (cs : List (Env × Call)) (m : Challenge) → IsConsistent m → IsConsistent (serve_all cs m)
serve_all-IsConsistent [] m h = h
serve_all-IsConsistent ((env, c) ∷ cs) m h =
    serve_all-IsConsistent cs (serve env c m) (Adds-IsConsistent m _ (serve-Adds env c m) h)

count-append_positive :
    (p : UserAnswer → Bool) (l : List UserAnswer) (r : UserAnswer)
    → p r ≡ true
    → 0 < count p (l ++ r ∷ [])
count-append_positive p [] r h = rw h (omega arith)
count-append_positive p (x ∷ l) r h = ground (arith, count-append_positive p l r h)

module _ (env : Env) (user question answer : ℕ) (m : Challenge)
    (t : Taken env user question answer m) where
  abbrev after : Challenge
  after = record_answer env user t.q t.a m

  after-IsConsistent : IsConsistent m → IsConsistent after
  after-IsConsistent c =
      subst (λ (x : Result Refusal QuestionResource × Challenge). IsConsistent x.1) t.outcome
        (Adds-IsConsistent m _ (serve-Adds env (submit user question answer) m) c)

  same_answers : get_answers_by_question_id question after ≡ get_answers_by_question_id question m
  unfolding get_answers_by_question_id
  same_answers = ap (select (is_answer_to question)) (record_answer-rows env user t.q t.a m).1

  answered_positive : 0 < get_question_total_answers question after
  unfolding get_question_total_answers
  answered_positive = rw (record_answer-rows env user t.q t.a m).0 (
      count-append_positive (λ r. r.question_id == question) m.user_answers _
        (rw (question_id env user question answer m t) (==_refl question)))

  shown-le :
      ((v t : ℕ) → env.percentage v t * t ≤ v * 100)
      → IsConsistent m
      → total_percentage (resource env t.q (get_answers_by_question_id question m) after).answers
        ≤ 100
  unfolding resource
  shown-le exact c =
      subst
        (λ k.
          total_percentage (
            map (shown env (get_question_total_answers k after) after)
              (get_answers_by_question_id question m))
          ≤ 100)
        (sym (question_id env user question answer m t))
        (subst
          (λ l.
            total_percentage (map (shown env (get_question_total_answers question after) after) l)
            ≤ 100)
          same_answers
          (total_percentage-le env exact question after (after-IsConsistent c) answered_positive))

ok_injective :
    (a b : QuestionResource) → ◌≡◌ {A = Result Refusal QuestionResource} (ok a) (ok b) → a ≡ b
ok_injective a b h = cc

-- Whatever has been asked and answered before: if the rows were consistent at first and a percentage
-- is not above the exact one, the percentages that an answer shows are at most 100 together.
pub total_percentage-submit_answer :
    (env : Env) (user question answer : ℕ) (cs : List (Env × Call)) (m : Challenge)
    (r : QuestionResource)
    → ((v t : ℕ) → env.percentage v t * t ≤ v * 100)
    → IsConsistent m
    → (submit_answer env user question answer (serve_all cs m)).0 ≡ ok r
    → total_percentage r.answers ≤ 100
total_percentage-submit_answer env user question answer cs m r exact c h =
    let t = submit_answer-Taken env user question answer (serve_all cs m) r h in
    let n = record_answer env user t.q t.a (serve_all cs m) in
    let s = resource env t.q (get_answers_by_question_id question (serve_all cs m)) n in
    subst (λ (x : QuestionResource). total_percentage x.answers ≤ 100)
      (ok_injective s r
        (sym (ap (λ (x : Result Refusal QuestionResource × Challenge). x.0) t.outcome) ∙ h))
      (shown-le env user question answer (serve_all cs m) t exact (serve_all-IsConsistent cs m c))
