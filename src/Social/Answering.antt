-- ===== src/Social/Answering.antt =====
-- services/social-service/internal/service/challenge_service.go: an answer, its prize, and the
-- answers after a right one.
use microservice_metarang.Prelude.{
  ℕ, Bool, true, false, some, List, [], ◌∷◌, ◌++◌, ◌≡◌, ◌⊎◌, refl, ap, ◌∙◌, inl, inr, arith, ◌==◌,
  ==_iff, ==_refl, Bool-cases, Option-cases,
}
use microservice_metarang.Prelude.Rows.{first, select, is_some}
use microservice_metarang.Prelude.Keys.{first_passes}
use microservice_metarang.Prelude.Action.{Result, ok, err}
use microservice_metarang.Social.Challenge.{
  Question, Answer, UserAnswer, Challenge, Env, Refusal, question_not_found, answer_mismatch,
  already_answered, QuestionResource, get_question_by_id, is_answer_to, get_answers_by_question_id,
  increment_question_views, increment_question_participants, create_user_answer, is_right,
  is_right_for, has_user_answered_correctly, get_random_unanswered_question, credit_prize,
  get_question, record_answer, resource, submit_answer,
}

-- What an answer that is taken has found and done.
pub record Taken (env : Env) (user question answer : ℕ) (m : Challenge) : Type 0 where
  pub q : Question
  pub a : Answer
  pub asked : get_question_by_id question m ≡ some q
  pub given : first (λ a. a.id == answer) (get_answers_by_question_id question m) ≡ some a
  pub is_first : has_user_answered_correctly user question m ≡ false
  pub outcome : submit_answer env user question answer m ≡ (
    ok (resource env q (get_answers_by_question_id question m) (record_answer env user q a m)),
    record_answer env user q a m,
  )

abbrev Refused : Env → ℕ → ℕ → ℕ → Challenge → Type 0
Refused env user question answer m =
    (e : Refusal) × (submit_answer env user question answer m ≡ (err e, m))

module _ (env : Env) (user question answer : ℕ) where
  -- An answer is refused and changes nothing, or it is taken.
  pub submit_answer-cases :
      (m : Challenge) → Refused env user question answer m ⊎ Taken env user question answer m
  unfolding submit_answer
  submit_answer-cases m = elim (Option-cases (get_question_by_id question m)) [
    | inl e ↦ inl (question_not_found, rw e refl)
    | inr (q, e) ↦
        elim (Option-cases (first (λ a. a.id == answer) (get_answers_by_question_id question m))) [
          | inl f ↦ inl (answer_mismatch, rw (e, f) refl)
          | inr (a, f) ↦ elim (Bool-cases (has_user_answered_correctly user question m)) [
            | inl g ↦ inl (already_answered, rw (e, f, g) refl)
            | inr g ↦ inr (record {
              q = q;
              a = a;
              asked = e;
              given = f;
              is_first = g;
              outcome = rw (e, f, g) refl;
            })
          ]
        ]
  ]

  pub submit_answer-Taken :
      (m : Challenge) (r : QuestionResource)
      → (submit_answer env user question answer m).0 ≡ ok r
      → Taken env user question answer m
  submit_answer-Taken m r h = elim (submit_answer-cases m) [
    | inl (e, f) ↦ absurd (ground (arith, f, h))
    | inr t ↦ t
  ]

  -- Who has answered correctly is refused, whatever the answer.
  submit_answer-Refused :
      (m : Challenge)
      → has_user_answered_correctly user question m ≡ true
      → Refused env user question answer m
  submit_answer-Refused m h = elim (submit_answer-cases m) [
    | inl r ↦ r
    | inr t ↦ absurd (ground (arith, h, t.is_first))
  ]

pub record_answer-rows :
    (env : Env) (user : ℕ) (q : Question) (a : Answer) (m : Challenge)
    → ((record_answer env user q a m).user_answers
        ≡ m.user_answers ++ record { user_id = user; question_id = q.id; answer_id = a.id } ∷ [])
      × ((record_answer env user q a m).answers ≡ m.answers)
      × ((record_answer env user q a m).questions
          ≡ (increment_question_participants q.id m).questions)
unfolding record_answer create_user_answer increment_question_participants credit_prize
record_answer-rows env user q a m = elim (Bool-cases a.is_correct) [
  | inl e ↦ rw e (elim (Bool-cases env.has_client) [
    | inl f ↦ rw f (refl, refl, refl)
    | inr f ↦ rw f (refl, refl, refl)
  ])
  | inr e ↦ rw e (refl, refl, refl)
]

pub data Call : Type 0 where
  ask : ℕ → Call
  submit : ℕ → ℕ → ℕ → Call

-- Each call meets surroundings of its own.
abbrev pub serve : Env → Call → Challenge → Challenge
serve env (ask user) m = (get_question env user m).1
serve env (submit user question answer) m = (submit_answer env user question answer m).1

abbrev pub serve_all : List (Env × Call) → Challenge → Challenge
serve_all [] m = m
serve_all ((env, c) ∷ cs) m = serve_all cs (serve env c m)

get_question-rows :
    (env : Env) (user : ℕ) (m : Challenge)
    → ((get_question env user m).1.user_answers ≡ m.user_answers)
      × ((get_question env user m).1.answers ≡ m.answers)
unfolding get_question increment_question_views
get_question-rows env user m = elim (Option-cases (get_random_unanswered_question env user m)) [
  | inl e ↦ rw e (refl, refl)
  | inr (q, e) ↦ rw e (refl, refl)
]

-- What a call adds to the answers that were given: nothing, or the row of an answer that it takes.
pub data Adds (m : Challenge) : Challenge → Type 0 where
  none_added : {n : Challenge} → n.user_answers ≡ m.user_answers → n.answers ≡ m.answers → Adds m n
  one_added :
      {n : Challenge} (env : Env) (user question answer : ℕ) (t : Taken env user question answer m)
      → n.user_answers
        ≡ m.user_answers ++ record { user_id = user; question_id = t.q.id; answer_id = t.a.id } ∷ []
      → n.answers ≡ m.answers
      → Adds m n

pub serve-Adds : (env : Env) (c : Call) (m : Challenge) → Adds m (serve env c m)
serve-Adds env (ask user) m = let e = get_question-rows env user m in none_added e.0 e.1
serve-Adds env (submit user question answer) m =
    elim (submit_answer-cases env user question answer m) [
      | inl (e, f) ↦
          none_added (ap (λ (x : Result Refusal QuestionResource × Challenge). x.1.user_answers) f)
            (ap (λ (x : Result Refusal QuestionResource × Challenge). x.1.answers) f)
      | inr t ↦
          let e = record_answer-rows env user t.q t.a m in
          one_added env user question answer t
            (ap (λ (x : Result Refusal QuestionResource × Challenge). x.1.user_answers) t.outcome
              ∙ e.0)
            (ap (λ (x : Result Refusal QuestionResource × Challenge). x.1.answers) t.outcome ∙ e.1)
    ]

is_some-append :
    (p : UserAnswer → Bool) (l : List UserAnswer) (r : UserAnswer)
    → is_some (first p l) ≡ true
    → is_some (first p (l ++ r ∷ [])) ≡ true
is_some-append p [] r h = absurd (ground (arith, h))
is_some-append p (x ∷ l) r h = ground (arith, h, is_some-append p l r)

is_some-append_new :
    (p : UserAnswer → Bool) (l : List UserAnswer) (r : UserAnswer)
    → p r ≡ true
    → is_some (first p (l ++ r ∷ [])) ≡ true
is_some-append_new p [] r h = rw h refl
is_some-append_new p (x ∷ l) r h = ground (arith, h, is_some-append_new p l r)

answered_stays :
    (user question : ℕ) (m n : Challenge)
    → Adds m n
    → has_user_answered_correctly user question m ≡ true
    → has_user_answered_correctly user question n ≡ true
unfolding has_user_answered_correctly
answered_stays user question m n (none_added e f) h = rw (e, f) h
answered_stays user question m n (one_added env u q a t e f) h =
    rw (e, f) (is_some-append (is_right_for m.answers user question) m.user_answers _ h)

answered_all :
    (user question : ℕ) (cs : List (Env × Call)) (m : Challenge)
    → has_user_answered_correctly user question m ≡ true
    → has_user_answered_correctly user question (serve_all cs m) ≡ true
answered_all user question [] m h = h
answered_all user question ((env, c) ∷ cs) m h =
    answered_all user question cs (serve env c m)
      (answered_stays user question m _ (serve-Adds env c m) h)

-- The ids of what was found are those that were asked for.
module _ (env : Env) (user question answer : ℕ) (m : Challenge)
    (t : Taken env user question answer m) where
  pub question_id : t.q.id ≡ question
  unfolding get_question_by_id
  question_id = (==_iff _ _).0 (first_passes (λ q. q.id == question) m.questions t.q t.asked)

  pub answer_id : t.a.id ≡ answer
  unfolding get_answers_by_question_id
  answer_id =
      (==_iff _ _).0
        (first_passes (λ a. a.id == answer) (select (is_answer_to question) m.answers) t.a t.given)

  right_added :
      is_right m.answers (record { user_id = user; question_id = question; answer_id = answer })
        ≡ true
      → has_user_answered_correctly user question (submit_answer env user question answer m).1
        ≡ true
  unfolding has_user_answered_correctly
  right_added right =
      let e = record_answer-rows env user t.q t.a m in
      rw (t.outcome, e.0, e.1)
        (is_some-append_new (is_right_for m.answers user question) m.user_answers _
          (rw (question_id, answer_id, ==_refl user, ==_refl question) right))

-- After a right answer that was taken, every further answer of the user to the question is refused and
-- changes nothing, whatever is asked and answered in between.
pub answered_once :
    (env env' : Env) (user question answer answer' : ℕ) (cs : List (Env × Call)) (m : Challenge)
    (r : QuestionResource)
    → (submit_answer env user question answer m).0 ≡ ok r
    → is_right m.answers (record { user_id = user; question_id = question; answer_id = answer })
      ≡ true
    → let n = serve_all cs (submit_answer env user question answer m).1 in
      (e : Refusal) × (submit_answer env' user question answer' n ≡ (err e, n))
answered_once env env' user question answer answer' cs m r h right =
    let t = submit_answer-Taken env user question answer m r h in
    submit_answer-Refused env' user question answer' _
      (answered_all user question cs _ (right_added env user question answer m t right))
