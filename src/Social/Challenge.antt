-- ===== src/Social/Challenge.antt =====
-- services/social-service/internal: the rows of models/challenge.go, the statements of
-- repository/challenge_repository.go and the calls of service/challenge_service.go. Titles and images
-- are left out, and the lists of answers come in the order of the rows.
use microservice_metarang.Prelude.{
  ℕ, suc, ◌%◌, ◌^◌, Bool, true, false, not, ◌&&◌, Option, none, some, List, [], ◌∷◌, ◌++◌, map,
  ◌==◌, if◌then◌else◌, ltb, length, get_elem?,
}
use microservice_metarang.Prelude.Int.{ℤ, scale}
use microservice_metarang.Prelude.Rows.{first, select, change, count, is_some}
use microservice_metarang.Prelude.Action.{Action, pure, gets, or_fail, fail_if, modify, ◌>>=◌, ◌>>◌}
use microservice_metarang.Wallet.Row.{Db, psc}
use microservice_metarang.Wallet.Client.{handle_add_balance}

pub record Question : Type 0 where
  pub id : ℕ
  pub prize : ℤ
  pub views : ℕ
  pub participants : ℕ

pub record Answer : Type 0 where
  pub id : ℕ
  pub question_id : ℕ
  pub is_correct : Bool

pub record UserAnswer : Type 0 where
  pub user_id : ℕ
  pub question_id : ℕ
  pub answer_id : ℕ

-- The tables, and those of the wallets behind the gRPC client.
pub record Challenge : Type 0 where
  pub commercial : Db
  pub questions : List Question
  pub answers : List Answer
  pub user_answers : List UserAnswer

-- Whether there is a client for the wallets, the random number of a query, and the quotient
-- `votes / total * 100` in float64, cut off, which the model takes as it comes.
pub record Env : Type 0 where
  pub has_client : Bool
  pub random : ℕ
  pub percentage : ℕ → ℕ → ℕ

pub data Refusal : Type 0 where
  question_not_found answer_mismatch already_answered no_unanswered_questions : Refusal

abbrev pub Step : Type 0 → Type 0
Step A = Action Challenge Refusal A

-- An answer as it is shown, and a question with its answers.
pub record AnswerResource : Type 0 where
  pub id : ℕ
  pub is_correct : Bool
  pub vote_percentage : ℕ

pub record QuestionResource : Type 0 where
  pub question : Question
  pub answers : List AnswerResource

unfoldable pub get_question_by_id : ℕ → Challenge → Option Question
get_question_by_id id m = first (λ q. q.id == id) m.questions

abbrev pub is_answer_to : ℕ → Answer → Bool
is_answer_to question a = a.question_id == question

unfoldable pub get_answers_by_question_id : ℕ → Challenge → List Answer
get_answers_by_question_id question m = select (is_answer_to question) m.answers

unfoldable pub increment_question_views : ℕ → Challenge → Challenge
increment_question_views id m = record m {
  questions = change (λ q. q.id == id) (λ q. record q { views = suc q.views }) m.questions;
}

unfoldable pub increment_question_participants : ℕ → Challenge → Challenge
increment_question_participants id m = record m {
  questions =
      change (λ q. q.id == id) (λ q. record q { participants = suc q.participants }) m.questions;
}

unfoldable pub create_user_answer : UserAnswer → Challenge → Challenge
create_user_answer r m = record m { user_answers = m.user_answers ++ r ∷ [] }

-- The join of an answer that was given with the row of the answer.
abbrev pub is_right : List Answer → UserAnswer → Bool
is_right answers r = is_some (first (λ a. a.id == r.answer_id && a.is_correct) answers)

abbrev pub is_right_for : List Answer → ℕ → ℕ → UserAnswer → Bool
is_right_for answers user question r =
    (r.user_id == user && r.question_id == question) && is_right answers r

unfoldable pub has_user_answered_correctly : ℕ → ℕ → Challenge → Bool
has_user_answered_correctly user question m =
    is_some (first (is_right_for m.answers user question) m.user_answers)

unfoldable pub get_answer_vote_count : ℕ → Challenge → ℕ
get_answer_vote_count answer m = count (λ r. r.answer_id == answer) m.user_answers

unfoldable pub get_question_total_answers : ℕ → Challenge → ℕ
get_question_total_answers question m = count (λ r. r.question_id == question) m.user_answers

-- `ORDER BY RAND() LIMIT 1` takes any of the rows.
unfoldable pub get_random_unanswered_question : Env → ℕ → Challenge → Option Question
get_random_unanswered_question env user m =
    let open_questions = select (λ q. not (has_user_answered_correctly user q.id m)) m.questions in
    get_elem? open_questions (env.random % length open_questions)

-- An error of the wallets is only logged.
unfoldable pub credit_prize : Env → ℕ → ℤ → Challenge → Challenge
credit_prize env user prize m =
    if env.has_client
    then record m {
      commercial = (handle_add_balance user (some psc) (scale (10 ^ 10) prize) m.commercial).1;
    }
    else m

-- Neither the right answer nor the votes are shown.
abbrev hidden : Answer → AnswerResource
hidden a = record { id = a.id; is_correct = false; vote_percentage = 0 }

unfoldable pub get_question : Env → ℕ → Step QuestionResource
get_question env user = do
  q ← or_fail (← gets (get_random_unanswered_question env user)) no_unanswered_questions
  modify (increment_question_views q.id)
  answers ← gets (get_answers_by_question_id q.id)
  pure (record { question = q; answers = map hidden answers })

abbrev pub percentage_of : Env → ℕ → Challenge → Answer → ℕ
percentage_of env total m a =
    if ltb 0 total then env.percentage (get_answer_vote_count a.id m) total else 0

abbrev pub shown : Env → ℕ → Challenge → Answer → AnswerResource
shown env total m a = record {
  id = a.id;
  is_correct = a.is_correct;
  vote_percentage = percentage_of env total m a;
}

abbrev or_old : Question → Option Question → Question
or_old q none = q
or_old q (some r) = r

-- The row of the answer, one participant more, and the prize for a right answer.
unfoldable pub record_answer : Env → ℕ → Question → Answer → Challenge → Challenge
record_answer env user q a m =
    let n =
      increment_question_participants q.id
        (create_user_answer (record { user_id = user; question_id = q.id; answer_id = a.id }) m) in
    if a.is_correct then credit_prize env user q.prize n else n

unfoldable pub resource : Env → Question → List Answer → Challenge → QuestionResource
resource env q answers m = record {
  question = or_old q (get_question_by_id q.id m);
  answers = map (shown env (get_question_total_answers q.id m) m) answers;
}

unfoldable pub submit_answer : Env → ℕ → ℕ → ℕ → Step QuestionResource
submit_answer env user question answer = do
  q ← or_fail (← gets (get_question_by_id question)) question_not_found
  answers ← gets (get_answers_by_question_id question)
  a ← or_fail (first (λ a. a.id == answer) answers) answer_mismatch
  done ← gets (has_user_answered_correctly user question)
  fail_if done already_answered
  modify (record_answer env user q a)
  gets (resource env q answers)

-- The numbers of right and wrong answers of a user, and that of the users with an answer.
unfoldable pub get_user_answer_count : ℕ → Bool → Challenge → ℕ
get_user_answer_count user true m =
    count (λ r. r.user_id == user && is_right m.answers r) m.user_answers
get_user_answer_count user false m =
    count
      (λ r.
        r.user_id == user
        && is_some (first (λ a. a.id == r.answer_id && not a.is_correct) m.answers))
      m.user_answers

abbrev count_users : List UserAnswer → ℕ
count_users [] = 0
count_users (r ∷ rest) =
    let n = count_users rest in
    if is_some (first (λ s. s.user_id == r.user_id) rest) then n else suc n

unfoldable pub get_total_participants_count : Challenge → ℕ
get_total_participants_count m = count_users m.user_answers
