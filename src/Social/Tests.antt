-- ===== src/Social/Tests.antt =====
-- Runs of the social service, and the theorems at inputs that meet their hypotheses.
use microservice_metarang.Prelude.{
  suc, ◌*◌, ◌/◌, ◌^◌, ◌≤◌, true, false, ◌&&◌, some, [], ◌∷◌, ◌++◌, ◌≡◌, refl, arith, ◌==◌,
  if◌then◌else◌,
}
use native.Mathlib.Nat.{div-mul-le_self}
use microservice_metarang.Prelude.Int.{pos, scale}
use microservice_metarang.Prelude.Rows.{first}
use microservice_metarang.Prelude.Action.{ok, err}
use microservice_metarang.Wallet.Row.{psc, same_asset}
use microservice_metarang.Wallet.Balance.{balance, plus}
use microservice_metarang.Social.Challenge.{
  Question, Answer, Challenge, Env, Refusal, QuestionResource, get_question_by_id,
  get_answers_by_question_id, increment_question_participants, create_user_answer,
  has_user_answered_correctly, get_answer_vote_count, get_question_total_answers, credit_prize,
  record_answer, resource, submit_answer,
}
use microservice_metarang.Social.Answering.{ask, submit, serve_all, answered_once}
use microservice_metarang.Social.Prizes.{submit_answer-balance}
use microservice_metarang.Social.Votes.{
  IsConsistent, total_percentage, total_percentage-submit_answer,
}
use microservice_metarang.Social.Follows.{
  Follows, exists, create, follow, unfollow, remove_follower,
}
use microservice_metarang.Social.Following.{
  IsSimple, follows, unfollows, removes, unfollow-follow, serve_all-IsSimple,
}
use microservice_metarang.Social.Following

-- The exact percentage, cut off.
abbrev env : Env
env = record { has_client = true; random = 0; percentage = λ v t. v * 100 / t }

abbrev quiz : Challenge
quiz = record {
  commercial = record {
    wallets =
        record {
          id = 1;
          user_id = 7;
          psc_amount = pos 2;
          irr_amount = pos 0;
          red_amount = pos 0;
          blue_amount = pos 0;
          yellow_amount = pos 0;
          satisfaction_amount = pos 0;
          effect_amount = pos 0;
        }
        ∷ [];
    locked_assets = [];
  };
  questions = record { id = 5; prize = pos 3; views = 0; participants = 1 } ∷ [];
  answers =
      record { id = 1; question_id = 5; is_correct = true }
      ∷ record { id = 2; question_id = 5; is_correct = false }
      ∷ [];
  user_answers = record { user_id = 9; question_id = 5; answer_id = 2 } ∷ [];
}

abbrev half : QuestionResource
half = record {
  question = record { id = 5; prize = pos 3; views = 0; participants = 2 };
  answers =
      record { id = 1; is_correct = true; vote_percentage = 50 }
      ∷ record { id = 2; is_correct = false; vote_percentage = 50 }
      ∷ [];
}

answered_right : (submit_answer env 7 5 1 quiz).0 ≡ ok half
unfolding submit_answer get_question_by_id get_answers_by_question_id has_user_answered_correctly
    record_answer create_user_answer increment_question_participants credit_prize resource
    get_answer_vote_count get_question_total_answers
answered_right = refl

answered_once_example :
    let n = serve_all ((env, submit 7 5 2) ∷ (env, ask 8) ∷ []) (submit_answer env 7 5 1 quiz).1 in
    (e : Refusal) × (submit_answer env 7 5 1 n ≡ (err e, n))
answered_once_example =
    answered_once env env 7 5 1 1 ((env, submit 7 5 2) ∷ (env, ask 8) ∷ []) quiz half answered_right
      refl

submit_answer-balance_example :
    let n = (submit_answer env 7 5 1 quiz).1 in
    (q : Question) × (a : Answer) × (get_question_by_id 5 quiz ≡ some q)
    × (first (λ a. a.id == 1) (get_answers_by_question_id 5 quiz) ≡ some a)
    × (get_question_by_id 5 n ≡ some (record q { participants = suc q.participants }))
    × (n.user_answers
        ≡ quiz.user_answers ++ record { user_id = 7; question_id = 5; answer_id = 1 } ∷ [])
    × (balance 7 psc n.commercial ≡ (
        if (a.is_correct && env.has_client) && (7 == 7 && same_asset psc psc)
        then plus (scale (10 ^ 10) q.prize) (balance 7 psc quiz.commercial)
        else balance 7 psc quiz.commercial))
submit_answer-balance_example = submit_answer-balance env 7 5 1 7 psc quiz half answered_right

quiz-IsConsistent : IsConsistent quiz
quiz-IsConsistent = record {
  distinct = ((omega arith, tt), (tt, tt));
  rows = ((_, refl, refl), tt);
}

total_percentage-submit_answer_example : total_percentage half.answers ≤ 100
total_percentage-submit_answer_example =
    total_percentage-submit_answer env 7 5 1 [] quiz half (λ v t. div-mul-le_self (v * 100) t)
      quiz-IsConsistent answered_right

abbrev one_follow : Follows
one_follow = record { follower_id = 1; following_id = 2; created_at = 10 } ∷ []

one_follow-IsSimple : IsSimple one_follow
one_follow-IsSimple = record { others = (omega arith, tt); single = λ a b. ground arith }

serve_all-IsSimple_example : IsSimple (
    Following.serve_all
      ((20, follows 2 1) ∷ (30, follows 1 2) ∷ (40, follows 3 3) ∷ (50, removes 2 1) ∷ [])
      one_follow)
serve_all-IsSimple_example =
    serve_all-IsSimple
      ((20, follows 2 1) ∷ (30, follows 1 2) ∷ (40, follows 3 3) ∷ (50, removes 2 1) ∷ [])
      one_follow one_follow-IsSimple

followed : (follow 20 2 1 one_follow).0 ≡ ok tt
unfolding follow exists create
followed = refl

unfollow-follow_example :
    let n = (follow 20 2 1 one_follow).1 in
    (exists 2 1 n ≡ true)
    × ((unfollow 2 1 n).1 ≡ one_follow)
    × ((remove_follower 1 2 n).1 ≡ one_follow)
unfollow-follow_example = unfollow-follow 20 2 1 one_follow followed
