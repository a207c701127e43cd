-- ===== src/Social/Prizes.antt =====
-- services/social-service/internal/service/challenge_service.go: the prize of an answer.
use microservice_metarang.Prelude.{
  ℕ, suc, ◌^◌, ◌&&◌, some, [], ◌∷◌, ◌++◌, ◌≡◌, refl, ap, ◌∙◌, inl, inr, ◌==◌, ==_refl,
  if◌then◌else◌, Bool-cases, Option-cases,
}
use microservice_metarang.Prelude.Int.{ℤ, scale}
use microservice_metarang.Prelude.Rows.{first}
use microservice_metarang.Prelude.Keys.{first-change_of}
use microservice_metarang.Prelude.Action.{ok}
use microservice_metarang.Wallet.Row.{Asset, psc, Db, same_asset}
use microservice_metarang.Wallet.Repository
use microservice_metarang.Wallet.Service
use microservice_metarang.Wallet.Client.{handle_add_balance}
use microservice_metarang.Wallet.Balance.{balance, plus, add_balance-balance}
use microservice_metarang.Social.Challenge.{
  Question, Answer, Challenge, Env, QuestionResource, get_question_by_id,
  get_answers_by_question_id, increment_question_participants, create_user_answer, credit_prize,
  record_answer, submit_answer,
}
use microservice_metarang.Social.Answering.{
  submit_answer-Taken, record_answer-rows, question_id, answer_id,
}

counted :
    (question : ℕ) (q : Question) (m : Challenge)
    → get_question_by_id question m ≡ some q
    → first (λ p. p.id == question) (increment_question_participants q.id m).questions
      ≡ some (record q { participants = suc q.participants })
unfolding get_question_by_id increment_question_participants
counted question q m e =
    first-change_of (λ p. p.id == question) (λ p. p.id == q.id) _ m.questions q (λ x. refl) e
    ∙ rw (==_refl q.id) refl

handled_add :
    (user : ℕ) (x : ℤ) (db : Db)
    → (handle_add_balance user (some psc) x db).1 ≡ (Repository.add_balance user (some psc) x db).1
unfolding handle_add_balance Service.add_balance Service.get_wallet Repository.add_balance
handled_add user x db =
    elim (Option-cases
      (Repository.find_by_user_id user (Repository.add_balance user (some psc) x db).1)) [
        | inl e ↦ rw e refl
        | inr (w, e) ↦ rw e refl
      ]

balance-handled :
    (user user' : ℕ) (b : Asset) (x : ℤ) (db : Db)
    → balance user' b (handle_add_balance user (some psc) x db).1 ≡ (
        if user == user' && same_asset psc b
        then plus x (balance user' b db)
        else balance user' b db)
balance-handled user user' b x db =
    ap (balance user' b) (handled_add user x db) ∙ (add_balance-balance user user' psc b x db).1

balance-record_answer :
    (env : Env) (user : ℕ) (q : Question) (a : Answer) (user' : ℕ) (b : Asset) (m : Challenge)
    → balance user' b (record_answer env user q a m).commercial ≡ (
        if (a.is_correct && env.has_client) && (user == user' && same_asset psc b)
        then plus (scale (10 ^ 10) q.prize) (balance user' b m.commercial)
        else balance user' b m.commercial)
unfolding record_answer create_user_answer increment_question_participants credit_prize
balance-record_answer env user q a user' b m = elim (Bool-cases a.is_correct) [
  | inr e ↦ rw e refl
  | inl e ↦ rw e (elim (Bool-cases env.has_client) [
    | inl f ↦ rw f (balance-handled user user' b (scale (10 ^ 10) q.prize) m.commercial)
    | inr f ↦ rw f refl
  ])
]

-- An answer that is taken adds its row and one participant. A right one raises the PSC of the user by
-- the prize of the question, if there is a client and the user has a wallet; no other balance changes.
pub submit_answer-balance :
    (env : Env) (user question answer user' : ℕ) (b : Asset) (m : Challenge) (r : QuestionResource)
    → (submit_answer env user question answer m).0 ≡ ok r
    → let n = (submit_answer env user question answer m).1 in
      (q : Question) × (a : Answer) × (get_question_by_id question m ≡ some q)
      × (first (λ a. a.id == answer) (get_answers_by_question_id question m) ≡ some a)
      × (get_question_by_id question n ≡ some (record q { participants = suc q.participants }))
      × (n.user_answers
          ≡ m.user_answers
            ++ record { user_id = user; question_id = question; answer_id = answer } ∷ [])
      × (balance user' b n.commercial ≡ (
          if (a.is_correct && env.has_client) && (user == user' && same_asset psc b)
          then plus (scale (10 ^ 10) q.prize) (balance user' b m.commercial)
          else balance user' b m.commercial))
submit_answer-balance env user question answer user' b m r h =
    let t = submit_answer-Taken env user question answer m r h in
    let e = record_answer-rows env user t.q t.a m in
    rw t.outcome (
      t.q,
      t.a,
      t.asked,
      t.given,
      unfold get_question_by_id in
          ap (first (λ p. p.id == question)) e.2 ∙ counted question t.q m t.asked,
      rw (e.0, question_id env user question answer m t, answer_id env user question answer m t)
          refl,
      balance-record_answer env user t.q t.a user' b m,
    )
