-- ===== src/Payment/Service.antt =====
-- services/commercial-service/internal/service/payment_service.go, with order_policy.go and the
-- `Success` of the answers in internal/parsian/client.go.
use microservice_metarang.Prelude.{
  ℕ, ◌^◌, Bool, true, false, not, ◌&&◌, Option, none, some, if◌then◌else◌,
}
use microservice_metarang.Prelude.Int.{ℤ, pos, ◌+ℤ◌, scale, cut, ltb_ℤ, eqb_ℤ}
use microservice_metarang.Prelude.Action.{
  Result, ok, err, pure, fail_if, or_fail, gets, modify, ◌>>=◌, ◌>>◌,
}
use microservice_metarang.Wallet.Repository.{add_balance}
use microservice_metarang.Payment.Tables.{
  Product, column_of, Order, Deposit, Bank, RequestResponse, Verification, Merchant, regular,
  loan_account, Env, Refusal, order_not_found, rate_not_found, no_answer, request_failed, panics,
  Step,
}
use microservice_metarang.Payment.Repository.{
  create_order, find_order, update_order, create_deposit, update_deposit, create_payment,
  has_first_order, create_first_order, wallet,
}
use microservice_metarang.Payment.Referral.{is_irr, process_referral_commission}

unfoldable pub is_requested : RequestResponse → Bool
is_requested r = eqb_ℤ r.status (pos 0) && ltb_ℤ (pos 0) r.token

unfoldable pub is_verified : Verification → Bool
is_verified v = eqb_ℤ v.status (pos 0) && ltb_ℤ (pos 0) v.reference_id

unfoldable pub get_merchant_id : Product → Merchant
get_merchant_id p = if is_irr p then loan_account else regular

unfoldable pub can_get_bonus : ℕ → Product → Bank → Bool
can_get_bonus user p m = not (has_first_order user p m)

-- `amount * rate`, in units of 10⁻¹⁰.
abbrev pub in_rials : ℤ → ℕ → ℤ
in_rials amount rate = cut (10 ^ 10) (scale rate amount)

abbrev deposit_of : ℕ → ℕ → Product → ℤ → Option ℤ → Deposit
deposit_of id user p amount token = record {
  id = id;
  user_id = user;
  product = p;
  amount = amount;
  status = pos 0;
  token = token;
}

-- The ids of the order and of the transaction. The gateway gets a whole number of rials.
unfoldable pub initiate_payment : Env → ℕ → Product → ℤ → Step (ℕ × ℕ)
initiate_payment env user p amount = do
  id ← gets (λ m. m.next_order_id)
  modify (
      create_order
        (record { id = id; user_id = user; product = p; amount = amount; status = pos 0 }))
  modify (create_deposit (deposit_of env.new_deposit_id user p amount none))
  rate ← or_fail (env.rate p) rate_not_found
  r ←
      or_fail (env.request_payment (get_merchant_id p) id (cut (10 ^ 20) (scale rate amount)))
        no_answer
  fail_if (not (is_requested r)) request_failed
  modify (update_deposit (deposit_of env.new_deposit_id user p amount (some r.token)))
  pure (id, env.new_deposit_id)

-- A call whose error is logged; a panic is not.
abbrev pub log_error : Result Refusal (Unit {0}) × Bank → Result Refusal (Unit {0}) × Bank
log_error (ok a, m) = (ok a, m)
log_error (err panics, m) = (err panics, m)
log_error (err e, m) = (ok tt, m)

unfoldable pub credit_order : Order → Bool → Step (Unit {0})
credit_order o true = do
  wallet (add_balance o.user_id (column_of o.product) (o.amount +ℤ cut 2 o.amount))
  modify (
      create_first_order (record {
        user_id = o.user_id;
        product = o.product;
        amount = o.amount;
        bonus = cut 2 o.amount;
      }))
credit_order o false = wallet (add_balance o.user_id (column_of o.product) o.amount)

-- What a verified payment leads to.
unfoldable pub settle_order : Env → Order → ℕ → Verification → Step (Unit {0})
settle_order env o rate v = do
  modify (update_order o.id v.status)
  modify (
      create_payment (record {
        user_id = o.user_id;
        ref_id = v.reference_id;
        card_pan = v.card_hash;
        amount = in_rials o.amount rate;
        product = o.product;
      }))
  bonus ← gets (can_get_bonus o.user_id o.product)
  credit_order o bonus
  (λ m.
      if is_irr o.product
      then (ok tt, m)
      else log_error (process_referral_commission env o.user_id o m))

abbrev pub conclude : Env → Order → ℕ → Verification → Bool → Step Bool
conclude env o rate v true = do settle_order env o rate v; pure true
conclude env o rate v false = do modify (update_order o.id v.status); pure false

abbrev pub verify_order : Env → Order → ℤ → Step Bool
verify_order env o token = do
  rate ← or_fail (env.rate o.product) rate_not_found
  v ← or_fail (env.verify_payment (get_merchant_id o.product) token) no_answer
  conclude env o rate v (is_verified v)

abbrev pub answer_callback : Env → Order → ℤ → ℤ → Bool → Step Bool
answer_callback env o status token true = verify_order env o token
answer_callback env o status token false = do modify (update_order o.id status); pure false

-- Whether the payment was successful.
unfoldable pub handle_callback : Env → ℕ → ℤ → ℤ → Step Bool
handle_callback env id status token = do
  o ← or_fail (← gets (find_order id)) order_not_found
  answer_callback env o status token (eqb_ℤ status (pos 0))
