-- ===== src/Payment/Credits.antt =====
-- services/commercial-service/internal/service/payment_service.go: what the callback of the gateway
-- does to the balances.
use microservice_metarang.Prelude.{
  ℕ, Bool, true, false, some, ◌≡◌, refl, ◌∙◌, ap, inl, inr, arith, if◌then◌else◌, Bool-cases,
}
use microservice_metarang.Prelude.Int.{ℤ, pos, ◌+ℤ◌, cut}
use microservice_metarang.Prelude.Action.{Result, ok, err, bind_ok, pure, ◌>>◌}
use microservice_metarang.Wallet.Row.{Asset}
use microservice_metarang.Wallet.Repository.{add_balance}
use microservice_metarang.Payment.Tables.{asset, Order, Bank, Verification, Env, Refusal, Step}
use microservice_metarang.Payment.Repository.{
  find_order, update_order, create_payment, has_first_order, create_first_order,
}
use microservice_metarang.Payment.Referral.{is_irr, process_referral_commission}
use microservice_metarang.Payment.Service.{
  is_verified, get_merchant_id, can_get_bonus, in_rials, log_error, credit_order, settle_order,
  conclude, handle_callback,
}
use microservice_metarang.Payment.Commission.{commission, paid, process_referral-paid}

-- The amount of the order, and half of it on top for the first order of its kind.
abbrev pub reward : Order → Bool → ℤ
reward o true = o.amount +ℤ cut 2 o.amount
reward o false = o.amount

abbrev pub first_of : Order → Bool → Bank → Bank
first_of o true m =
    create_first_order
      (record {
        user_id = o.user_id;
        product = o.product;
        amount = o.amount;
        bonus = cut 2 o.amount;
      })
      m
first_of o false m = m

-- The tables after the order's amount is credited.
abbrev pub credited : Order → Asset → Bool → Bank → Bank
credited o a bonus m =
    first_of o bonus
      (record m { wallets = (add_balance o.user_id (some a) (reward o bonus) m.wallets).1 })

credit_order-credited :
    (o : Order) (a : Asset) (bonus : Bool) (m : Bank)
    → o.product ≡ asset a
    → credit_order o bonus m ≡ (ok tt, credited o a bonus m)
unfolding credit_order add_balance
credit_order-credited o a true m e = rw e refl
credit_order-credited o a false m e = rw e refl

-- The payment's row and the status of the order.
abbrev pub recorded : Order → ℕ → Verification → Bank → Bank
recorded o rate v m =
    create_payment
      (record {
        user_id = o.user_id;
        ref_id = v.reference_id;
        card_pan = v.card_hash;
        amount = in_rials o.amount rate;
        product = o.product;
      })
      (update_order o.id v.status m)

abbrev pub commit : Env → Order → Step (Unit {0})
commit env o m =
    if is_irr o.product
    then (ok tt, m)
    else log_error (process_referral_commission env o.user_id o m)

log_error-same : (p : Result Refusal (Unit {0}) × Bank) → (log_error p).1 ≡ p.1
log_error-same (ok a, m) = refl
log_error-same (err e, m) = ground arith

commit-paid :
    (env : Env) (o : Order) (m : Bank) → (commit env o m).1 ≡ paid o.user_id (commission env o m) m
unfolding commission
commit-paid env o m = elim (Bool-cases (is_irr o.product)) [
  | inl t ↦ rw t refl
  | inr t ↦ rw t (
      log_error-same (process_referral_commission env o.user_id o m)
      ∙ process_referral-paid env o m
      ∙ rw t refl)
]

-- All that a verified payment writes, for an order of an asset that is a column.
abbrev pub settled : Env → Order → Asset → ℕ → Verification → Bank → Bank
settled env o a rate v m =
    let n = credited o a (can_get_bonus o.user_id o.product m) (recorded o rate v m) in
    paid o.user_id (commission env o n) n

bonus-recorded :
    (o : Order) (rate : ℕ) (v : Verification) (m : Bank)
    → can_get_bonus o.user_id o.product (recorded o rate v m) ≡ can_get_bonus o.user_id o.product m
unfolding can_get_bonus has_first_order create_payment update_order
bonus-recorded o rate v m = refl

pub settle_order-settled :
    (env : Env) (o : Order) (a : Asset) (rate : ℕ) (v : Verification) (m : Bank)
    → o.product ≡ asset a
    → (settle_order env o rate v m).1 ≡ settled env o a rate v m
unfolding settle_order
settle_order-settled env o a rate v m e =
    let r = recorded o rate v m in
    let bonus = can_get_bonus o.user_id o.product r in
    ap (λ (p : Result Refusal (Unit {0}) × Bank). p.1)
      (bind_ok (credit_order o bonus) (λ x. commit env o) r (credited o a bonus r) tt
        (credit_order-credited o a bonus r e))
    ∙ commit-paid env o (credited o a bonus r)
    ∙ ap (λ (b : Bool). paid o.user_id (commission env o (credited o a b r)) (credited o a b r))
        (bonus-recorded o rate v m)

pub conclude-same :
    (env : Env) (o : Order) (rate : ℕ) (v : Verification) (m : Bank)
    → (conclude env o rate v true m).1 ≡ (settle_order env o rate v m).1
conclude-same env o rate v m = after (settle_order env o rate v m)
  where
    after : (p : Result Refusal (Unit {0}) × Bank) → (((λ (n : Bank). p) >> pure true) m).1 ≡ p.1
    after (ok x, n) = refl
    after (err e, n) = refl

-- The tables after the callback of a payment that the gateway verifies.
pub handle_callback-settled :
    (env : Env) (id : ℕ) (token : ℤ) (m : Bank) (o : Order) (a : Asset) (rate : ℕ)
    (v : Verification)
    → find_order id m ≡ some o
    → o.product ≡ asset a
    → env.rate o.product ≡ some rate
    → env.verify_payment (get_merchant_id o.product) token ≡ some v
    → is_verified v ≡ true
    → (handle_callback env id (pos 0) token m).1 ≡ settled env o a rate v m
unfolding handle_callback
handle_callback-settled env id token m o a rate v f e r g t =
    rw f
      (rw r (rw g (rw t (conclude-same env o rate v m ∙ settle_order-settled env o a rate v m e))))
