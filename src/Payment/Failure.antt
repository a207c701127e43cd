-- ===== src/Payment/Failure.antt =====
-- services/commercial-service/internal/service/payment_service.go: callbacks of payments that were not
-- made.
use microservice_metarang.Prelude.{
  ℕ, Bool, true, false, ◌&&◌, Option, none, some, List, [], ◌∷◌, ◌≡◌, ◌≢◌, refl, inl, inr, arith,
  ◌==◌, Bool-cases, Option-cases,
}
use microservice_metarang.Prelude.Int.{ℤ, pos, eqb_ℤ}
use microservice_metarang.Prelude.Rows.{first, change, is_some}
use microservice_metarang.Prelude.Action.{Result, ok, err}
use microservice_metarang.Payment.Tables.{
  Order, Bank, Verification, Env, Refusal, rate_not_found, no_answer,
}
use microservice_metarang.Payment.Repository.{find_order, update_order}
use microservice_metarang.Payment.Service.{is_verified, get_merchant_id, handle_callback}
use microservice_metarang.Payment.Balances.{with_status}

abbrev pub confirms : Option Verification → Bool
confirms none = false
confirms (some v) = is_verified v

-- The gateway reports success, and confirms it when it is asked.
abbrev pub is_paid : Env → Order → ℤ → ℤ → Bool
is_paid env o status token =
    eqb_ℤ status (pos 0)
    && (is_some (env.rate o.product)
        && confirms (env.verify_payment (get_merchant_id o.product) token))

first-other :
    (j id : ℕ) (s : ℤ) (l : List Order)
    → j ≢ id
    → first (λ p. p.id == j) (change (λ p. p.id == id) (with_status s) l) ≡ first (λ p. p.id == j) l
first-other j id s [] h = refl
first-other j id s (p ∷ l) h = ground (arith, h, first-other j id s l)

-- What stays as it was.
abbrev pub IsUnpaid : ℕ → Bank → Result Refusal Bool × Bank → Type 0
IsUnpaid j m (r, n) =
    (r ≢ ok true)
    × (n.wallets ≡ m.wallets)
    × (n.payments ≡ m.payments)
    × (n.first_orders ≡ m.first_orders)
    × (n.referral_orders ≡ m.referral_orders)
    × (find_order j n ≡ find_order j m)

error-IsUnpaid : (j : ℕ) (e : Refusal) (m : Bank) → IsUnpaid j m (err e, m)
error-IsUnpaid j e m = ((λ h. ground (arith, h)), refl, refl, refl, refl, refl)

marked-IsUnpaid :
    (j id : ℕ) (o : Order) (s : ℤ) (m : Bank)
    → find_order id m ≡ some o
    → j ≢ id
    → IsUnpaid j m (ok false, update_order o.id s m)
unfolding update_order find_order
marked-IsUnpaid j id o s m f h = (
  (λ e. ground (arith, e)),
  refl,
  refl,
  refl,
  refl,
  rw (found_id m.orders f) (first-other j id s m.orders h),
)
  where
    found_id : (l : List Order) → first (λ p. p.id == id) l ≡ some o → o.id ≡ id
    found_id [] h = absurd (ground (arith, h))
    found_id (p ∷ l) h = ground (arith, h, found_id l)

-- A callback that the gateway does not confirm is no success, and changes no wallet, payment, first
-- order or commission, and no other order.
pub handle_callback-IsUnpaid :
    (env : Env) (j id : ℕ) (status token : ℤ) (m : Bank) (o : Order)
    → find_order id m ≡ some o
    → is_paid env o status token ≡ false
    → j ≢ id
    → IsUnpaid j m (handle_callback env id status token m)
unfolding handle_callback
handle_callback-IsUnpaid env j id status token m o f h k =
    rw f (elim (Bool-cases (eqb_ℤ status (pos 0))) [
      | inr s ↦ rw s (marked-IsUnpaid j id o status m f k)
      | inl s ↦ rw s (elim (Option-cases (env.rate o.product)) [
        | inl r ↦ rw r (error-IsUnpaid j rate_not_found m)
        | inr (rate, r) ↦
            rw r (elim (Option-cases (env.verify_payment (get_merchant_id o.product) token)) [
              | inl g ↦ rw g (error-IsUnpaid j no_answer m)
              | inr (v, g) ↦
                  let t : is_verified v ≡ false = ground (arith, h, s, r, g) in
                  rw g (rw t (marked-IsUnpaid j id o v.status m f k))
            ])
      ])
    ])
