-- ===== src/Payment/Balances.antt =====
-- services/commercial-service/internal/service/payment_service.go: the balances after callbacks.
use microservice_metarang.Prelude.{
  ℕ, Bool, true, false, Option, none, some, List, [], ◌∷◌, ◌++◌, ◌≡◌, refl, ◌∙◌, ap, inl, inr,
  arith, ◌==◌, if◌then◌else◌, Bool-cases, ltb,
}
use microservice_metarang.Prelude.Int.{ℤ, pos, cut}
use microservice_metarang.Prelude.Rows.{first, change, count}
use microservice_metarang.Wallet.Row.{Asset, psc}
use microservice_metarang.Wallet.Balance.{balance, add_balance-balance}
use microservice_metarang.Payment.Tables.{asset, Order, Bank, FirstOrder, Verification, Env}
use microservice_metarang.Payment.Repository.{
  find_order, update_order, create_payment, has_first_order, is_first, create_first_order,
  create_referral_order, get_total_referred_amount,
}
use microservice_metarang.Payment.Service.{
  is_verified, get_merchant_id, can_get_bonus, handle_callback,
}
use microservice_metarang.Payment.Commission.{added, commission, paid}
use microservice_metarang.Payment.Credits.{
  reward, credited, recorded, settled, handle_callback-settled,
}

abbrev pub shared : Option (ℕ × ℤ) → ℕ → Asset → Option ℤ → Option ℤ
shared none user b held = held
shared (some (referrer, x)) user b held = added referrer psc x user b held

paid-balance :
    (payer : ℕ) (c : Option (ℕ × ℤ)) (user : ℕ) (b : Asset) (m : Bank)
    → balance user b (paid payer c m).wallets ≡ shared c user b (balance user b m.wallets)
unfolding create_referral_order
paid-balance payer none user b m = refl
paid-balance payer (some (referrer, x)) user b m =
    (add_balance-balance referrer user psc b x m.wallets).1

credited-balance :
    (o : Order) (a : Asset) (bonus : Bool) (user : ℕ) (b : Asset) (rate : ℕ) (v : Verification)
    (m : Bank)
    → balance user b (credited o a bonus (recorded o rate v m)).wallets
      ≡ added o.user_id a (reward o bonus) user b (balance user b m.wallets)
unfolding create_first_order create_payment update_order
credited-balance o a true user b rate v m =
    (add_balance-balance o.user_id user a b (reward o true) m.wallets).1
credited-balance o a false user b rate v m =
    (add_balance-balance o.user_id user a b (reward o false) m.wallets).1

commission-credited :
    (env : Env) (o : Order) (a : Asset) (bonus : Bool) (rate : ℕ) (v : Verification) (m : Bank)
    → commission env o (credited o a bonus (recorded o rate v m)) ≡ commission env o m
unfolding commission get_total_referred_amount create_first_order create_payment update_order
commission-credited env o a true rate v m = refl
commission-credited env o a false rate v m = refl

settled-balance :
    (env : Env) (o : Order) (a : Asset) (rate : ℕ) (v : Verification) (user : ℕ) (b : Asset)
    (m : Bank)
    → balance user b (settled env o a rate v m).wallets
      ≡ shared (commission env o m) user b (
          added o.user_id a
            (reward o (can_get_bonus o.user_id o.product m))
            user
            b
            (balance user b m.wallets))
settled-balance env o a rate v user b m =
    let bonus = can_get_bonus o.user_id o.product m in
    let n = credited o a bonus (recorded o rate v m) in
    paid-balance o.user_id (commission env o n) user b n
    ∙ rw (commission-credited env o a bonus rate v m, credited-balance o a bonus user b rate v m)
        refl

-- The callback of a payment that the gateway verifies raises the balance of the order's user by the
-- amount of the order, and by half of it more if the user has no first order of the asset yet,
-- whichever asset it is, irr too; then it raises the PSC balance of the referrer by the commission, if
-- there is one. No other balance changes.
pub handle_callback_credits :
    (env : Env) (id : ℕ) (token : ℤ) (m : Bank) (o : Order) (a : Asset) (rate : ℕ)
    (v : Verification)
    → find_order id m ≡ some o
    → o.product ≡ asset a
    → env.rate o.product ≡ some rate
    → env.verify_payment (get_merchant_id o.product) token ≡ some v
    → is_verified v ≡ true
    → (user : ℕ) (b : Asset)
    → balance user b (handle_callback env id (pos 0) token m).1.wallets
      ≡ shared (commission env o m) user b (
          added o.user_id a
            (reward o (can_get_bonus o.user_id o.product m))
            user
            b
            (balance user b m.wallets))
handle_callback_credits env id token m o a rate v f e r g t user b =
    rw (handle_callback-settled env id token m o a rate v f e r g t)
      (settled-balance env o a rate v user b m)

abbrev pub with_status : ℤ → Order → Order
with_status s o = record o { status = s }

first-updated :
    (id : ℕ) (s : ℤ) (l : List Order) (o : Order)
    → first (λ p. p.id == id) l ≡ some o
    → (o.id ≡ id)
      × (first (λ p. p.id == id) (change (λ p. p.id == o.id) (with_status s) l)
          ≡ some (with_status s o))
first-updated id s [] o h = absurd (ground (arith, h))
first-updated id s (p ∷ l) o h =
    (ground (arith, h, first-updated id s l o), ground (arith, h, first-updated id s l o))

-- The callback writes the status of the order, and at most one first order.
paid-kept :
    (payer : ℕ) (c : Option (ℕ × ℤ)) (m : Bank)
    → ((paid payer c m).orders ≡ m.orders) × ((paid payer c m).first_orders ≡ m.first_orders)
unfolding create_referral_order
paid-kept payer none m = (refl, refl)
paid-kept payer (some (referrer, x)) m = (refl, refl)

abbrev pub first_row : Order → Bool → List FirstOrder
first_row o true =
    record { user_id = o.user_id; product = o.product; amount = o.amount; bonus = cut 2 o.amount }
    ∷ []
first_row o false = []

credited-kept :
    (o : Order) (a : Asset) (bonus : Bool) (rate : ℕ) (v : Verification) (m : Bank)
    → ((credited o a bonus (recorded o rate v m)).orders
        ≡ change (λ p. p.id == o.id) (with_status v.status) m.orders)
      × ((credited o a bonus (recorded o rate v m)).first_orders
          ≡ (if bonus then m.first_orders ++ first_row o true else m.first_orders))
unfolding create_first_order create_payment update_order
credited-kept o a true rate v m = (refl, refl)
credited-kept o a false rate v m = (refl, refl)

pub settled-orders :
    (env : Env) (o : Order) (a : Asset) (rate : ℕ) (v : Verification) (m : Bank)
    → (settled env o a rate v m).orders ≡ change (λ p. p.id == o.id) (with_status v.status) m.orders
settled-orders env o a rate v m =
    (paid-kept o.user_id (commission env o _) _).0
    ∙ (credited-kept o a (can_get_bonus o.user_id o.product m) rate v m).0

pub settled-first :
    (env : Env) (o : Order) (a : Asset) (rate : ℕ) (v : Verification) (m : Bank)
    → (settled env o a rate v m).first_orders ≡ (
        if can_get_bonus o.user_id o.product m
        then m.first_orders ++ first_row o true
        else m.first_orders)
settled-first env o a rate v m =
    (paid-kept o.user_id (commission env o _) _).1
    ∙ (credited-kept o a (can_get_bonus o.user_id o.product m) rate v m).1

settled-find :
    (env : Env) (o : Order) (a : Asset) (rate : ℕ) (v : Verification) (id : ℕ) (m : Bank)
    → find_order id m ≡ some o
    → find_order id (settled env o a rate v m) ≡ some (with_status v.status o)
unfolding find_order
settled-find env o a rate v id m h =
    ap (first (λ p. p.id == id)) (settled-orders env o a rate v m)
    ∙ (first-updated id v.status m.orders o h).1

count-first :
    (o : Order) (l : List FirstOrder)
    → ltb 0 (count (is_first o.user_id o.product) (l ++ first_row o true)) ≡ true
count-first o [] = ground arith
count-first o (f ∷ l) = ground (arith, count-first o l)

pub settled-bonus :
    (env : Env) (o : Order) (a : Asset) (rate : ℕ) (v : Verification) (m : Bank)
    → can_get_bonus o.user_id o.product (settled env o a rate v m) ≡ false
unfolding can_get_bonus has_first_order
settled-bonus env o a rate v m =
    rw (settled-first env o a rate v m) (elim (Bool-cases (can_get_bonus o.user_id o.product m)) [
      | inl t ↦ rw t (rw (count-first o m.first_orders) refl)
      | inr t ↦ rw t t
    ])

-- If an order has been credited once, a further callback for it that the gateway verifies, with
-- whatever token, credits its amount once more, though without the bonus.
pub handle_callback_again :
    (env : Env) (id : ℕ) (token : ℤ) (m : Bank) (o : Order) (a : Asset) (rate : ℕ)
    (v : Verification)
    → find_order id m ≡ some o
    → o.product ≡ asset a
    → env.rate o.product ≡ some rate
    → env.verify_payment (get_merchant_id o.product) token ≡ some v
    → is_verified v ≡ true
    → (later : Env) (new_token : ℤ) (new_rate : ℕ) (w : Verification)
    → later.rate o.product ≡ some new_rate
    → later.verify_payment (get_merchant_id o.product) new_token ≡ some w
    → is_verified w ≡ true
    → (user : ℕ) (b : Asset)
    → let n = (handle_callback env id (pos 0) token m).1 in
      balance user b (handle_callback later id (pos 0) new_token n).1.wallets
      ≡ shared
          (commission later o n)
          user
          b
          (added o.user_id a o.amount user b (balance user b n.wallets))
unfolding commission
handle_callback_again env id token m o a rate v f e r g t later new_token new_rate w r2 g2 t2 user
      b =
    rw (handle_callback-settled env id token m o a rate v f e r g t) (
      let n = settled env o a rate v m in
      handle_callback_credits later id new_token n (with_status v.status o) a new_rate w
        (settled-find env o a rate v id m f) e r2 g2 t2 user b
      ∙ rw (settled-bonus env o a rate v m) refl)
