-- ===== src/Payment/Bonus.antt =====
-- services/commercial-service/internal/service: the bonus of first orders under sequences of calls.
use microservice_metarang.Prelude.{
  ℕ, ◌^◌, Bool, true, false, List, [], ◌∷◌, ◌++◌, ◌≡◌, ◌≤◌, refl, ◌∙◌, ap, inl, inr, ◌⊎◌, arith,
  ◌==◌, Bool-cases, Option-cases,
}
use microservice_metarang.Prelude.Int.{ℤ, pos, cut, scale, eqb_ℤ}
use microservice_metarang.Prelude.Rows.{count, count-append}
use microservice_metarang.Prelude.Action.{Result, err, bind_err}
use microservice_metarang.Wallet.Row.{Asset}
use microservice_metarang.Wallet.Repository.{add_balance}
use microservice_metarang.Payment.Tables.{
  Product, asset, other, Order, Bank, FirstOrder, Verification, Env, Refusal, wallet_failed,
  same_product,
}
use microservice_metarang.Payment.Repository.{
  find_order, update_order, create_order, create_deposit, update_deposit, create_payment,
  has_first_order, is_first,
}
use microservice_metarang.Payment.Service.{
  is_verified, get_merchant_id, can_get_bonus, handle_callback, initiate_payment, credit_order,
  settle_order, is_requested,
}
use microservice_metarang.Payment.Credits.{recorded, commit, settle_order-settled, conclude-same}
use microservice_metarang.Payment.Balances.{first_row, settled-first}

Product-cases : (p : Product) → ((a : Asset) × (p ≡ asset a)) ⊎ ((n : ℕ) × (p ≡ other n))
Product-cases (asset a) = inl (a, refl)
Product-cases (other n) = inr (n, refl)

abbrev pub Adds : Bank → Bank → Type 0
Adds m n =
    (n.first_orders ≡ m.first_orders)
    ⊎ ((o : Order) × (can_get_bonus o.user_id o.product m ≡ true)
        × (n.first_orders ≡ m.first_orders ++ first_row o true))

credit_order-other :
    (o : Order) (n : ℕ) (bonus : Bool) (m : Bank)
    → o.product ≡ other n
    → credit_order o bonus m ≡ (err wallet_failed, m)
unfolding credit_order add_balance
credit_order-other o n true m e = rw e refl
credit_order-other o n false m e = rw e refl

settle_order-other :
    (env : Env) (o : Order) (n rate : ℕ) (v : Verification) (m : Bank)
    → o.product ≡ other n
    → (settle_order env o rate v m).1 ≡ recorded o rate v m
unfolding settle_order
settle_order-other env o n rate v m e =
    let r = recorded o rate v m in
    let bonus = can_get_bonus o.user_id o.product r in
    ap (λ (p : Result Refusal (Unit {0}) × Bank). p.1)
      (bind_err (credit_order o bonus) (λ x. commit env o) r r wallet_failed
        (credit_order-other o n bonus r e))

settle_order-Adds :
    (env : Env) (o : Order) (rate : ℕ) (v : Verification) (m : Bank)
    → Adds m (settle_order env o rate v m).1
unfolding create_payment update_order
settle_order-Adds env o rate v m = elim (Product-cases o.product) [
  | inl (a, e) ↦
      rw (settle_order-settled env o a rate v m e)
        (elim (Bool-cases (can_get_bonus o.user_id o.product m)) [
          | inl t ↦ inr (o, t, settled-first env o a rate v m ∙ rw t refl)
          | inr t ↦ inl (settled-first env o a rate v m ∙ rw t refl)
        ])
  | inr (n, e) ↦ rw (settle_order-other env o n rate v m e) (inl refl)
]

callback-Adds :
    (env : Env) (id : ℕ) (status token : ℤ) (m : Bank)
    → Adds m (handle_callback env id status token m).1
unfolding handle_callback update_order
callback-Adds env id status token m = elim (Option-cases (find_order id m)) [
  | inl e ↦ rw e (inl refl)
  | inr (o, e) ↦ rw e (elim (Bool-cases (eqb_ℤ status (pos 0))) [
    | inr s ↦ rw s (inl refl)
    | inl s ↦ rw s (elim (Option-cases (env.rate o.product)) [
      | inl r ↦ rw r (inl refl)
      | inr (rate, r) ↦
          rw r (elim (Option-cases (env.verify_payment (get_merchant_id o.product) token)) [
            | inl g ↦ rw g (inl refl)
            | inr (v, g) ↦ rw g (elim (Bool-cases (is_verified v)) [
              | inl t ↦ rw t (rw (conclude-same env o rate v m) (settle_order-Adds env o rate v m))
              | inr t ↦ rw t (inl refl)
            ])
          ])
    ])
  ])
]

initiate-Adds :
    (env : Env) (user : ℕ) (p : Product) (amount : ℤ) (m : Bank)
    → Adds m (initiate_payment env user p amount m).1
unfolding initiate_payment create_order create_deposit update_deposit
initiate-Adds env user p amount m = elim (Option-cases (env.rate p)) [
  | inl e ↦ rw e (inl refl)
  | inr (rate, e) ↦
      rw e
        (elim (Option-cases (
          env.request_payment (get_merchant_id p) m.next_order_id
            (cut (10 ^ 20) (scale rate amount)))) [
              | inl g ↦ rw g (inl refl)
              | inr (r, g) ↦ rw g (elim (Bool-cases (is_requested r)) [
                | inl t ↦ rw t (inl refl)
                | inr t ↦ rw t (inl refl)
              ])
            ])
]

-- A call of the service; each one meets surroundings of its own.
pub data BankCall : Type 0 where
  initiate : ℕ → Product → ℤ → BankCall
  callback : ℕ → ℤ → ℤ → BankCall

abbrev pub serve : Env → BankCall → Bank → Bank
serve env (initiate user p amount) m = (initiate_payment env user p amount m).1
serve env (callback id status token) m = (handle_callback env id status token m).1

abbrev pub serve_all : List (Env × BankCall) → Bank → Bank
serve_all [] m = m
serve_all ((env, c) ∷ cs) m = serve_all cs (serve env c m)

-- The number of bonuses that a user has got for a product.
abbrev pub bonuses : ℕ → Product → Bank → ℕ
bonuses user p m = count (is_first user p) m.first_orders

pub record IsSingle (m : Bank) : Type 0 where
  pub single : (user : ℕ) (p : Product) → bonuses user p m ≤ 1

same_code :
    (user user' : ℕ) (p q : Product) (l : List FirstOrder)
    → (user == user') ≡ true
    → same_product p q ≡ true
    → count (is_first user p) l ≡ count (is_first user' q) l
same_code user user' p q [] h k = refl
same_code user user' p q (f ∷ l) h k = ground (arith, h, k, same_code user user' p q l h k)

Adds-IsSingle : (m n : Bank) → IsSingle m → Adds m n → IsSingle n
unfolding can_get_bonus has_first_order
Adds-IsSingle m n h (inl e) = record { single = λ user p. rw e (h.single user p) }
Adds-IsSingle m n h (inr (o, t, e)) = record {
  single = λ user p. rw e (
      rw (count-append (is_first user p) m.first_orders _) (elim (Bool-cases (o.user_id == user)) [
        | inr u ↦ rw u (ground (arith, h.single user p))
        | inl u ↦ elim (Bool-cases (same_product o.product p)) [
          | inr k ↦ ground (arith, u, k, h.single user p)
          | inl k ↦ ground (arith, u, k, t, same_code o.user_id user o.product p m.first_orders)
        ]
      ]));
}

pub serve-Adds : (env : Env) (c : BankCall) (m : Bank) → Adds m (serve env c m)
serve-Adds env (initiate user p amount) m = initiate-Adds env user p amount m
serve-Adds env (callback id status token) m = callback-Adds env id status token m

-- Payments and callbacks, in any order and with any answers of the gateway, give a user at most one
-- bonus for each asset.
pub serve_all-IsSingle :
    (cs : List (Env × BankCall)) (m : Bank) → IsSingle m → IsSingle (serve_all cs m)
serve_all-IsSingle [] m h = h
serve_all-IsSingle ((env, c) ∷ cs) m h =
    serve_all-IsSingle cs (serve env c m) (Adds-IsSingle m (serve env c m) h (serve-Adds env c m))
