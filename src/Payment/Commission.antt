-- ===== src/Payment/Commission.antt =====
-- services/commercial-service/internal/service/referral_service.go: the commission of a referrer as a
-- function of the order and the history.
use microservice_metarang.Prelude.{
  ℕ, ◌*◌, false, ◌&&◌, Option, none, some, ◌≡◌, refl, ◌∙◌, ap, inl, inr, arith, ◌==◌, if◌then◌else◌,
  Bool-cases, Option-cases,
}
use microservice_metarang.Prelude.Int.{ℤ, scale, cut}
use microservice_metarang.Prelude.Action.{Result, ok, err, bind_ok, bind_err, modify, ◌>>◌}
use microservice_metarang.Wallet.Row.{Asset, psc, same_asset}
use microservice_metarang.Wallet.Repository.{add_balance}
use microservice_metarang.Wallet.Balance.{plus}
use microservice_metarang.Payment.Tables.{
  asset, Order, Bank, Env, Refusal, rate_not_found, panics, Step,
}
use microservice_metarang.Payment.Repository.{
  create_referral_order, get_total_referred_amount, wallet,
}
use microservice_metarang.Payment.Referral.{
  is_irr, is_color, commission_of, is_limit_reached, pay_commission, refer,
  process_referral_commission,
}

-- A balance after an addition to one balance.
abbrev pub added : ℕ → Asset → ℤ → ℕ → Asset → Option ℤ → Option ℤ
added user a x user' b held = if user == user' && same_asset a b then plus x held else held

-- The amount of the commission, if it can be worked out.
abbrev pub color_share : Order → ℕ → Option ℕ → Option ℤ
color_share o psc_rate none = none
color_share o psc_rate (some color_rate) =
    if psc_rate == 0 then none else some (cut (psc_rate * 2) (scale color_rate o.amount))

abbrev pub share : Env → Order → ℕ → Option ℤ
share env o psc_rate =
    if is_color o.product
    then color_share o psc_rate (env.rate o.product)
    else some (cut 2 o.amount)

abbrev pub share_below : Env → Order → ℕ → ℤ → Option ℕ → Option ℤ
share_below env o referrer total none = none
share_below env o referrer total (some psc_rate) =
    if is_limit_reached psc_rate total (env.referral_limit referrer)
    then none
    else share env o psc_rate

abbrev pub payout : ℕ → Option ℤ → Option (ℕ × ℤ)
payout referrer none = none
payout referrer (some x) = some (referrer, x)

abbrev pub payout_to : Env → Order → Bank → Option ℕ → Option (ℕ × ℤ)
payout_to env o m none = none
payout_to env o m (some referrer) =
    payout referrer
      (share_below env o referrer (get_total_referred_amount referrer m) (env.rate (asset psc)))

-- Who gets how much for an order: the referrer of its user, below the limit, if all rates are known.
unfoldable pub commission : Env → Order → Bank → Option (ℕ × ℤ)
commission env o m = if is_irr o.product then none else payout_to env o m (env.referrer o.user_id)

-- The tables after a commission.
abbrev pub paid : ℕ → Option (ℕ × ℤ) → Bank → Bank
paid user none m = m
paid user (some (referrer, x)) m =
    create_referral_order (record { user_id = referrer; referral_id = user; amount = x })
      (record m { wallets = (add_balance referrer (some psc) x m.wallets).1 })

commission_of-share :
    (env : Env) (o : Order) (psc_rate : ℕ) (x : ℤ) (m : Bank)
    → share env o psc_rate ≡ some x
    → commission_of env o psc_rate m ≡ (ok x, m)
unfolding commission_of
commission_of-share env o psc_rate x m h = elim (Bool-cases (is_color o.product)) [
  | inl c ↦ rw c (elim (Option-cases (env.rate o.product)) [
    | inl e ↦ absurd (ground (arith, h, c, e))
    | inr (r, e) ↦ elim (Bool-cases (psc_rate == 0)) [
      | inl z ↦ absurd (ground (arith, h, c, e, z))
      | inr z ↦ rw e (rw z (ground (arith, h, c, e, z)))
    ]
  ])
  | inr c ↦ rw c (ground (arith, h, c))
]

commission_of-none :
    (env : Env) (o : Order) (psc_rate : ℕ) (m : Bank)
    → share env o psc_rate ≡ none
    → (e : Refusal) × (commission_of env o psc_rate m ≡ (err e, m))
unfolding commission_of
commission_of-none env o psc_rate m h = elim (Bool-cases (is_color o.product)) [
  | inl c ↦ rw c (elim (Option-cases (env.rate o.product)) [
    | inl e ↦ (rate_not_found, rw e refl)
    | inr (r, e) ↦ elim (Bool-cases (psc_rate == 0)) [
      | inl z ↦ (panics, rw e (rw z refl))
      | inr z ↦ absurd (ground (arith, h, c, e, z))
    ]
  ])
  | inr c ↦ absurd (ground (arith, h, c))
]

-- The two writes of a commission.
abbrev write : ℕ → ℕ → ℤ → Step (Unit {0})
write user referrer x =
    wallet (add_balance referrer (some psc) x)
    >> modify
        (create_referral_order (record { user_id = referrer; referral_id = user; amount = x }))

write-paid :
    (user referrer : ℕ) (x : ℤ) (m : Bank)
    → write user referrer x m ≡ (ok tt, paid user (some (referrer, x)) m)
unfolding add_balance
write-paid user referrer x m = refl

pay-paid :
    (env : Env) (user : ℕ) (o : Order) (referrer psc_rate : ℕ) (m : Bank)
    → (pay_commission env user o referrer psc_rate false m).1
      ≡ paid user (payout referrer (share env o psc_rate)) m
pay-paid env user o referrer psc_rate m = elim (Option-cases (share env o psc_rate)) [
  | inl e ↦ rw e (
      let (x, f) = commission_of-none env o psc_rate m e in
      ap (λ (p : Result Refusal (Unit {0}) × Bank). p.1)
        (bind_err (commission_of env o psc_rate) (write user referrer) m m x f))
  | inr (x, e) ↦ rw e (
      ap (λ (p : Result Refusal (Unit {0}) × Bank). p.1)
        (bind_ok (commission_of env o psc_rate) (write user referrer) m m x
            (commission_of-share env o psc_rate x m e)
          ∙ write-paid user referrer x m))
]

refer-paid :
    (env : Env) (o : Order) (r : Option ℕ) (m : Bank)
    → (refer env o.user_id o r m).1 ≡ paid o.user_id (payout_to env o m r) m
refer-paid env o none m = refl
refer-paid env o (some referrer) m = elim (Option-cases (env.rate (asset psc))) [
  | inl e ↦ rw e refl
  | inr (psc_rate, e) ↦
      rw e
        (elim (Bool-cases (
          is_limit_reached psc_rate (get_total_referred_amount referrer m)
            (env.referral_limit referrer))) [
              | inl t ↦ rw t refl
              | inr t ↦ rw t (pay-paid env o.user_id o referrer psc_rate m)
            ])
]

-- What the call writes is the commission.
pub process_referral-paid :
    (env : Env) (o : Order) (m : Bank)
    → (process_referral_commission env o.user_id o m).1 ≡ paid o.user_id (commission env o m) m
unfolding process_referral_commission commission
process_referral-paid env o m = elim (Bool-cases (is_irr o.product)) [
  | inl t ↦ rw t refl
  | inr t ↦ rw t (refer-paid env o (env.referrer o.user_id) m)
]
