-- ===== src/Profit/Single.antt =====
-- services/features-service/internal/service/profit_service.go: GetSingleProfit pays one profit.
use microservice_metarang.Prelude.{
  ℕ, ◌&&◌, some, ◌≡◌, refl, sym, ap, ◌∙◌, ◌⊎◌, inl, inr, arith, ◌==◌, ==_iff, if◌then◌else◌,
  Bool-cases, Option-cases,
}
use microservice_metarang.Prelude.Int.{pos, ltb_ℤ}
use microservice_metarang.Prelude.Rows.{first, change}
use microservice_metarang.Prelude.Keys.{first-change_of, first_passes}
use microservice_metarang.Prelude.Action.{Result, ok, err, bind_ok, bind_err}
use microservice_metarang.Wallet.Row.{Asset, same_asset}
use microservice_metarang.Wallet.Balance.{balance, plus}
use microservice_metarang.Wallet.Calls.{has_wallet, add_balance_lem, balance-after_add}
use microservice_metarang.Profit.Tables.{
  FeatureHourlyProfit, Profits, Env, Refusal, find_by_id, emptied, reset_profit_and_update_deadline,
}
use microservice_metarang.Profit.Service.{pay_out, withdraw_profit_days, renew, get_single_profit}

-- A payment that succeeds leaves the rows and raises one balance.
record Pays (env : Env) (user : ℕ) (p : FeatureHourlyProfit) (m : Profits) (user' : ℕ) (b : Asset)
    (n : Profits) : Type 0 where
  rows : n.rows ≡ m.rows
  raised : balance user' b n.commercial ≡ (
      if (ltb_ℤ (pos 0) p.amount && env.has_client) && (user == user' && same_asset p.asset b)
      then plus p.amount (balance user' b m.commercial)
      else balance user' b m.commercial)

pay_out-Pays :
    (env : Env) (user : ℕ) (p : FeatureHourlyProfit) (m : Profits) (user' : ℕ) (b : Asset)
    → ((pay_out env user p m).0 ≡ ok tt)
    → Pays env user p m user' b (pay_out env user p m).1
unfolding pay_out
pay_out-Pays env user p m user' b h = elim (Bool-cases (ltb_ℤ (pos 0) p.amount && env.has_client)) [
  | inr e ↦ rw e (record { rows = refl; raised = rw e refl })
  | inl e ↦ elim (Bool-cases (has_wallet user m.commercial)) [
    | inr w ↦
        absurd (ground (arith, rw (e, add_balance_lem user p.asset p.amount m.commercial, w) at h))
    | inl w ↦
        rw (e, add_balance_lem user p.asset p.amount m.commercial, w)
          (record {
            rows = refl;
            raised = rw e (balance-after_add user user' p.asset b p.amount m.commercial);
          })
  ]
]

emptied_row :
    (env : Env) (id days : ℕ) (m n : Profits) (p : FeatureHourlyProfit)
    → n.rows ≡ m.rows
    → find_by_id env id m ≡ some p
    → find_by_id env id (reset_profit_and_update_deadline env id days n) ≡ some (emptied env days p)
unfolding find_by_id reset_profit_and_update_deadline
emptied_row env id days m n p r e =
    ap
      (λ l.
        first (λ q. q.id == id && env.is_joined q.feature_id)
          (change (λ q. q.id == id) (emptied env days) l))
      r
    ∙ first-change_of (λ q. q.id == id && env.is_joined q.feature_id) (λ q. q.id == id) _ m.rows p
        (λ x. refl) e
    ∙ ground (arith, first_passes (λ q. q.id == id && env.is_joined q.feature_id) m.rows p e)

-- Whether a call has succeeded, and the state that it leaves.
answered :
    {S E : Type 0} (x : Result E (Unit {0}) × S)
    → ((s : S) × (x ≡ (ok tt, s))) ⊎ ((e : E) × (s : S) × (x ≡ (err e, s)))
answered (ok tt, s) = inl (s, refl)
answered (err e, s) = inr (e, s, refl)

ok_value : {A : Type 0} (a b : A) → ◌≡◌ {A = Result Refusal A} (ok a) (ok b) → b ≡ a
ok_value a b h = ground (arith, h)

-- A GetSingleProfit that succeeds is for a profit of the user and empties it. It raises the balance of
-- the asset by the amount, if that is positive and there is a client, and no other balance.
pub get_single_profit-balance :
    (env : Env) (id user user' : ℕ) (b : Asset) (m : Profits) (q : FeatureHourlyProfit)
    → (get_single_profit env id user m).0 ≡ ok q
    → let n = (get_single_profit env id user m).1 in
      (p : FeatureHourlyProfit) × (find_by_id env id m ≡ some p)
      × (user ≡ p.user_id)
      × (q ≡ emptied env (withdraw_profit_days env user) p)
      × (find_by_id env id n ≡ some q)
      × (balance user' b n.commercial ≡ (
          if (ltb_ℤ (pos 0) p.amount && env.has_client) && (user == user' && same_asset p.asset b)
          then plus p.amount (balance user' b m.commercial)
          else balance user' b m.commercial))
unfolding get_single_profit
get_single_profit-balance env id user user' b m q h = elim (Option-cases (find_by_id env id m)) [
  | inl e ↦ absurd (ground (arith, rw e at h))
  | inr (p, e) ↦ elim (Bool-cases (p.user_id == user)) [
    | inr o ↦ absurd (ground (arith, rw (e, o) at h))
    | inl o ↦ elim (answered (pay_out env user p m)) [
      | inr (x, n, f) ↦ absurd (
          ground (
            arith,
            rw (e, o, bind_err (pay_out env user p) (λ _. renew env id user p) m n x f) at h,
          ))
      | inl (n, f) ↦
          let s = pay_out-Pays env user p m user' b (rw f refl) in
          let t : Pays env user p m user' b n = rw f at s in
          let g = emptied_row env id (withdraw_profit_days env user) m n p t.rows e in
          let c = bind_ok (pay_out env user p) (λ _. renew env id user p) m n tt f in
          let k = ok_value _ q (rw (e, o, c, g) at h) in
          rw (e, o, c)
            (
              p,
              refl,
              sym ((==_iff p.user_id user).0 o),
              k,
              g ∙ ap some (sym k),
              unfold reset_profit_and_update_deadline in t.raised,
            )
    ]
  ]
]
