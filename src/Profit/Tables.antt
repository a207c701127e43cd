-- ===== src/Profit/Tables.antt =====
-- services/features-service/internal/repository/hourly_profit_repository.go: the rows of
-- `feature_hourly_profits` with their ids and times, and the statements on them. Amounts and the
-- stability of a feature are exact, in units of 10⁻¹⁰.
use microservice_metarang.Prelude.{
  ℕ, zero, suc, ◌+◌, ◌*◌, Bool, ◌&&◌, Option, none, some, List, [], ◌∷◌, ◌==◌, ltb,
}
use microservice_metarang.Prelude.Int.{ℤ, pos, ◌+ℤ◌, scale, cut}
use microservice_metarang.Prelude.Rows.{first, select, change}
use microservice_metarang.Prelude.Action.{Action}
use microservice_metarang.Wallet.Row.{Asset, Db, same_asset}
use microservice_metarang.Wallet.Repository.{Error as WalletError}

pub record FeatureHourlyProfit : Type 0 where
  pub id : ℕ
  pub user_id : ℕ
  pub feature_id : ℕ
  pub asset : Asset
  pub amount : ℤ
  pub deadline : ℕ
  pub is_active : Bool
  pub updated_at : ℕ

pub record Profits : Type 0 where
  pub commercial : Db
  pub rows : List FeatureHourlyProfit
  pub next_id : ℕ

-- The clock, the client, `user_variables`, which features have a row with properties, and the
-- stability of those.
pub record Env : Type 0 where
  pub now : ℕ
  pub has_client : Bool
  pub withdraw_profit : ℕ → Option ℕ
  pub is_joined : ℕ → Bool
  pub stability : ℕ → Option ℤ

pub data Refusal : Type 0 where
  profit_not_found unauthorized invalid_karbari : Refusal
  wallet_failed : WalletError → Refusal

abbrev pub Step : Type 0 → Type 0
Step A = Action Profits Refusal A

unfoldable pub find_by_id : Env → ℕ → Profits → Option FeatureHourlyProfit
find_by_id env id m = first (λ p. p.id == id && env.is_joined p.feature_id) m.rows

abbrev pub deadline_after : Env → ℕ → ℕ
deadline_after env days = env.now + days * 86400

abbrev pub emptied : Env → ℕ → FeatureHourlyProfit → FeatureHourlyProfit
emptied env days p = record p {
  amount = pos 0;
  deadline = deadline_after env days;
  updated_at = env.now;
}

unfoldable pub reset_profit_and_update_deadline : Env → ℕ → ℕ → Profits → Profits
reset_profit_and_update_deadline env id days m = record m {
  rows = change (λ p. p.id == id) (emptied env days) m.rows;
}

abbrev pub is_due : Env → FeatureHourlyProfit → Bool
is_due env p = ltb env.now p.deadline && (ltb (p.updated_at + 3 * 3600) env.now && p.is_active)

abbrev pub take : ℕ → List FeatureHourlyProfit → List FeatureHourlyProfit
take n [] = []
take zero (p ∷ ps) = []
take (suc n) (p ∷ ps) = p ∷ take n ps

-- Three hours of profit: 0.000041666 of the stability.
abbrev pub increment : ℤ → FeatureHourlyProfit → FeatureHourlyProfit
increment stability p = record p { amount = p.amount +ℤ cut 1000000000 (scale 41666 stability) }

abbrev pub accrue_one : Env → FeatureHourlyProfit → Profits → Profits
accrue_one env p m = elim (env.stability p.feature_id) [
  | none ↦ m
  | some s ↦ record m {
    rows = change (λ q. q.id == p.id) (λ q. record (increment s q) { updated_at = env.now }) m.rows;
  }
]

abbrev pub accrue : Env → List FeatureHourlyProfit → Profits → Profits
accrue env [] m = m
accrue env (p ∷ ps) m = accrue env ps (accrue_one env p m)

unfoldable pub calculate_and_update_profits : Env → Profits → Profits
calculate_and_update_profits env m = accrue env (take 100 (select (is_due env) m.rows)) m

abbrev pub belongs : ℕ → Asset → FeatureHourlyProfit → Bool
belongs user a p = p.user_id == user && same_asset a p.asset

unfoldable pub get_all_by_user_and_karbari : ℕ → Asset → Profits → List FeatureHourlyProfit
get_all_by_user_and_karbari user a m = select (belongs user a) m.rows
