-- ===== src/Profit/Service.antt =====
-- services/features-service/internal/service/profit_service.go: the calls that pay profits.
use microservice_metarang.Prelude.{
  ℕ, not, ◌&&◌, Option, none, some, List, [], ◌∷◌, ◌==◌, if◌then◌else◌,
}
use microservice_metarang.Prelude.Int.{ℤ, pos, ◌+ℤ◌, ltb_ℤ}
use microservice_metarang.Prelude.Action.{
  Result, ok, err, pure, gets, or_fail, fail_if, modify, ◌>>=◌, ◌>>◌,
}
use microservice_metarang.Wallet.Row.{Asset, red, blue, yellow}
use microservice_metarang.Wallet.Repository.{Call, Error as WalletError}
use microservice_metarang.Wallet.Client
use microservice_metarang.Market.Constants.{Karbari, maskoni, tejari, amozeshi}
use microservice_metarang.Profit.Tables.{
  FeatureHourlyProfit, Profits, Env, Refusal, profit_not_found, unauthorized, invalid_karbari,
  wallet_failed, Step, find_by_id, reset_profit_and_update_deadline, get_all_by_user_and_karbari,
}

abbrev wrap : Result WalletError (Unit {0}) → Result Refusal (Unit {0})
wrap (ok a) = ok a
wrap (err e) = err (wallet_failed e)

abbrev pub wallet : Call (Unit {0}) → Step (Unit {0})
wallet c m = let (r, db) = c m.commercial in (wrap r, record m { commercial = db })

-- A positive amount, if there is a client; without one nothing is paid.
unfoldable pub pay_out : Env → ℕ → FeatureHourlyProfit → Step (Unit {0})
pay_out env user p =
    if ltb_ℤ (pos 0) p.amount && env.has_client
    then wallet (Client.add_balance user (some p.asset) p.amount)
    else pure tt

abbrev days_or_default : Option ℕ → ℕ
days_or_default none = 10
days_or_default (some days) = if days == 0 then 10 else days

unfoldable pub withdraw_profit_days : Env → ℕ → ℕ
withdraw_profit_days env user = days_or_default (env.withdraw_profit user)

abbrev or_original : FeatureHourlyProfit → Option FeatureHourlyProfit → FeatureHourlyProfit
or_original p none = p
or_original p (some q) = q

-- Empties the profit and reads it again.
abbrev pub renew : Env → ℕ → ℕ → FeatureHourlyProfit → Step FeatureHourlyProfit
renew env id user p = do
  modify (reset_profit_and_update_deadline env id (withdraw_profit_days env user))
  updated ← gets (find_by_id env id)
  pure (or_original p updated)

unfoldable pub get_single_profit : Env → ℕ → ℕ → Step FeatureHourlyProfit
get_single_profit env id user = do
  p ← or_fail (← gets (find_by_id env id)) profit_not_found
  fail_if (not (p.user_id == user)) unauthorized
  pay_out env user p
  renew env id user p

-- A profit that could not be paid stays as it is.
abbrev pub finish : Env → ℕ → FeatureHourlyProfit → Result Refusal (Unit {0}) × Profits → Profits
finish env days p (ok t, m) = reset_profit_and_update_deadline env p.id days m
finish env days p (err e, m) = m

-- The chunks of 100 go through all profits in their order.
abbrev pub withdraw_all : Env → ℕ → ℕ → List FeatureHourlyProfit → Profits → Profits
withdraw_all env user days [] m = m
withdraw_all env user days (p ∷ ps) m =
    withdraw_all env user days ps (finish env days p (pay_out env user p m))

abbrev pub total_amount : List FeatureHourlyProfit → ℤ
total_amount [] = pos 0
total_amount (p ∷ ps) = p.amount +ℤ total_amount ps

-- The asset of the three types of feature that are allowed.
abbrev pub asset_of : Karbari → Option Asset
asset_of maskoni = some yellow
asset_of tejari = some red
asset_of amozeshi = some blue
asset_of other_type = none

-- The total counts what could not be paid, too.
unfoldable pub get_profits_by_application : Env → ℕ → Karbari → Step ℤ
get_profits_by_application env user karbari = do
  a ← or_fail (asset_of karbari) invalid_karbari
  ps ← gets (get_all_by_user_and_karbari user a)
  modify (withdraw_all env user (withdraw_profit_days env user) ps)
  pure (total_amount ps)
