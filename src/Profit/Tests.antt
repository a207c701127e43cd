-- ===== src/Profit/Tests.antt =====
-- Runs of the profit calls, and the theorems at inputs that meet their hypotheses.
use microservice_metarang.Prelude.{
  ℕ, ◌+◌, true, false, ◌&&◌, some, [], ◌∷◌, ◌≡◌, refl, ◌==◌, if◌then◌else◌,
}
use microservice_metarang.Prelude.Int.{pos, ltb_ℤ, ◌+ℤ◌, cut}
use microservice_metarang.Prelude.Action.{ok, err}
use microservice_metarang.Wallet.Row.{
  Wallet, column, increase, set_column, Asset, yellow, red, same_asset,
}
use microservice_metarang.Wallet.Client
use microservice_metarang.Wallet.Balance.{balance, plus}
use microservice_metarang.Wallet.Calls.{has_wallet}
use microservice_metarang.Market.Constants.{maskoni, parking}
use microservice_metarang.Profit.Tables.{
  FeatureHourlyProfit, Profits, Env, invalid_karbari, find_by_id, emptied,
  calculate_and_update_profits, reset_profit_and_update_deadline,
}
use microservice_metarang.Profit.Service.{
  pay_out, withdraw_profit_days, get_single_profit, get_profits_by_application,
}
use microservice_metarang.Profit.Withdrawals.{owed, get_profits_by_application-balance}
use microservice_metarang.Profit.Single.{get_single_profit-balance}

abbrev env : Env
env = record {
  now = 1000000;
  has_client = true;
  withdraw_profit = λ u. some 7;
  is_joined = λ f. true;
  stability = λ f. some (pos 1000000000000);
}

abbrev wallet : Wallet
wallet = record {
  id = 1;
  user_id = 7;
  psc_amount = pos 0;
  irr_amount = pos 0;
  red_amount = pos 5;
  blue_amount = pos 0;
  yellow_amount = pos 10;
  satisfaction_amount = pos 0;
  effect_amount = pos 0;
}

abbrev profit : ℕ → Asset → ℕ → FeatureHourlyProfit
profit id a n = record {
  id = id;
  user_id = 7;
  feature_id = id + 100;
  asset = a;
  amount = pos n;
  deadline = 2000000;
  is_active = true;
  updated_at = 0;
}

abbrev start : Profits
start = record {
  commercial = record { wallets = wallet ∷ []; locked_assets = [] };
  rows = profit 1 yellow 30 ∷ profit 2 red 40 ∷ profit 3 yellow 2 ∷ [];
  next_id = 4;
}

refused : (get_profits_by_application env 7 parking start).0 ≡ err invalid_karbari
unfolding get_profits_by_application
refused = refl

-- Three hours of a stability of 100.
accrued :
    find_by_id env 2 (calculate_and_update_profits env start)
    ≡ some (record (profit 2 red 41666040) { updated_at = 1000000 })
unfolding calculate_and_update_profits find_by_id cut ◌+ℤ◌
accrued = refl

-- Without a client the profit is lost.
lost :
    (get_single_profit (record env { has_client = false }) 1 7 start).0
    ≡ ok (record (profit 1 yellow 0) { deadline = 1604800; updated_at = 1000000 })
unfolding get_single_profit find_by_id pay_out reset_profit_and_update_deadline withdraw_profit_days
lost = refl

get_profits_by_application-balance_example :
    let (r, n) = get_profits_by_application env 7 maskoni start in
    (r ≡ ok (pos 32)) × (balance 7 yellow n.commercial ≡ some (pos 42)) × (owed 7 yellow n ≡ pos 0)
unfolding has_wallet balance ◌+ℤ◌ column
get_profits_by_application-balance_example =
    get_profits_by_application-balance env 7 maskoni yellow start 7 yellow refl refl refl
      (refl, (refl, (refl, tt)))

paid :
    (get_single_profit env 1 7 start).0
    ≡ ok (record (profit 1 yellow 0) { deadline = 1604800; updated_at = 1000000 })
unfolding get_single_profit find_by_id pay_out reset_profit_and_update_deadline withdraw_profit_days
    Client.add_balance increase set_column
paid = refl

get_single_profit-balance_example :
    let n = (get_single_profit env 1 7 start).1 in
    let q = record (profit 1 yellow 0) { deadline = 1604800; updated_at = 1000000 } in
    (p : FeatureHourlyProfit) × (find_by_id env 1 start ≡ some p)
    × (7 ≡ p.user_id)
    × (q ≡ emptied env (withdraw_profit_days env 7) p)
    × (find_by_id env 1 n ≡ some q)
    × (balance 7 yellow n.commercial ≡ (
        if (ltb_ℤ (pos 0) p.amount && env.has_client) && (7 == 7 && same_asset p.asset yellow)
        then plus p.amount (balance 7 yellow start.commercial)
        else balance 7 yellow start.commercial))
get_single_profit-balance_example = get_single_profit-balance env 1 7 7 yellow start _ paid
