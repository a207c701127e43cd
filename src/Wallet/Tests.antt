-- ===== src/Wallet/Tests.antt =====
-- The wallet tables of an example, and the theorems of the component at it.
use microservice_metarang.Prelude.{ℕ, false, some, [], ◌∷◌, ◌≡◌, refl, arith, All}
use microservice_metarang.Prelude.Int.{ℤ, pos, ◌+ℤ◌, ◌-ℤ◌}
use microservice_metarang.Prelude.Action.{ok, err}
use microservice_metarang.Wallet.Row.{
  psc, irr, red, blue, yellow, satisfaction, effect, Wallet, Db, column, set_column,
}
use microservice_metarang.Wallet.Repository
use microservice_metarang.Wallet.Repository.{
  find_by_user_id, lock_balance, unlock_balance, insufficient_balance,
}
use microservice_metarang.Wallet.Service
use microservice_metarang.Wallet.Client
use microservice_metarang.Wallet.Balance.{IsKeyed, balance, deduct_balance-balance}
use microservice_metarang.Wallet.Locks.{total, lock_balance-total, unlock_balance-total}
use microservice_metarang.Wallet.Solvency.{
  IsSolvent, deduct, add, lock, serve_all, serve_all-IsSolvent,
}

abbrev pub wallet_with : ℕ → ℤ → ℤ → Wallet
wallet_with user in_psc in_irr = record {
  id = user;
  user_id = user;
  psc_amount = in_psc;
  irr_amount = in_irr;
  red_amount = pos 0;
  blue_amount = pos 0;
  yellow_amount = pos 0;
  satisfaction_amount = pos 0;
  effect_amount = pos 0;
}

abbrev two_users : Db
two_users = record {
  wallets = wallet_with 7 (pos 100) (pos 50) ∷ wallet_with 8 (pos 5) (pos 0) ∷ [];
  locked_assets = record { user_id = 8; asset = psc; amount = pos 3; reason = "bid" } ∷ [];
}

two_users-IsKeyed : IsKeyed two_users.wallets
two_users-IsKeyed = (refl, (refl, tt))

-- The first of two deductions is covered, the second is not.
deduct-twice :
    ((Repository.deduct_balance 7 (some psc) (pos 60) two_users).0 ≡ ok tt)
    × ((Repository.deduct_balance 7
          (some psc)
          (pos 60)
          (Repository.deduct_balance 7 (some psc) (pos 60) two_users).1).0
        ≡ err insufficient_balance)
unfolding Repository.deduct_balance column set_column ◌-ℤ◌
deduct-twice = (refl, refl)

check-placeholder : (Client.check_balance 7 (some psc) (pos 1) two_users).0 ≡ ok false
unfolding Client.check_balance Service.get_wallet find_by_user_id Client.parse_wallet_string column
check-placeholder = refl

deduct_balance-balance_example :
    let (r, db) = Repository.deduct_balance 7 (some psc) (pos 60) two_users in
    (r ≡ ok tt) × (balance 7 psc db ≡ some (pos 40))
unfolding balance column ◌-ℤ◌
deduct_balance-balance_example =
    deduct_balance-balance 7 7 psc psc (pos 60) two_users two_users-IsKeyed

lock_balance-total_example :
    total psc (lock_balance 7 (some psc) (pos 60) "bid" two_users).1 ≡ pos 108
unfolding total column ◌+ℤ◌
lock_balance-total_example = lock_balance-total 7 psc psc (pos 60) "bid" two_users two_users-IsKeyed

-- No lock of user 7 is on record.
unlock_balance-total_example :
    total psc (unlock_balance 7 (some psc) (pos 60) two_users).1 ≡ pos 168
unfolding total column ◌+ℤ◌
unlock_balance-total_example =
    unlock_balance-total 7 psc psc (pos 60) two_users two_users-IsKeyed (λ e. cc)

wallet_with-IsSolvent : (user n m : ℕ) → IsSolvent (wallet_with user (pos n) (pos m))
unfolding column
wallet_with-IsSolvent user n m psc = omega arith
wallet_with-IsSolvent user n m irr = omega arith
wallet_with-IsSolvent user n m red = omega arith
wallet_with-IsSolvent user n m blue = omega arith
wallet_with-IsSolvent user n m yellow = omega arith
wallet_with-IsSolvent user n m satisfaction = omega arith
wallet_with-IsSolvent user n m effect = omega arith

serve_all-IsSolvent_example :
    All IsSolvent
      (serve_all
        (deduct 7 (some psc) (pos 60)
          ∷ lock 7 (some psc) (pos 60) "bid"
          ∷ add 8 (some irr) (pos 4)
          ∷ [])
        two_users).wallets
serve_all-IsSolvent_example =
    serve_all-IsSolvent
      (deduct 7 (some psc) (pos 60)
        ∷ lock 7 (some psc) (pos 60) "bid"
        ∷ add 8 (some irr) (pos 4)
        ∷ [])
      two_users (tt, (tt, (omega arith, tt)))
      (wallet_with-IsSolvent 7 100 50, (wallet_with-IsSolvent 8 5 0, tt))
