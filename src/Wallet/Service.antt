-- ===== src/Wallet/Service.antt =====
-- services/commercial-service/internal/service/wallet_service.go.
use Prim.Native.String.{String}
use microservice_metarang.Prelude.{ℕ, Option}
use microservice_metarang.Prelude.Int.{ℤ}
use microservice_metarang.Prelude.Action.{gets, or_fail, ◌>>=◌, ◌>>◌}
use microservice_metarang.Wallet.Row.{Asset, Wallet}
use microservice_metarang.Wallet.Repository
use microservice_metarang.Wallet.Repository.{wallet_not_found, Call}

-- The amounts of the response are texts in the source; the model passes on what they stand for.
unfoldable pub get_wallet : ℕ → Call Wallet
unfolding Repository.find_by_user_id
get_wallet user = do or_fail (← gets (Repository.find_by_user_id user)) wallet_not_found

unfoldable pub deduct_balance : ℕ → Option Asset → ℤ → Call Wallet
unfolding Repository.deduct_balance get_wallet
deduct_balance user a x = do Repository.deduct_balance user a x; get_wallet user

unfoldable pub add_balance : ℕ → Option Asset → ℤ → Call Wallet
unfolding Repository.add_balance get_wallet
add_balance user a x = do Repository.add_balance user a x; get_wallet user

unfoldable pub lock_balance : ℕ → Option Asset → ℤ → String → Call (Unit {0})
unfolding Repository.lock_balance
lock_balance user a x reason = Repository.lock_balance user a x reason

unfoldable pub unlock_balance : ℕ → Option Asset → ℤ → Call (Unit {0})
unfolding Repository.unlock_balance
unlock_balance user a x = Repository.unlock_balance user a x
