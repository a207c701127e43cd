-- ===== src/Wallet/Placeholder.antt =====
-- What CheckBalance of the client answers, since `parseWalletString` is a placeholder.
use microservice_metarang.Prelude.{ℕ, true, Option, ◌≡◌, ◌≢◌, arith}
use microservice_metarang.Prelude.Int.{ℤ, pos, ◌≤ℤ◌}
use microservice_metarang.Prelude.Action.{ok}
use microservice_metarang.Wallet.Row.{Asset, Db}
use microservice_metarang.Wallet.Client

-- CheckBalance never finds a positive amount to be covered, whatever the wallet holds: for every
-- user, asset and wallet table the answer is an error or false.
pub check_balance_refuses :
    (user : ℕ) (a : Option Asset) (required : ℤ) (db : Db)
    → pos 1 ≤ℤ required
    → (Client.check_balance user a required db).0 ≢ ok true
unfolding Client.check_balance
check_balance_refuses user a required db p h = ground arith

-- CheckBalance only reads.
pub check_balance_reads :
    (user : ℕ) (a : Option Asset) (required : ℤ) (db : Db)
    → (Client.check_balance user a required db).1 ≡ db
unfolding Client.check_balance
check_balance_reads user a required db = ground arith
