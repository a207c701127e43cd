-- ===== src/Wallet/Client.antt =====
-- The gRPC boundary: services/commercial-service/internal/handler/wallet_handler.go answers with a
-- success flag, and services/features-service/internal/client/commercial_client.go turns the answer
-- back into an error. The transport itself is taken to deliver every message, and the
-- database to carry out every statement.
use microservice_metarang.Prelude.{ℕ, Bool, true, false, Option, none, some, if◌then◌else◌}
use microservice_metarang.Prelude.Int.{ℤ, pos, ◌-ℤ◌, leb_ℤ, ltb_ℤ}
use microservice_metarang.Prelude.Action.{Result, ok, err, pure, fail, ◌>>=◌}
use microservice_metarang.Wallet.Row.{Asset, Wallet, Db, column, psc, irr, red, blue, yellow}
use microservice_metarang.Wallet.Service
use microservice_metarang.Wallet.Repository.{Error, Call, unknown_asset}

-- DeductBalanceResponse and AddBalanceResponse: the error is the message of a refusal.
pub data Response : Type 0 where
  success : Wallet → Response
  refusal : Error → Response

abbrev respond : Result Error Wallet × Db → Result Error Response × Db
respond (ok w, db) = (ok (success w), db)
respond (err e, db) = (ok (refusal e), db)

unfoldable pub handle_add_balance : ℕ → Option Asset → ℤ → Call Response
unfolding Service.add_balance
handle_add_balance user a x db = respond (Service.add_balance user a x db)

unfoldable pub handle_deduct_balance : ℕ → Option Asset → ℤ → Call Response
unfolding Service.deduct_balance
handle_deduct_balance user a x db = respond (Service.deduct_balance user a x db)

abbrev expect_success : Response → Call (Unit {0})
expect_success (success w) = pure tt
expect_success (refusal e) = fail e

unfoldable pub add_balance : ℕ → Option Asset → ℤ → Call (Unit {0})
unfolding handle_add_balance
add_balance user a x = do expect_success (← handle_add_balance user a x)

unfoldable pub deduct_balance : ℕ → Option Asset → ℤ → Call (Unit {0})
unfolding handle_deduct_balance
deduct_balance user a x = do expect_success (← handle_deduct_balance user a x)

-- A positive amount is added, a negative one is deducted, zero does nothing.
unfoldable pub update_wallet : ℕ → Option Asset → ℤ → Call (Unit {0})
unfolding add_balance deduct_balance
update_wallet user a x =
    if ltb_ℤ (pos 0) x
    then add_balance user a x
    else if ltb_ℤ x (pos 0)
    then deduct_balance user a (pos 0 -ℤ x)
    else pure tt

-- The placeholder of the source: it reads every text as zero.
unfoldable pub parse_wallet_string : ℤ → ℤ
parse_wallet_string text = pos 0

-- The `switch` of CheckBalance: the assets that it knows.
abbrev known_asset : Option Asset → Bool
known_asset (some psc) = true
known_asset (some irr) = true
known_asset (some red) = true
known_asset (some blue) = true
known_asset (some yellow) = true
known_asset other = false

abbrev amount_of : Option Asset → Wallet → ℤ
amount_of none w = pos 0
amount_of (some a) w = column a w

abbrev compare_balance : Option Asset → ℤ → Wallet → Call Bool
unfolding parse_wallet_string column
compare_balance a required w =
    if known_asset a
    then pure (leb_ℤ required (parse_wallet_string (amount_of a w)))
    else fail unknown_asset

unfoldable pub check_balance : ℕ → Option Asset → ℤ → Call Bool
unfolding Service.get_wallet parse_wallet_string column
check_balance user a required = do compare_balance a required (← Service.get_wallet user)
