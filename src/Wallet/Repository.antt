-- ===== src/Wallet/Repository.antt =====
-- services/commercial-service/internal/repository/wallet_repository.go: the SQL statements as
-- functions on the rows. `user_id` is no key of the table, so an UPDATE changes every row that its
-- WHERE selects; a transaction that is rolled back leaves both tables as they were.
use Prim.Native.String.{String}
use microservice_metarang.Prelude.{
  ℕ, suc, Bool, ◌&&◌, Option, none, some, List, [], ◌∷◌, ◌++◌, ◌==◌, if◌then◌else◌,
}
use microservice_metarang.Prelude.Int.{ℤ, ◌-ℤ◌, leb_ℤ, eqb_ℤ}
use microservice_metarang.Prelude.Action.{ok, err, Action}
use microservice_metarang.Wallet.Row.{
  Asset, same_asset, Wallet, LockedAsset, Db, column, set_column, increase,
}

pub data Error : Type 0 where
  refused_statement insufficient_balance wallet_not_found unknown_asset : Error

abbrev pub Call : Type 0 → Type 0
Call A = Action Db Error A

-- `UPDATE wallets SET … WHERE …`, and the number of rows that it affects.
abbrev pub update_where : (Wallet → Bool) → (Wallet → Wallet) → List Wallet → List Wallet
update_where test set [] = []
update_where test set (w ∷ ws) = (if test w then set w else w) ∷ update_where test set ws

abbrev pub count_where : (Wallet → Bool) → List Wallet → ℕ
count_where test [] = 0
count_where test (w ∷ ws) = let n = count_where test ws in if test w then suc n else n

abbrev pub owns : ℕ → Wallet → Bool
owns user w = w.user_id == user

abbrev pub covers : ℕ → Asset → ℤ → Wallet → Bool
covers user a x w = owns user w && leb_ℤ x (column a w)

abbrev pub decrease : Asset → ℤ → Wallet → Wallet
decrease a x w = set_column a (column a w -ℤ x) w

-- `QueryRow` takes the first row that the WHERE selects.
abbrev pub first_owned : ℕ → List Wallet → Option Wallet
first_owned user [] = none
first_owned user (w ∷ ws) = if owns user w then some w else first_owned user ws

unfoldable pub find_by_user_id : ℕ → Db → Option Wallet
find_by_user_id user db = first_owned user db.wallets

-- The UPDATE that DeductBalance and LockBalance share.
abbrev pub take_from : ℕ → Asset → ℤ → List Wallet → Option (List Wallet)
take_from user a x ws =
    if count_where (covers user a x) ws == 0
    then none
    else some (update_where (covers user a x) (decrease a x) ws)

unfoldable pub deduct_balance : ℕ → Option Asset → ℤ → Call (Unit {0})
deduct_balance user none x db = (err refused_statement, db)
deduct_balance user (some a) x db = elim (take_from user a x db.wallets) [
  | none ↦ (err insufficient_balance, db)
  | some ws ↦ (ok tt, record db { wallets = ws })
]

unfoldable pub add_balance : ℕ → Option Asset → ℤ → Call (Unit {0})
add_balance user none x db = (err refused_statement, db)
add_balance user (some a) x db =
    (ok tt, record db { wallets = update_where (owns user) (increase a x) db.wallets })

unfoldable pub lock_balance : ℕ → Option Asset → ℤ → String → Call (Unit {0})
lock_balance user none x reason db = (err refused_statement, db)
lock_balance user (some a) x reason db = elim (take_from user a x db.wallets) [
  | none ↦ (err insufficient_balance, db)
  | some ws ↦ (
    ok tt,
    record {
      wallets = ws;
      locked_assets =
          db.locked_assets
          ++ record { user_id = user; asset = a; amount = x; reason = reason } ∷ [];
    },
  )
]

abbrev pub is_lock : ℕ → Asset → ℤ → LockedAsset → Bool
is_lock user a x l = l.user_id == user && (same_asset l.asset a && eqb_ℤ l.amount x)

-- `DELETE … LIMIT 1`
abbrev pub delete_one : (LockedAsset → Bool) → List LockedAsset → List LockedAsset
delete_one test [] = []
delete_one test (l ∷ ls) = if test l then ls else l ∷ delete_one test ls

unfoldable pub unlock_balance : ℕ → Option Asset → ℤ → Call (Unit {0})
unlock_balance user none x db = (err refused_statement, db)
unlock_balance user (some a) x db = (
  ok tt,
  record {
    wallets = update_where (owns user) (increase a x) db.wallets;
    locked_assets = delete_one (is_lock user a x) db.locked_assets;
  },
)
