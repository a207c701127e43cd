-- ===== src/Wallet/Calls.antt =====
-- The client's calls, put together from the handler, the service and the repository: what each
-- answers, and what it does to the tables.
use microservice_metarang.Prelude.{
  ℕ, Bool, true, false, none, some, List, [], ◌∷◌, ◌≡◌, refl, ◌==◌, ◌&&◌, if◌then◌else◌, arith,
}
use microservice_metarang.Prelude.Int.{ℤ, ◌+ℤ◌}
use microservice_metarang.Prelude.Action.{ok, err}
use microservice_metarang.Wallet.Row.{Asset, same_asset, Wallet, Db, increase}
use microservice_metarang.Wallet.Repository.{
  owns, count_where, update_where, first_owned, find_by_user_id, wallet_not_found,
  refused_statement,
}
use microservice_metarang.Wallet.Client
use microservice_metarang.Wallet.Balance.{
  IsKeyed, balance, balance_in, increase_owner, plus, balance_in-increase,
}
use microservice_metarang.Wallet.Locks.{sum_wallets, sum_wallets-increase}

-- Whether the user has a wallet.
unfoldable pub has_wallet : ℕ → Db → Bool
unfolding find_by_user_id
has_wallet user db = elim (find_by_user_id user db) [ none ↦ false | some w ↦ true ]

-- The tables after an addition to a column.
unfoldable pub after_add : ℕ → Asset → ℤ → Db → Db
after_add user a x db = record db { wallets = update_where (owns user) (increase a x) db.wallets }

first_owned-increase :
    (user user' : ℕ) (a : Asset) (x : ℤ) (ws : List Wallet)
    → first_owned user' (update_where (owns user) (increase a x) ws)
      ≡ (elim (first_owned user' ws) [
        | none ↦ none
        | some w ↦ some (if user == user' then increase a x w else w)
      ])
first_owned-increase user user' a x [] = refl
first_owned-increase user user' a x (w ∷ ws) =
    ground (arith, first_owned-increase user user' a x ws, increase_owner a x w)

update_where-unowned :
    (user : ℕ) (a : Asset) (x : ℤ) (ws : List Wallet)
    → first_owned user ws ≡ none
    → update_where (owns user) (increase a x) ws ≡ ws
update_where-unowned user a x [] h = refl
update_where-unowned user a x (w ∷ ws) h = ground (arith, update_where-unowned user a x ws)

-- AddBalance of the client fails exactly if the user has no wallet, and then changes nothing.
pub add_balance_lem :
    (user : ℕ) (a : Asset) (x : ℤ) (db : Db)
    → Client.add_balance user (some a) x db
      ≡ (if has_wallet user db then (ok tt, after_add user a x db) else (err wallet_not_found, db))
unfolding Client.add_balance has_wallet after_add
add_balance_lem user a x db =
    ground (
      arith,
      first_owned-increase user user a x db.wallets,
      update_where-unowned user a x db.wallets,
    )

-- An asset that is no column is refused.
pub add_balance-none :
    (user : ℕ) (x : ℤ) (db : Db) → Client.add_balance user none x db ≡ (err refused_statement, db)
unfolding Client.add_balance
add_balance-none user x db = refl

pub has_wallet-after_add :
    (user user' : ℕ) (a : Asset) (x : ℤ) (db : Db)
    → has_wallet user' (after_add user a x db) ≡ has_wallet user' db
unfolding has_wallet after_add
has_wallet-after_add user user' a x db =
    ground (arith, first_owned-increase user user' a x db.wallets)

balance_in-first_owned :
    (user : ℕ) (a : Asset) (ws : List Wallet)
    → (elim (first_owned user ws) [ none ↦ false | some w ↦ true ])
      ≡ (elim (balance_in user a ws) [ none ↦ false | some held ↦ true ])
balance_in-first_owned user a [] = refl
balance_in-first_owned user a (w ∷ ws) = ground (arith, balance_in-first_owned user a ws)

count_where-increase :
    (user user' : ℕ) (a : Asset) (x : ℤ) (ws : List Wallet)
    → count_where (owns user') (update_where (owns user) (increase a x) ws)
      ≡ count_where (owns user') ws
count_where-increase user user' a x [] = refl
count_where-increase user user' a x (w ∷ ws) =
    ground (arith, count_where-increase user user' a x ws, increase_owner a x w)

IsKeyed-increase :
    (user : ℕ) (a : Asset) (x : ℤ) (ws : List Wallet)
    → IsKeyed ws
    → IsKeyed (update_where (owns user) (increase a x) ws)
IsKeyed-increase user a x [] h = tt
IsKeyed-increase user a x (w ∷ ws) h =
    (same_count (if owns user w then increase a x w else w) owner, IsKeyed-increase user a x ws h.1)
  where
    owner : (if owns user w then increase a x w else w).user_id ≡ w.user_id
    owner = ground (arith, increase_owner a x w)

    same_count :
        (w' : Wallet)
        → w'.user_id ≡ w.user_id
        → count_where (owns w'.user_id) (update_where (owns user) (increase a x) ws) ≡ 0
    same_count w' e = rw e (rw (count_where-increase user w.user_id a x ws) h.0)

pub IsKeyed-after_add :
    (user : ℕ) (a : Asset) (x : ℤ) (db : Db)
    → IsKeyed db.wallets
    → IsKeyed (after_add user a x db).wallets
unfolding after_add
IsKeyed-after_add user a x db h = IsKeyed-increase user a x db.wallets h

pub sum_wallets-after_add :
    (user : ℕ) (a b : Asset) (x : ℤ) (db : Db)
    → IsKeyed db.wallets
    → has_wallet user db ≡ true
    → sum_wallets b (after_add user a x db).wallets
      ≡ (if same_asset a b then sum_wallets b db.wallets +ℤ x else sum_wallets b db.wallets)
unfolding after_add has_wallet
sum_wallets-after_add user a b x db h p =
    ground (
      arith,
      sum_wallets-increase user a b x db.wallets h,
      balance_in-first_owned user a db.wallets,
    )

pub balance-after_add :
    (user user' : ℕ) (a b : Asset) (x : ℤ) (db : Db)
    → balance user' b (after_add user a x db) ≡ (
        if user == user' && same_asset a b then plus x (balance user' b db) else balance user' b db)
unfolding after_add balance
balance-after_add user user' a b x db = balance_in-increase user user' a b x db.wallets
