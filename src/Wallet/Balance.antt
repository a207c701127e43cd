-- ===== src/Wallet/Balance.antt =====
-- The balances as a user sees them, and DeductBalance and AddBalance on them.
use microservice_metarang.Prelude.{
  ℕ, Bool, true, false, ◌&&◌, Option, none, some, List, [], ◌∷◌, ◌≡◌, refl, ◌==◌, if◌then◌else◌,
  arith, inl, inr, Bool-cases,
}
use microservice_metarang.Prelude.Int.{ℤ, ◌+ℤ◌, ◌-ℤ◌, leb_ℤ}
use microservice_metarang.Prelude.Action.{ok, err}
use microservice_metarang.Wallet.Row.{Asset, same_asset, Wallet, Db, column, increase}
use microservice_metarang.Wallet.Repository
use microservice_metarang.Wallet.Repository.{
  owns, covers, decrease, update_where, count_where, take_from, find_by_user_id,
  insufficient_balance,
}
use microservice_metarang.Wallet.Columns.{
  column-decrease, column-increase, set_column_owner, same_asset→eq,
}

pub increase_owner : (a : Asset) (x : ℤ) (w : Wallet) → (increase a x w).user_id ≡ w.user_id
unfolding increase
increase_owner a x w = set_column_owner a (column a w +ℤ x) w

-- No two rows belong to one user.
abbrev pub IsKeyed : List Wallet → Type 0
IsKeyed [] = Unit
IsKeyed (w ∷ ws) = (count_where (owns w.user_id) ws ≡ 0) × IsKeyed ws

-- The balance of a user in an asset, as far as the user has a wallet.
abbrev pub balance_in : ℕ → Asset → List Wallet → Option ℤ
balance_in user a [] = none
balance_in user a (w ∷ ws) = if owns user w then some (column a w) else balance_in user a ws

unfoldable pub balance : ℕ → Asset → Db → Option ℤ
balance user a db = balance_in user a db.wallets

abbrev pub suffices : ℤ → Option ℤ → Bool
suffices x none = false
suffices x (some held) = leb_ℤ x held

abbrev pub minus : ℤ → Option ℤ → Option ℤ
minus x none = none
minus x (some held) = some (held -ℤ x)

abbrev pub plus : ℤ → Option ℤ → Option ℤ
plus x none = none
plus x (some held) = some (held +ℤ x)

pub covers_absent :
    (user : ℕ) (a : Asset) (x : ℤ) (ws : List Wallet)
    → count_where (owns user) ws ≡ 0
    → count_where (covers user a x) ws ≡ 0
covers_absent user a x [] h = refl
covers_absent user a x (w ∷ ws) h = ground (arith, covers_absent user a x ws)

pub balance_in_absent :
    (user : ℕ) (a : Asset) (ws : List Wallet)
    → count_where (owns user) ws ≡ 0
    → balance_in user a ws ≡ none
balance_in_absent user a [] h = refl
balance_in_absent user a (w ∷ ws) h = ground (arith, balance_in_absent user a ws)

-- The UPDATE affects a row exactly if the balance suffices.
pub count_where-covers :
    (user : ℕ) (a : Asset) (x : ℤ) (ws : List Wallet)
    → IsKeyed ws
    → (count_where (covers user a x) ws == 0)
      ≡ (if suffices x (balance_in user a ws) then false else true)
count_where-covers user a x [] h = refl
count_where-covers user a x (w ∷ ws) h =
    ground (arith, count_where-covers user a x ws h.1, covers_absent user a x ws)

-- The row that the UPDATE of a deduction leaves.
unfoldable pub deducted : ℕ → Asset → ℤ → Wallet → Wallet
deducted user a x w = if covers user a x w then decrease a x w else w

deducted_owner :
    (user : ℕ) (a : Asset) (x : ℤ) (w : Wallet) → (deducted user a x w).user_id ≡ w.user_id
unfolding deducted
deducted_owner user a x w = ground (arith, set_column_owner a (column a w -ℤ x) w)

pub column-deducted :
    (user : ℕ) (a b : Asset) (x : ℤ) (w : Wallet)
    → column b (deducted user a x w)
      ≡ (if covers user a x w && same_asset a b then column b w -ℤ x else column b w)
unfolding deducted
column-deducted user a b x w = elim (Bool-cases (covers user a x w)) [
  | inl c ↦ rw c (rw column-decrease (ground (arith, same_asset→eq a b)))
  | inr c ↦ rw c refl
]

pub balance_in-decrease :
    (user user' : ℕ) (a b : Asset) (x : ℤ) (ws : List Wallet)
    → IsKeyed ws
    → balance_in user' b (update_where (covers user a x) (decrease a x) ws) ≡ (
        if suffices x (balance_in user a ws) && (user == user' && same_asset a b)
        then minus x (balance_in user' b ws)
        else balance_in user' b ws)
balance_in-decrease user user' a b x [] h = ground arith
balance_in-decrease user user' a b x (w ∷ ws) h =
    step (deducted user a x w) (unfold deducted in refl) (deducted_owner user a x w)
      (column-deducted user a b x w) (balance_in-decrease user user' a b x ws h.1)
  where
    step :
        (w' : Wallet)
        → (if covers user a x w then decrease a x w else w) ≡ w'
        → w'.user_id ≡ w.user_id
        → column b w'
          ≡ (if covers user a x w && same_asset a b then column b w -ℤ x else column b w)
        → balance_in user' b (update_where (covers user a x) (decrease a x) ws) ≡ (
            if suffices x (balance_in user a ws) && (user == user' && same_asset a b)
            then minus x (balance_in user' b ws)
            else balance_in user' b ws)
        → balance_in user' b (update_where (covers user a x) (decrease a x) (w ∷ ws)) ≡ (
            if suffices x (balance_in user a (w ∷ ws)) && (user == user' && same_asset a b)
            then minus x (balance_in user' b (w ∷ ws))
            else balance_in user' b (w ∷ ws))
    step w' e owner col ih = rw e (ground (arith, balance_in_absent user a ws))

pub balance_in-increase :
    (user user' : ℕ) (a b : Asset) (x : ℤ) (ws : List Wallet)
    → balance_in user' b (update_where (owns user) (increase a x) ws) ≡ (
        if user == user' && same_asset a b
        then plus x (balance_in user' b ws)
        else balance_in user' b ws)
balance_in-increase user user' a b x [] = ground arith
balance_in-increase user user' a b x (w ∷ ws) = ground (
  arith,
  balance_in-increase user user' a b x ws,
  column-increase a b x w,
  increase_owner a x w,
  same_asset→eq a b,
)

-- For wallets with one row to a user: a deduction succeeds exactly if the user has a wallet that
-- holds the amount. Then it lowers that balance by the amount, and changes no other balance of any
-- user; a refused one leaves the database as it was.
pub deduct_balance-balance :
    (user user' : ℕ) (a b : Asset) (x : ℤ) (db : Db)
    → IsKeyed db.wallets
    → let (r, db') = Repository.deduct_balance user (some a) x db in
      if suffices x (balance user a db)
      then (r ≡ ok tt)
        × (balance user' b db' ≡ (
            if user == user' && same_asset a b
            then minus x (balance user' b db)
            else balance user' b db))
      else (r ≡ err insufficient_balance) × (db' ≡ db)
unfolding Repository.deduct_balance balance
deduct_balance-balance user user' a b x db h = ground (
  arith,
  count_where-covers user a x db.wallets h,
  balance_in-decrease user user' a b x db.wallets h,
)

-- An addition to a column always succeeds. It raises that balance by the amount if the user has a
-- wallet, and changes no other balance of any user.
pub add_balance-balance :
    (user user' : ℕ) (a b : Asset) (x : ℤ) (db : Db)
    → let (r, db') = Repository.add_balance user (some a) x db in
      (r ≡ ok tt)
      × (balance user' b db' ≡ (
          if user == user' && same_asset a b
          then plus x (balance user' b db)
          else balance user' b db))
unfolding Repository.add_balance balance
add_balance-balance user user' a b x db = (refl, balance_in-increase user user' a b x db.wallets)
