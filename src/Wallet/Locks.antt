-- ===== src/Wallet/Locks.antt =====
-- The total of an asset over wallets and locks, and LockBalance and UnlockBalance on it.
use microservice_metarang.Prelude.{
  ℕ, Bool, true, false, ◌&&◌, none, some, List, [], ◌∷◌, ◌++◌, ◌≡◌, ◌≢◌, refl, if◌then◌else◌, arith,
  inl, inr, Bool-cases,
}
use microservice_metarang.Prelude.Int.{
  ℤ, pos, ◌+ℤ◌, ◌-ℤ◌, int_laws, -ℤ-left, -ℤ-right, +ℤ-left, +ℤ-right, -ℤ-self, zero-+ℤ, eqb_ℤ→eq,
  eqb_ℤ_refl, move-ℤ-out, move-ℤ-none, move-ℤ-back,
}
use microservice_metarang.Prelude.Action.{ok}
use Prim.Native.String.{String}
use microservice_metarang.Wallet.Row.{Asset, same_asset, Wallet, LockedAsset, Db, column, increase}
use microservice_metarang.Wallet.Repository
use microservice_metarang.Wallet.Repository.{
  owns, covers, decrease, update_where, count_where, take_from, insufficient_balance, is_lock,
  delete_one, lock_balance, unlock_balance,
}
use microservice_metarang.Wallet.Columns.{
  column-increase, increase-decrease, set_column_owner, same_asset→eq, same_asset_refl,
}
use microservice_metarang.Wallet.Balance.{
  IsKeyed, balance_in, suffices, covers_absent, count_where-covers, deducted, column-deducted,
  balance_in_absent,
}

abbrev pub sum_wallets : Asset → List Wallet → ℤ
sum_wallets a [] = pos 0
sum_wallets a (w ∷ ws) = column a w +ℤ sum_wallets a ws

abbrev pub locked_amount : Asset → LockedAsset → ℤ
locked_amount a l = if same_asset l.asset a then l.amount else pos 0

abbrev pub sum_locks : Asset → List LockedAsset → ℤ
sum_locks a [] = pos 0
sum_locks a (l ∷ ls) = locked_amount a l +ℤ sum_locks a ls

-- All that there is of an asset, in wallets and in locks.
unfoldable pub total : Asset → Db → ℤ
total a db = sum_wallets a db.wallets +ℤ sum_locks a db.locked_assets

abbrev pub any_lock : (LockedAsset → Bool) → List LockedAsset → Bool
any_lock test [] = false
any_lock test (l ∷ ls) = if test l then true else any_lock test ls

pub update_where_absent :
    (test : Wallet → Bool) (set : Wallet → Wallet) (ws : List Wallet)
    → count_where test ws ≡ 0
    → update_where test set ws ≡ ws
update_where_absent test set [] h = refl
update_where_absent test set (w ∷ ws) h = ground (arith, update_where_absent test set ws)

pub sum_locks-append :
    (a : Asset) (ls ms : List LockedAsset)
    → sum_locks a (ls ++ ms) ≡ sum_locks a ls +ℤ sum_locks a ms
sum_locks-append a [] ms = omega int_laws
sum_locks-append a (l ∷ ls) ms = rw (sum_locks-append a ls ms) (omega int_laws)

sum_wallets-decrease :
    (user : ℕ) (a b : Asset) (x : ℤ) (ws : List Wallet)
    → IsKeyed ws
    → sum_wallets b (update_where (covers user a x) (decrease a x) ws) ≡ (
        if suffices x (balance_in user a ws) && same_asset a b
        then sum_wallets b ws -ℤ x
        else sum_wallets b ws)
sum_wallets-decrease user a b x [] h = refl
sum_wallets-decrease user a b x (w ∷ ws) h =
    step (deducted user a x w) (unfold deducted in refl) (column-deducted user a b x w)
      (sum_wallets-decrease user a b x ws h.1)
  where
    step :
        (w' : Wallet)
        → (if covers user a x w then decrease a x w else w) ≡ w'
        → column b w'
          ≡ (if covers user a x w && same_asset a b then column b w -ℤ x else column b w)
        → sum_wallets b (update_where (covers user a x) (decrease a x) ws) ≡ (
            if suffices x (balance_in user a ws) && same_asset a b
            then sum_wallets b ws -ℤ x
            else sum_wallets b ws)
        → sum_wallets b (update_where (covers user a x) (decrease a x) (w ∷ ws)) ≡ (
            if suffices x (balance_in user a (w ∷ ws)) && same_asset a b
            then sum_wallets b (w ∷ ws) -ℤ x
            else sum_wallets b (w ∷ ws))
    step w' e col ih =
        rw (e, col, ih)
          (ground (
            arith,
            balance_in_absent user a ws,
            -ℤ-left (column b w) (sum_wallets b ws) x,
            -ℤ-right (column b w) (sum_wallets b ws) x,
          ))

sum_wallets-absent :
    (user : ℕ) (set : Wallet → Wallet) (b : Asset) (ws : List Wallet)
    → count_where (owns user) ws ≡ 0
    → sum_wallets b (update_where (owns user) set ws) ≡ sum_wallets b ws
sum_wallets-absent user set b ws h = rw (update_where_absent (owns user) set ws h)

pub sum_wallets-increase :
    (user : ℕ) (a b : Asset) (x : ℤ) (ws : List Wallet)
    → IsKeyed ws
    → sum_wallets b (update_where (owns user) (increase a x) ws) ≡ (elim (balance_in user a ws) [
      | none ↦ sum_wallets b ws
      | some held ↦ if same_asset a b then sum_wallets b ws +ℤ x else sum_wallets b ws
    ])
sum_wallets-increase user a b x [] h = refl
sum_wallets-increase user a b x (w ∷ ws) h = elim (Bool-cases (owns user w)) [
  | inl o ↦
      rw (o, column-increase)
        (ground (
          arith,
          sum_wallets-absent user (increase a x) b ws,
          same_asset→eq a b,
          +ℤ-left (column b w) (sum_wallets b ws) x,
        ))
  | inr o ↦
      rw (o, sum_wallets-increase user a b x ws h.1)
        (ground (arith, +ℤ-right (column b w) (sum_wallets b ws) x))
]

sum_locks-delete_one :
    (user : ℕ) (a b : Asset) (x : ℤ) (ls : List LockedAsset)
    → sum_locks b (delete_one (is_lock user a x) ls) ≡ (
        if any_lock (is_lock user a x) ls && same_asset a b
        then sum_locks b ls -ℤ x
        else sum_locks b ls)
sum_locks-delete_one user a b x [] = refl
sum_locks-delete_one user a b x (l ∷ ls) = elim (Bool-cases (is_lock user a x l)) [
  | inl e ↦ rw e (
      ground (
        arith,
        same_asset→eq l.asset a,
        eqb_ℤ→eq l.amount x,
        -ℤ-self (sum_locks b ls) x,
        zero-+ℤ (sum_locks b ls),
      ))
  | inr e ↦
      rw (e, sum_locks-delete_one user a b x ls)
        (ground (arith, -ℤ-right (locked_amount b l) (sum_locks b ls) x))
]

-- For wallets with one row to a user, LockBalance creates and destroys nothing: the total of every
-- asset, wallets and locks together, is what it was, whether the call succeeds or is refused.
pub lock_balance-total :
    (user : ℕ) (a b : Asset) (x : ℤ) (reason : String) (db : Db)
    → IsKeyed db.wallets
    → total b (lock_balance user (some a) x reason db).1 ≡ total b db
unfolding lock_balance total
lock_balance-total user a b x reason db h =
    let l : LockedAsset = record { user_id = user; asset = a; amount = x; reason = reason } in
    ground (
      arith,
      count_where-covers user a x db.wallets h,
      sum_wallets-decrease user a b x db.wallets h,
      sum_locks-append b db.locked_assets (l ∷ []),
      move-ℤ-out (sum_wallets b db.wallets) (sum_locks b db.locked_assets) x,
      move-ℤ-none (sum_wallets b db.wallets) (sum_locks b db.locked_assets),
    )

-- For wallets with one row to a user, and a user with a wallet: UnlockBalance keeps the total of every
-- asset if a lock of exactly that user, asset and amount is on record; without one it adds the amount
-- to the total.
pub unlock_balance-total :
    (user : ℕ) (a b : Asset) (x : ℤ) (db : Db)
    → IsKeyed db.wallets
    → balance_in user a db.wallets ≢ none
    → total b (unlock_balance user (some a) x db).1 ≡ (
        if any_lock (is_lock user a x) db.locked_assets
        then total b db
        else if same_asset a b
        then total b db +ℤ x
        else total b db)
unfolding unlock_balance total
unlock_balance-total user a b x db h present = ground (
  arith,
  sum_wallets-increase user a b x db.wallets h,
  sum_locks-delete_one user a b x db.locked_assets,
  move-ℤ-back (sum_wallets b db.wallets) (sum_locks b db.locked_assets) x,
  +ℤ-left (sum_wallets b db.wallets) (sum_locks b db.locked_assets) x,
)

pub update_where_back :
    (user : ℕ) (a : Asset) (x : ℤ) (ws : List Wallet)
    → IsKeyed ws
    → count_where (covers user a x) ws ≢ 0
    → update_where (owns user) (increase a x) (update_where (covers user a x) (decrease a x) ws)
      ≡ ws
update_where_back user a x [] h p = absurd (p refl)
update_where_back user a x (w ∷ ws) h p = elim (Bool-cases (owns user w)) [
  | inl o ↦ ground (
    arith,
    covers_absent user a x ws,
    update_where_absent (covers user a x) (decrease a x) ws,
    update_where_absent (owns user) (increase a x) ws,
    increase-decrease a x w,
    set_column_owner a (column a w -ℤ x) w,
  )
  | inr o ↦ ground (arith, update_where_back user a x ws h.1)
]

delete_one-append :
    (test : LockedAsset → Bool) (ls : List LockedAsset) (l : LockedAsset)
    → any_lock test ls ≡ false
    → test l ≡ true
    → delete_one test (ls ++ l ∷ []) ≡ ls
delete_one-append test [] l h e = rw e refl
delete_one-append test (k ∷ ls) l h e = ground (arith, delete_one-append test ls l)

-- For wallets with one row to a user, a lock that succeeded is undone by the unlock of the same
-- amount: the database is what it was before, if no equal lock stood there already.
pub unlock_balance-lock_balance :
    (user : ℕ) (a : Asset) (x : ℤ) (reason : String) (db : Db)
    → IsKeyed db.wallets
    → any_lock (is_lock user a x) db.locked_assets ≡ false
    → (lock_balance user (some a) x reason db).0 ≡ ok tt
    → unlock_balance user (some a) x (lock_balance user (some a) x reason db).1 ≡ (ok tt, db)
unfolding lock_balance unlock_balance
unlock_balance-lock_balance user a x reason db h fresh done =
    let l : LockedAsset = record { user_id = user; asset = a; amount = x; reason = reason } in
    let e : is_lock user a x l ≡ true = ground (arith, eqb_ℤ_refl x, same_asset_refl a) in
    ground (
      arith,
      update_where_back user a x db.wallets h,
      delete_one-append (is_lock user a x) db.locked_assets l fresh e,
    )

-- For wallets with one row to a user, AddBalance after a DeductBalance that succeeded, of the same
-- amount, gives the database back as it was.
pub add_balance-deduct_balance :
    (user : ℕ) (a : Asset) (x : ℤ) (db : Db)
    → IsKeyed db.wallets
    → (Repository.deduct_balance user (some a) x db).0 ≡ ok tt
    → Repository.add_balance user (some a) x (Repository.deduct_balance user (some a) x db).1
      ≡ (ok tt, db)
unfolding Repository.deduct_balance Repository.add_balance
add_balance-deduct_balance user a x db h done =
    ground (arith, update_where_back user a x db.wallets h)
