-- ===== src/Wallet/Solvency.antt =====
-- Sequences of calls of the wallet service.
use Prim.Native.String.{String}
use microservice_metarang.Prelude.{
  ℕ, true, Option, none, some, List, [], ◌∷◌, ◌≡◌, ◌==◌, if◌then◌else◌, arith, inl, inr, Bool-cases,
  All, leb→le,
}
use microservice_metarang.Prelude.Int.{ℤ, pos, leb_ℤ, ◌≤ℤ◌, int_laws}
use microservice_metarang.Wallet.Row.{Asset, same_asset, Wallet, Db, column, increase}
use microservice_metarang.Wallet.Repository.{owns, covers, decrease, update_where, count_where}
use microservice_metarang.Wallet.Repository
use microservice_metarang.Wallet.Service
use microservice_metarang.Wallet.Columns.{column-decrease, column-increase}

-- Every balance of the wallet is zero or more.
abbrev pub IsSolvent : Wallet → Type 0
IsSolvent w = (a : Asset) → pos 0 ≤ℤ column a w

-- A call of the wallet service by another service.
pub data Request : Type 0 where
  deduct : ℕ → Option Asset → ℤ → Request
  add : ℕ → Option Asset → ℤ → Request
  lock : ℕ → Option Asset → ℤ → String → Request
  unlock : ℕ → Option Asset → ℤ → Request

-- What is added or unlocked is zero or more; what is deducted or locked may be any amount.
abbrev pub IsSound : Request → Type 0
IsSound (add user a x) = pos 0 ≤ℤ x
IsSound (unlock user a x) = pos 0 ≤ℤ x
IsSound other = Unit

unfoldable pub serve : Request → Db → Db
unfolding Service.deduct_balance Service.add_balance Service.lock_balance Service.unlock_balance
serve (deduct user a x) db = (Service.deduct_balance user a x db).1
serve (add user a x) db = (Service.add_balance user a x db).1
serve (lock user a x reason) db = (Service.lock_balance user a x reason db).1
serve (unlock user a x) db = (Service.unlock_balance user a x db).1

unfoldable pub serve_all : List Request → Db → Db
serve_all [] db = db
serve_all (r ∷ rs) db = serve_all rs (serve r db)

decrease-IsSolvent :
    (a : Asset) (x : ℤ) (w : Wallet)
    → IsSolvent w
    → leb_ℤ x (column a w) ≡ true
    → IsSolvent (decrease a x w)
decrease-IsSolvent a x w h e b =
    let enough : x ≤ℤ column a w = leb→le _ _ e in
    rw (column-decrease a b x w)
      (elim (Bool-cases (same_asset a b)) [ inl s ↦ rw s (omega int_laws) | inr s ↦ rw s (h b) ])

increase-IsSolvent :
    (a : Asset) (x : ℤ) (w : Wallet) → IsSolvent w → pos 0 ≤ℤ x → IsSolvent (increase a x w)
increase-IsSolvent a x w h p b =
    let held : pos 0 ≤ℤ column a w = h a in
    rw (column-increase a b x w)
      (elim (Bool-cases (same_asset a b)) [ inl s ↦ rw s (omega int_laws) | inr s ↦ rw s (h b) ])

deducted-IsSolvent :
    (user : ℕ) (a : Asset) (x : ℤ) (ws : List Wallet)
    → All IsSolvent ws
    → All IsSolvent (update_where (covers user a x) (decrease a x) ws)
deducted-IsSolvent user a x [] h = tt
deducted-IsSolvent user a x (w ∷ ws) h = (head, deducted-IsSolvent user a x ws h.1)
  where
    head : IsSolvent (if covers user a x w then decrease a x w else w)
    head = elim (Bool-cases (covers user a x w)) [
      | inl e ↦ rw e (decrease-IsSolvent a x w h.0 (ground arith))
      | inr e ↦ rw e h.0
    ]

credited-IsSolvent :
    (user : ℕ) (a : Asset) (x : ℤ) (ws : List Wallet)
    → pos 0 ≤ℤ x
    → All IsSolvent ws
    → All IsSolvent (update_where (owns user) (increase a x) ws)
credited-IsSolvent user a x [] p h = tt
credited-IsSolvent user a x (w ∷ ws) p h = (head, credited-IsSolvent user a x ws p h.1)
  where
    head : IsSolvent (if owns user w then increase a x w else w)
    head = elim (Bool-cases (owns user w)) [
      | inl e ↦ rw e (increase-IsSolvent a x w h.0 p)
      | inr e ↦ rw e h.0
    ]

deduct-IsSolvent :
    (user : ℕ) (a : Option Asset) (x : ℤ) (db : Db)
    → All IsSolvent db.wallets
    → All IsSolvent (Repository.deduct_balance user a x db).1.wallets
unfolding Repository.deduct_balance
deduct-IsSolvent user none x db h = h
deduct-IsSolvent user (some a) x db h =
    elim (Bool-cases (count_where (covers user a x) db.wallets == 0)) [
      | inl e ↦ rw (e, All) h
      | inr e ↦ rw (e, All) (deducted-IsSolvent user a x db.wallets h)
    ]

lock-IsSolvent :
    (user : ℕ) (a : Option Asset) (x : ℤ) (reason : String) (db : Db)
    → All IsSolvent db.wallets
    → All IsSolvent (Repository.lock_balance user a x reason db).1.wallets
unfolding Repository.lock_balance
lock-IsSolvent user none x reason db h = h
lock-IsSolvent user (some a) x reason db h =
    elim (Bool-cases (count_where (covers user a x) db.wallets == 0)) [
      | inl e ↦ rw (e, All) h
      | inr e ↦ rw (e, All) (deducted-IsSolvent user a x db.wallets h)
    ]

add-IsSolvent :
    (user : ℕ) (a : Option Asset) (x : ℤ) (db : Db)
    → pos 0 ≤ℤ x
    → All IsSolvent db.wallets
    → All IsSolvent (Repository.add_balance user a x db).1.wallets
unfolding Repository.add_balance
add-IsSolvent user none x db p h = h
add-IsSolvent user (some a) x db p h = credited-IsSolvent user a x db.wallets p h

-- The read that follows an update leaves the database alone.
get_wallet_reads : (user : ℕ) (db : Db) → (Service.get_wallet user db).1 ≡ db
unfolding Service.get_wallet
get_wallet_reads user db = ground arith

pub deduct_balance_writes :
    (user : ℕ) (a : Option Asset) (x : ℤ) (db : Db)
    → (Service.deduct_balance user a x db).1 ≡ (Repository.deduct_balance user a x db).1
unfolding Service.deduct_balance Repository.deduct_balance
deduct_balance_writes user a x db = ground arith

pub add_balance_writes :
    (user : ℕ) (a : Option Asset) (x : ℤ) (db : Db)
    → (Service.add_balance user a x db).1 ≡ (Repository.add_balance user a x db).1
unfolding Service.add_balance Repository.add_balance
add_balance_writes user a x db = ground arith

serve-IsSolvent :
    (r : Request) (db : Db)
    → IsSound r
    → All IsSolvent db.wallets
    → All IsSolvent (serve r db).wallets
unfolding serve
serve-IsSolvent (deduct user a x) db p h =
    rw (deduct_balance_writes user a x db) (deduct-IsSolvent user a x db h)
serve-IsSolvent (add user a x) db p h =
    rw (add_balance_writes user a x db) (add-IsSolvent user a x db p h)
serve-IsSolvent (lock user a x reason) db p h = lock-IsSolvent user a x reason db h
serve-IsSolvent (unlock user none x) db p h = h
serve-IsSolvent (unlock user (some a) x) db p h = credited-IsSolvent user a x db.wallets p h

-- Whatever calls of the wallet service are made, in any order, by any users and on any assets: if
-- no balance is below zero and no call adds or unlocks a negative amount, no balance ever is.
pub serve_all-IsSolvent :
    (rs : List Request) (db : Db)
    → All IsSound rs
    → All IsSolvent db.wallets
    → All IsSolvent (serve_all rs db).wallets
unfolding serve_all
serve_all-IsSolvent [] db p h = h
serve_all-IsSolvent (r ∷ rs) db p h =
    serve_all-IsSolvent rs (serve r db) p.1 (serve-IsSolvent r db p.0 h)
