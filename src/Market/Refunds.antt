-- ===== src/Market/Refunds.antt =====
-- Rejecting and withdrawing an offer: RejectBuyRequest and DeleteBuyRequest.
use mathlib.Core.Path.{subst}
use microservice_metarang.Prelude.{
  ℕ, Bool, true, false, Option, none, some, List, [], ◌∷◌, ◌≡◌, refl, sym, ==_iff, ◌==◌, ◌&&◌,
  if◌then◌else◌, arith, Option-cases, Bool-cases, inl, inr,
}
use microservice_metarang.Prelude.Int.{ℤ}
use microservice_metarang.Prelude.Action.{Result, ok, err}
use microservice_metarang.Wallet.Row.{Asset, psc, irr, Db}
use microservice_metarang.Wallet.Repository.{wallet_not_found}
use microservice_metarang.Wallet.Balance.{balance, plus}
use microservice_metarang.Wallet.Calls.{
  has_wallet, after_add, add_balance_lem, has_wallet-after_add, balance-after_add,
}
use microservice_metarang.Market.Tables.{
  BuyRequest, LockedWallet, Market, Env, MarketError, unauthorized, locked_assets_not_found,
  wallet_failed,
}
use microservice_metarang.Market.Repository.{
  first, remove, is_live, find_request, get_locked, delete_locked, delete_request, locks_for,
}
use microservice_metarang.Market.Requests.{return_funds, reject_buy_request, delete_buy_request}

-- The database after a refund.
unfoldable pub refunded : ℕ → LockedWallet → Db → Db
refunded buyer l db = after_add buyer irr l.irr (after_add buyer psc l.psc db)

unfoldable pub closed : ℕ → Market → Market
closed id m = delete_request id (delete_locked id m)

pub return_funds_lem :
    (env : Env) (id : ℕ) (r : BuyRequest) (m : Market)
    → return_funds env id r m ≡ (elim (get_locked id m) [
      | none ↦ (err locked_assets_not_found, m)
      | some l ↦
          if env.has_client
          then (if has_wallet r.buyer_id m.commercial
              then (ok tt, closed id (record m { commercial = refunded r.buyer_id l m.commercial }))
              else (err (wallet_failed wallet_not_found), m))
          else (ok tt, closed id m)
    ])
unfolding return_funds refunded closed
return_funds_lem env id r m = elim (Option-cases (get_locked id m)) [
  | inl e ↦ rw e refl
  | inr (l, e) ↦ rw e (
      ground (
        arith,
        add_balance_lem r.buyer_id psc l.psc m.commercial,
        add_balance_lem r.buyer_id irr l.irr (after_add r.buyer_id psc l.psc m.commercial),
        has_wallet-after_add r.buyer_id r.buyer_id psc l.psc m.commercial,
      ))
]

-- A refusal changes nothing, whatever its reason: no wallet, no request and no lock.
pub reject_buy_request_atomic :
    (env : Env) (id seller : ℕ) (m : Market) {e : MarketError}
    → (reject_buy_request env id seller m).0 ≡ err e
    → (reject_buy_request env id seller m).1 ≡ m
unfolding reject_buy_request
reject_buy_request_atomic env id seller m h = elim (Option-cases (find_request id m)) [
  | inl n ↦ rw n refl
  | inr (r, s) ↦ ground (arith, return_funds_lem env id r m)
]

pub delete_buy_request_atomic :
    (env : Env) (id buyer : ℕ) (m : Market) {e : MarketError}
    → (delete_buy_request env id buyer m).0 ≡ err e
    → (delete_buy_request env id buyer m).1 ≡ m
unfolding delete_buy_request
delete_buy_request_atomic env id buyer m h = elim (Option-cases (find_request id m)) [
  | inl n ↦ rw n refl
  | inr (r, s) ↦ ground (arith, return_funds_lem env id r m)
]

pub first-remove_live :
    (id j : ℕ) (rs : List BuyRequest)
    → first (is_live j) (remove (λ r. r.id == id) rs)
      ≡ (if j == id then none else first (is_live j) rs)
first-remove_live id j [] = ground arith
first-remove_live id j (r ∷ rs) = ground (arith, first-remove_live id j rs)

pub first-remove_lock :
    (id j : ℕ) (ls : List LockedWallet)
    → first (locks_for j) (remove (locks_for id) ls)
      ≡ (if j == id then none else first (locks_for j) ls)
first-remove_lock id j [] = ground arith
first-remove_lock id j (l ∷ ls) = ground (arith, first-remove_lock id j ls)

-- What a balance is after a refund of the lock to the user.
abbrev pub with_refund : Asset → LockedWallet → Option ℤ → Option ℤ
with_refund psc l held = plus l.psc held
with_refund irr l held = plus l.irr held
with_refund other l held = held

balance-refunded :
    (buyer user : ℕ) (b : Asset) (l : LockedWallet) (db : Db)
    → balance user b (refunded buyer l db)
      ≡ (if buyer == user then with_refund b l (balance user b db) else balance user b db)
unfolding refunded
balance-refunded buyer user psc l db = rw (balance-after_add, balance-after_add) (ground arith)
balance-refunded buyer user b l db = rw (balance-after_add, balance-after_add) (ground arith)

-- The market after an offer was closed and its lock was paid back to the buyer.
abbrev pub IsRefunded : Env → ℕ → BuyRequest → LockedWallet → Market → Market → Type 0
IsRefunded env id r l m m' =
    ((j : ℕ) → find_request j m' ≡ (if j == id then none else find_request j m))
    × ((j : ℕ) → get_locked j m' ≡ (if j == id then none else get_locked j m))
    × ((user : ℕ) (b : Asset)
        → balance user b m'.commercial ≡ (
            if env.has_client && r.buyer_id == user
            then with_refund b l (balance user b m.commercial)
            else balance user b m.commercial))
    × (m'.features ≡ m.features)
    × (m'.transactions ≡ m.transactions)

closed-IsRefunded :
    (env : Env) (id : ℕ) (r : BuyRequest) (l : LockedWallet) (m : Market)
    → IsRefunded env id r l m (
        closed id (record m {
          commercial = if env.has_client then refunded r.buyer_id l m.commercial else m.commercial;
        }))
unfolding closed find_request get_locked delete_locked delete_request
closed-IsRefunded env id r l m = (
  λ j. first-remove_live id j m.requests,
  λ j. first-remove_lock id j m.locked_wallets,
  λ user b. elim (Bool-cases env.has_client) [
    | inl c ↦ rw c (balance-refunded r.buyer_id user b l m.commercial)
    | inr c ↦ rw c refl
  ],
  refl,
  refl,
)

return_funds_result :
    (env : Env) (id : ℕ) (r : BuyRequest) (l : LockedWallet) (m : Market)
    → get_locked id m ≡ some l
    → (return_funds env id r m).0 ≡ ok tt
    → (return_funds env id r m).1
      ≡ closed id (record m {
        commercial = if env.has_client then refunded r.buyer_id l m.commercial else m.commercial;
      })
return_funds_result env id r l m g h = ground (arith, return_funds_lem env id r m)

return_funds-IsRefunded :
    (env : Env) (id : ℕ) (r : BuyRequest) (l : LockedWallet) (m : Market)
    → get_locked id m ≡ some l
    → (return_funds env id r m).0 ≡ ok tt
    → IsRefunded env id r l m (return_funds env id r m).1
return_funds-IsRefunded env id r l m g h =
    subst (IsRefunded env id r l m) (sym (return_funds_result env id r l m g h))
      (closed-IsRefunded env id r l m)

-- A call that refunds if its caller is allowed to, and is refused otherwise.
guarded_refund :
    (env : Env) (id : ℕ) (allowed : Bool) (r : BuyRequest) (l : LockedWallet) (m : Market)
    → get_locked id m ≡ some l
    → let p : Result MarketError (Unit {0}) × Market =
        if allowed then return_funds env id r m else (err unauthorized, m) in
      p.0 ≡ ok tt → (allowed ≡ true) × IsRefunded env id r l m p.1
guarded_refund env id true r l m g h = (refl, return_funds-IsRefunded env id r l m g h)
guarded_refund env id false r l m g h = absurd (ground arith)

pub reject_found :
    (env : Env) (id seller : ℕ) (r : BuyRequest) (m : Market)
    → find_request id m ≡ some r
    → reject_buy_request env id seller m
      ≡ (if r.seller_id == seller then return_funds env id r m else (err unauthorized, m))
unfolding reject_buy_request
reject_found env id seller r m f = ground arith

pub delete_found :
    (env : Env) (id buyer : ℕ) (r : BuyRequest) (m : Market)
    → find_request id m ≡ some r
    → delete_buy_request env id buyer m
      ≡ (if r.buyer_id == buyer then return_funds env id r m else (err unauthorized, m))
unfolding delete_buy_request
delete_found env id buyer r m f = ground arith

-- If RejectBuyRequest succeeds on a live request with a lock, the caller is its seller. The request
-- and its lock are gone and every other one is still there; the buyer has got back the two locked
-- amounts, if the service has a wallet client; no other balance, no feature and no transaction has
-- changed.
pub reject_buy_request_refunds :
    (env : Env) (id seller : ℕ) (r : BuyRequest) (l : LockedWallet) (m : Market)
    → find_request id m ≡ some r
    → get_locked id m ≡ some l
    → (reject_buy_request env id seller m).0 ≡ ok tt
    → (r.seller_id ≡ seller) × IsRefunded env id r l m (reject_buy_request env id seller m).1
reject_buy_request_refunds env id seller r l m f g = rw (reject_found env id seller r m f) (λ h.
    let (allowed, paid) = guarded_refund env id (r.seller_id == seller) r l m g h in
    ((==_iff r.seller_id seller).0 allowed, paid))

-- The same of DeleteBuyRequest, whose caller is the buyer of the request: if it succeeds on a live
-- request with a lock, the request and its lock are gone and every other one is still there; the
-- buyer has got back the two locked amounts, if the service has a wallet client; no other balance,
-- no feature and no transaction has changed.
pub delete_buy_request_refunds :
    (env : Env) (id buyer : ℕ) (r : BuyRequest) (l : LockedWallet) (m : Market)
    → find_request id m ≡ some r
    → get_locked id m ≡ some l
    → (delete_buy_request env id buyer m).0 ≡ ok tt
    → (r.buyer_id ≡ buyer) × IsRefunded env id r l m (delete_buy_request env id buyer m).1
delete_buy_request_refunds env id buyer r l m f g = rw (delete_found env id buyer r m f) (λ h.
    let (allowed, paid) = guarded_refund env id (r.buyer_id == buyer) r l m g h in
    ((==_iff r.buyer_id buyer).0 allowed, paid))
