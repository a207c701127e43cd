-- ===== src/Profit/Withdrawals.antt =====
-- services/features-service/internal/service/profit_service.go: GetProfitsByApplication pays every
-- profit of a type once.
use microservice_metarang.Prelude.{
  ℕ, Bool, true, false, not, ◌&&◌, ◌||◌, Option, none, some, List, [], ◌∷◌, ◌≡◌, refl, ap, ◌∙◌, inl,
  inr, arith, ◌==◌, ==_refl, if◌then◌else◌, Bool-cases, All,
}
use microservice_metarang.Prelude.Int.{ℤ, pos, ◌+ℤ◌, ltb_ℤ, leb_ℤ, eqb_ℤ, int_laws}
use microservice_metarang.Prelude.Rows.{select, change}
use microservice_metarang.Prelude.Action.{ok}
use microservice_metarang.Wallet.Row.{Asset, Db, same_asset}
use microservice_metarang.Wallet.Columns.{same_asset→eq}
use microservice_metarang.Wallet.Balance.{balance, plus}
use microservice_metarang.Wallet.Calls.{
  has_wallet, after_add, add_balance_lem, has_wallet-after_add, balance-after_add,
}
use microservice_metarang.Market.Constants.{Karbari}
use microservice_metarang.Profit.Tables.{
  FeatureHourlyProfit, Profits, Env, emptied, reset_profit_and_update_deadline, belongs,
  get_all_by_user_and_karbari,
}
use microservice_metarang.Profit.Service.{
  pay_out, withdraw_profit_days, withdraw_all, total_amount, asset_of, get_profits_by_application,
}

-- What the rows owe a user in an asset.
abbrev pub owed : ℕ → Asset → Profits → ℤ
owed user a m = total_amount (select (belongs user a) m.rows)

abbrev has_id : ℕ → List FeatureHourlyProfit → Bool
has_id id [] = false
has_id id (p ∷ ps) = (p.id == id) || has_id id ps

-- The rows after all these profits have been emptied.
abbrev emptied_all :
    Env → ℕ → List FeatureHourlyProfit → List FeatureHourlyProfit → List FeatureHourlyProfit
emptied_all env days [] rows = rows
emptied_all env days (p ∷ ps) rows =
    emptied_all env days ps (change (λ q. q.id == p.id) (emptied env days) rows)

-- A row of the user owes nothing, or is among those to come.
abbrev settles : ℕ → Asset → List FeatureHourlyProfit → FeatureHourlyProfit → Bool
settles user a ps r = not (belongs user a r) || (eqb_ℤ r.amount (pos 0) || has_id r.id ps)

All-settles :
    (user : ℕ) (a : Asset) (ps rows : List FeatureHourlyProfit)
    → ((id : ℕ) → has_id id (select (belongs user a) rows) ≡ true → has_id id ps ≡ true)
    → All (λ r. settles user a ps r ≡ true) rows
All-settles user a ps [] h = tt
All-settles user a ps (r ∷ rows) h = elim (Bool-cases (belongs user a r)) [
  | inr e ↦ (rw e refl, All-settles user a ps rows (λ id k. h id (rw e k)))
  | inl e ↦ (
    rw (h r.id (rw (e, ==_refl r.id) refl)) (ground arith),
    All-settles user a ps rows (λ id k. h id (rw (e, k) (ground arith))),
  )
]

settles-change :
    (env : Env) (days user : ℕ) (a : Asset) (p : FeatureHourlyProfit)
    (ps rows : List FeatureHourlyProfit)
    → All (λ r. settles user a (p ∷ ps) r ≡ true) rows
    → All (λ r. settles user a ps r ≡ true) (change (λ q. q.id == p.id) (emptied env days) rows)
settles-change env days user a p ps [] h = tt
settles-change env days user a p ps (r ∷ rows) h =
    (ground (arith, h.0), settles-change env days user a p ps rows h.1)

total_amount-settled :
    (user : ℕ) (a : Asset) (rows : List FeatureHourlyProfit)
    → All (λ r. settles user a [] r ≡ true) rows
    → total_amount (select (belongs user a) rows) ≡ pos 0
total_amount-settled user a [] h = refl
total_amount-settled user a (r ∷ rows) h =
    let t = total_amount-settled user a rows h.1 in
    elim (Bool-cases (belongs user a r)) [
      | inr e ↦ rw e t
      | inl e ↦ rw (e, t) (grind (int_laws, h.0, e))
    ]

emptied_all-owed :
    (env : Env) (days user : ℕ) (a : Asset) (ps rows : List FeatureHourlyProfit)
    → All (λ r. settles user a ps r ≡ true) rows
    → total_amount (select (belongs user a) (emptied_all env days ps rows)) ≡ pos 0
emptied_all-owed env days user a [] rows h = total_amount-settled user a rows h
emptied_all-owed env days user a (p ∷ ps) rows h =
    emptied_all-owed env days user a ps _ (settles-change env days user a p ps rows h)

abbrev credited : ℕ → FeatureHourlyProfit → Db → Db
credited user p db = if ltb_ℤ (pos 0) p.amount then after_add user p.asset p.amount db else db

abbrev credit_all : ℕ → List FeatureHourlyProfit → Db → Db
credit_all user [] db = db
credit_all user (p ∷ ps) db = credit_all user ps (credited user p db)

pay_out-pays :
    (env : Env) (user : ℕ) (p : FeatureHourlyProfit) (m : Profits)
    → env.has_client ≡ true
    → has_wallet user m.commercial ≡ true
    → pay_out env user p m ≡ (ok tt, record m { commercial = credited user p m.commercial })
unfolding pay_out
pay_out-pays env user p m c w = elim (Bool-cases (ltb_ℤ (pos 0) p.amount)) [
  | inl e ↦ rw (e, c, add_balance_lem user p.asset p.amount m.commercial, w) refl
  | inr e ↦ rw e refl
]

has_wallet-credited :
    (user : ℕ) (p : FeatureHourlyProfit) (db : Db)
    → has_wallet user db ≡ true
    → has_wallet user (credited user p db) ≡ true
has_wallet-credited user p db w = elim (Bool-cases (ltb_ℤ (pos 0) p.amount)) [
  | inl e ↦ rw (e, has_wallet-after_add user user p.asset p.amount db) w
  | inr e ↦ rw e w
]

withdraw_all_lem :
    (env : Env) (user days : ℕ) (ps : List FeatureHourlyProfit) (m : Profits)
    → env.has_client ≡ true
    → has_wallet user m.commercial ≡ true
    → withdraw_all env user days ps m ≡ record m {
      commercial = credit_all user ps m.commercial;
      rows = emptied_all env days ps m.rows;
    }
unfolding reset_profit_and_update_deadline
withdraw_all_lem env user days [] m c w = refl
withdraw_all_lem env user days (p ∷ ps) m c w =
    rw (pay_out-pays env user p m c w)
      (withdraw_all_lem env user days ps _ c (has_wallet-credited user p m.commercial w))

-- A profit of the user in the asset that is not negative.
abbrev is_payable : ℕ → Asset → FeatureHourlyProfit → Bool
is_payable user a p = belongs user a p && leb_ℤ (pos 0) p.amount

All-is_payable :
    (user : ℕ) (a : Asset) (rows : List FeatureHourlyProfit)
    → All (λ p. leb_ℤ (pos 0) p.amount ≡ true) rows
    → All (λ p. is_payable user a p ≡ true) (select (belongs user a) rows)
All-is_payable user a [] h = tt
All-is_payable user a (r ∷ rows) h =
    let t = All-is_payable user a rows h.1 in
    elim (Bool-cases (belongs user a r)) [ inr e ↦ rw e t | inl e ↦ rw e (rw e h.0, t) ]

plus-plus : (x y : ℤ) (o : Option ℤ) → plus y (plus x o) ≡ plus (x +ℤ y) o
plus-plus x y none = refl
plus-plus x y (some z) = ap some (omega int_laws)

plus-zero : (x : ℤ) (o : Option ℤ) → leb_ℤ (pos 0) x ≡ true → ltb_ℤ (pos 0) x ≡ false → plus x o ≡ o
plus-zero x none h k = refl
plus-zero x (some z) h k = ap some (grind (int_laws, h, k))

balance-credited :
    (user user' : ℕ) (a b : Asset) (p : FeatureHourlyProfit) (db : Db)
    → is_payable user a p ≡ true
    → balance user' b (credited user p db) ≡ (
        if user == user' && same_asset a b
        then plus p.amount (balance user' b db)
        else balance user' b db)
balance-credited user user' a b p db h =
    let f = same_asset→eq a p.asset (ground (arith, h)) in
    elim (Bool-cases (ltb_ℤ (pos 0) p.amount)) [
      | inl e ↦ rw (e, f) (balance-after_add user user' p.asset b p.amount db)
      | inr e ↦ rw e (ground (arith, plus-zero p.amount (balance user' b db) (ground (arith, h)) e))
    ]

plus-none : (o : Option ℤ) → plus (pos 0) o ≡ o
plus-none none = refl
plus-none (some z) = ap some (omega int_laws)

balance-credit_all :
    (user user' : ℕ) (a b : Asset) (ps : List FeatureHourlyProfit) (db : Db)
    → All (λ p. is_payable user a p ≡ true) ps
    → balance user' b (credit_all user ps db) ≡ (
        if user == user' && same_asset a b
        then plus (total_amount ps) (balance user' b db)
        else balance user' b db)
balance-credit_all user user' a b [] db h = ground (arith, plus-none (balance user' b db))
balance-credit_all user user' a b (p ∷ ps) db h =
    balance-credit_all user user' a b ps (credited user p db) h.1
    ∙ rw (balance-credited user user' a b p db h.0)
        (ground (arith, plus-plus p.amount (total_amount ps) (balance user' b db)))

-- GetProfitsByApplication for one of the three types, with a client and for a user with a wallet, if
-- no profit is negative: it returns what the profits of the user in the asset of the type amount to,
-- adds that to the balance of the asset and to no other, and leaves nothing of it owed.
pub get_profits_by_application-balance :
    (env : Env) (user : ℕ) (k : Karbari) (a : Asset) (m : Profits) (user' : ℕ) (b : Asset)
    → asset_of k ≡ some a
    → env.has_client ≡ true
    → has_wallet user m.commercial ≡ true
    → All (λ p. leb_ℤ (pos 0) p.amount ≡ true) m.rows
    → let (r, n) = get_profits_by_application env user k m in
      (r ≡ ok (owed user a m))
      × (balance user' b n.commercial ≡ (
          if user == user' && same_asset a b
          then plus (owed user a m) (balance user' b m.commercial)
          else balance user' b m.commercial))
      × (owed user a n ≡ pos 0)
unfolding get_profits_by_application get_all_by_user_and_karbari
get_profits_by_application-balance env user k a m user' b e c w h =
    let ps = select (belongs user a) m.rows in
    let days = withdraw_profit_days env user in
    rw (e, withdraw_all_lem env user days ps m c w)
      (
        refl,
        balance-credit_all user user' a b ps m.commercial (All-is_payable user a m.rows h),
        emptied_all-owed env days user a ps m.rows (All-settles user a ps m.rows (λ id t. t)),
      )
