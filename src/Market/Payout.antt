-- ===== src/Market/Payout.antt =====
-- What an accepted offer pays to the seller and to the platform.
use microservice_metarang.Prelude.{
  ℕ, ◌*◌, ◌^◌, Option, true, false, some, ◌≡◌, refl, ◌∙◌, arith, ◌==◌, ==_refl, if◌then◌else◌,
}
use microservice_metarang.Prelude.Int.{ℤ, pos, ◌+ℤ◌, ◌-ℤ◌}
use microservice_metarang.Wallet.Row.{psc, irr, Db}
use microservice_metarang.Wallet.Balance.{balance, plus}
use microservice_metarang.Wallet.Calls.{
  has_wallet, after_add, add_balance_lem, has_wallet-after_add, balance-after_add,
}
use microservice_metarang.Market.Constants.{calculate_fee, calculate_buyer_charge}
use microservice_metarang.Market.Tables.{BuyRequest, Market, Env}
use microservice_metarang.Market.Repository.{create_trade}
use microservice_metarang.Market.Requests.{
  credit, pay_platform, record_trade, create_transaction, create_commission, pay_for_request,
}
use microservice_metarang.Market.Acceptance.{pay_for_request_lem, paid, seller_paid}

record_trade_commercial :
    (env : Env) (r : BuyRequest) (seller : ℕ) (m : Market)
    → (record_trade env r seller m).commercial ≡ m.commercial
unfolding record_trade create_transaction create_commission create_trade
record_trade_commercial env r seller m = refl

credit_commercial :
    (user : ℕ) (x y : ℤ) (m : Market)
    → has_wallet user m.commercial ≡ true
    → (credit user (some irr) y (credit user (some psc) x m)).commercial
      ≡ after_add user irr y (after_add user psc x m.commercial)
unfolding credit
credit_commercial user x y m h = ground (
  arith,
  add_balance_lem user psc x m.commercial,
  add_balance_lem user irr y (after_add user psc x m.commercial),
  has_wallet-after_add user user psc x m.commercial,
)

-- Additions of PSC and of IRR to one wallet.
abbrev both : ℕ → ℤ → ℤ → Db → Db
both user x y db = after_add user irr y (after_add user psc x db)

has_wallet-both :
    (user user' : ℕ) (x y : ℤ) (db : Db) → has_wallet user' (both user x y db) ≡ has_wallet user' db
has_wallet-both user user' x y db =
    has_wallet-after_add user user' irr y (after_add user psc x db)
    ∙ has_wallet-after_add user user' psc x db

balance-both :
    (user user' : ℕ) (x y : ℤ) (db : Db)
    → (balance user' psc (both user x y db)
        ≡ (if user == user' then plus x (balance user' psc db) else balance user' psc db))
      × (balance user' irr (both user x y db)
          ≡ (if user == user' then plus y (balance user' irr db) else balance user' irr db))
balance-both user user' x y db = (
  rw
      (
        balance-after_add user user' irr psc y (after_add user psc x db),
        balance-after_add user user' psc psc x db,
      )
      (ground arith),
  rw
      (
        balance-after_add user user' irr irr y (after_add user psc x db),
        balance-after_add user user' psc irr x db,
      )
      (ground arith),
)

pay_platform_commercial :
    (o : Option ℕ) (user : ℕ) (x y : ℤ) (m : Market)
    → o ≡ some user
    → has_wallet user m.commercial ≡ true
    → (pay_platform o x y m).commercial ≡ both user x y m.commercial
unfolding pay_platform
pay_platform_commercial o user x y m e h = rw e (credit_commercial user x y m h)

-- The tables after a payment for an accepted offer.
pay_for_request_commercial :
    (env : Env) (r : BuyRequest) (seller platform : ℕ) (m : Market)
    → env.rgb_user_id ≡ some platform
    → has_wallet seller m.commercial ≡ true
    → has_wallet platform m.commercial ≡ true
    → (pay_for_request env r seller m).1.commercial
      ≡ both platform
          (calculate_fee r.price_psc +ℤ calculate_fee r.price_psc)
          (calculate_fee r.price_irr +ℤ calculate_fee r.price_irr)
          (both seller
            (r.price_psc -ℤ calculate_fee r.price_psc)
            (r.price_irr -ℤ calculate_fee r.price_irr)
            m.commercial)
pay_for_request_commercial env r seller platform m e s p =
    let left = r.price_psc -ℤ calculate_fee r.price_psc in
    let right = r.price_irr -ℤ calculate_fee r.price_irr in
    let x = calculate_fee r.price_psc +ℤ calculate_fee r.price_psc in
    let y = calculate_fee r.price_irr +ℤ calculate_fee r.price_irr in
    let m' : Market = record m { commercial = both seller left right m.commercial } in
    rw (pay_for_request_lem env r seller m, s)
      (unfold paid seller_paid in
        record_trade_commercial env r seller (pay_platform env.rgb_user_id x y m')
        ∙ pay_platform_commercial env.rgb_user_id platform x y m' e
            (has_wallet-both seller platform left right m.commercial ∙ p))

-- A twentieth of a price, and the price with it and without it.
twentieth :
    (n : ℕ)
    → (calculate_fee (pos (20 * n)) ≡ pos n)
      × (pos (20 * n) -ℤ pos n ≡ pos (19 * n))
      × (pos n +ℤ pos n ≡ pos (2 * n))
      × (calculate_buyer_charge (pos (20 * n)) ≡ pos (21 * n))
unfolding calculate_fee calculate_buyer_charge ◌+ℤ◌ ◌-ℤ◌
twentieth n = (ground arith, ground arith, ground arith, ground arith)

-- The balances of two users after additions to both.
balance-two :
    (user user' : ℕ) (x y x' y' : ℤ) (db : Db)
    → (user == user') ≡ false
    → let db' = both user' x' y' (both user x y db) in
      (balance user psc db' ≡ plus x (balance user psc db))
      × (balance user irr db' ≡ plus y (balance user irr db))
      × (balance user' psc db' ≡ plus x' (balance user' psc db))
      × (balance user' irr db' ≡ plus y' (balance user' irr db))
balance-two user user' x y x' y' db d =
    let (a, b) = balance-both user' user x' y' (both user x y db) in
    let (a', b') = balance-both user' user' x' y' (both user x y db) in
    let (c, f) = balance-both user user x y db in
    let (c', f') = balance-both user user' x y db in
    (
      rw (a, c, ==_refl user) (ground (arith, d)),
      rw (b, f, ==_refl user) (ground (arith, d)),
      rw (a', c', ==_refl user', d) refl,
      rw (b', f', ==_refl user', d) refl,
    )

-- If the seller and the user of the platform are two users with wallets, and the prices are twenty
-- times a number of units of PSC and twenty times a number of whole rials, of each of which the buyer
-- was charged 21 parts when the offer was made: the payment for an accepted offer raises the balances
-- of the seller by 19 parts and those of the platform by two.
pub pay_for_request_shares :
    (env : Env) (r : BuyRequest) (seller platform j k : ℕ) (m : Market)
    → r.price_psc ≡ pos (20 * j)
    → r.price_irr ≡ pos (20 * (10 ^ 10 * k))
    → env.rgb_user_id ≡ some platform
    → has_wallet seller m.commercial ≡ true
    → has_wallet platform m.commercial ≡ true
    → (seller == platform) ≡ false
    → let i = 10 ^ 10 * k in
      let db = (pay_for_request env r seller m).1.commercial in
      (calculate_buyer_charge r.price_psc ≡ pos (21 * j))
      × (calculate_buyer_charge r.price_irr ≡ pos (21 * i))
      × (balance seller psc db ≡ plus (pos (19 * j)) (balance seller psc m.commercial))
      × (balance seller irr db ≡ plus (pos (19 * i)) (balance seller irr m.commercial))
      × (balance platform psc db ≡ plus (pos (2 * j)) (balance platform psc m.commercial))
      × (balance platform irr db ≡ plus (pos (2 * i)) (balance platform irr m.commercial))
pay_for_request_shares env r seller platform j k m hp hi e s p d =
    let i = 10 ^ 10 * k in
    let (f, l, t, c) = twentieth j in
    let (f', l', t', c') = twentieth i in
    let (sp, si, pp, pi) =
      balance-two seller platform (pos (19 * j)) (pos (19 * i)) (pos (2 * j)) (pos (2 * i))
        m.commercial d in
    rw (pay_for_request_commercial env r seller platform m e s p, hp, hi, f, f', l, l', t, t')
      (c, c', sp, si, pp, pi)
