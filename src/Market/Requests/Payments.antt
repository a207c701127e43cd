-- ===== src/Market/Requests/Payments.antt =====
-- The wallet calls of marketplace_service.go, and its helpers that read `Env`.
use microservice_metarang.Prelude.{
  ℕ, Bool, true, false, Option, none, some, [], ◌∷◌, ◌++◌, ◌==◌, if◌then◌else◌,
}
use microservice_metarang.Prelude.Int.{ℤ, pos, ◌+ℤ◌, ◌-ℤ◌, ltb_ℤ}
use microservice_metarang.Prelude.Action.{Result, ok, err, pure, modify, ◌>>◌}
use microservice_metarang.Wallet.Row.{Asset, psc, irr}
use microservice_metarang.Wallet.Repository.{Call, Error as WalletError}
use microservice_metarang.Wallet.Client
use microservice_metarang.Market.Constants.{calculate_fee}
use microservice_metarang.Market.Tables.{
  BuyRequest, HourlyProfit, Transaction, Payable, for_trade, Market, Env, MarketError,
  wallet_failed, Step,
}
use microservice_metarang.Market.Repository.{create_trade, get_profit}

abbrev wrap : {A : Type 0} → Result WalletError A → Result MarketError A
wrap (ok a) = ok a
wrap (err e) = err (wallet_failed e)

-- A call of the commercial service whose error is passed on.
abbrev pub wallet : {A : Type 0} → Call A → Step A
wallet c m = let (r, db) = c m.commercial in (wrap r, record m { commercial = db })

-- AddBalance with its error dropped.
unfoldable pub credit : ℕ → Option Asset → ℤ → Market → Market
credit user a x m = record m { commercial = (Client.add_balance user a x m.commercial).1 }

abbrev pub when : Bool → Step (Unit {0}) → Step (Unit {0})
when true step = step
when false step = pure tt

-- `getUserVariableWithdrawProfit`, and the default that its callers put for zero.
abbrev days_or_default : Option ℕ → ℕ
days_or_default none = 10
days_or_default (some days) = if days == 0 then 10 else days

unfoldable pub withdraw_profit_days : Env → ℕ → ℕ
withdraw_profit_days env user = days_or_default (env.withdraw_profit user)

-- The age is never worked out: both branches of the source return false.
unfoldable pub is_user_under18 : Env → ℕ → Bool
is_user_under18 env user = elim (env.birthdate user) [ none ↦ false | some date ↦ false ]

unfoldable pub create_transaction : Transaction → Market → Market
create_transaction t m = record m { transactions = m.transactions ++ t ∷ [] }

abbrev pub transaction : ℕ → Asset → ℤ → Bool → ℕ → Payable → Transaction
transaction user a x is_deposit status payable = record {
  user_id = user;
  asset = a;
  amount = x;
  is_deposit = is_deposit;
  status = status;
  payable = payable;
}

unfoldable pub create_commission : ℕ → ℤ → ℤ → Market → Market
create_commission trade psc_fee irr_fee m = record m {
  commissions = m.commissions ++ record { trade_id = trade; psc = psc_fee; irr = irr_fee } ∷ [];
}

-- The platform's user is paid, if there is one.
unfoldable pub pay_platform : Option ℕ → ℤ → ℤ → Market → Market
pay_platform none psc_fee irr_fee m = m
pay_platform (some user) psc_fee irr_fee m =
    credit user (some irr) irr_fee (credit user (some psc) psc_fee m)

-- The trade of an accepted request, the seller's transactions and the commission.
unfoldable pub record_trade : Env → BuyRequest → ℕ → Market → Market
record_trade env r seller m =
    let trade = m.next_trade_id in
    let psc_fee = calculate_fee r.price_psc in
    let irr_fee = calculate_fee r.price_irr in
    let m1 = create_trade env.now r.feature_id r.buyer_id seller r.price_irr r.price_psc m in
    let m2 =
      create_transaction (transaction seller psc (r.price_psc -ℤ psc_fee) true 1 (for_trade trade))
        m1 in
    let m3 =
      create_transaction (transaction seller irr (r.price_irr -ℤ irr_fee) true 1 (for_trade trade))
        m2 in
    create_commission trade (psc_fee +ℤ psc_fee) (irr_fee +ℤ irr_fee) m3

-- The seller gets the price less the fee, and the platform twice the fee.
unfoldable pub pay_for_request : Env → BuyRequest → ℕ → Step (Unit {0})
pay_for_request env r seller = do
  wallet (Client.add_balance seller (some psc) (r.price_psc -ℤ calculate_fee r.price_psc))
  wallet (Client.add_balance seller (some irr) (r.price_irr -ℤ calculate_fee r.price_irr))
  modify (
      pay_platform env.rgb_user_id (calculate_fee r.price_psc +ℤ calculate_fee r.price_psc)
        (calculate_fee r.price_irr +ℤ calculate_fee r.price_irr))
  modify (record_trade env r seller)

-- The profit that has accrued to the old owner is paid out.
abbrev pay_positive : Option HourlyProfit → ℕ → Market → Market
pay_positive none seller m = m
pay_positive (some p) seller m =
    if ltb_ℤ (pos 0) p.amount then credit seller p.asset p.amount m else m

unfoldable pub pay_profit : Env → ℕ → ℕ → Market → Market
pay_profit env feature seller m =
    if env.has_client then pay_positive (get_profit feature seller m) seller m else m
