-- ===== src/Market/Requests/Send.antt =====
-- `SendBuyRequest` of marketplace_service.go.
use Prim.Native.String.{String}
use microservice_metarang.Prelude.{ℕ, ◌*◌, ◌^◌, Bool, false, not, ◌&&◌, some, ◌==◌, if◌then◌else◌}
use microservice_metarang.Prelude.Int.{scale, ℤ, pos, ◌+ℤ◌, ltb_ℤ, eqb_ℤ}
use microservice_metarang.Prelude.Action.{
  Result, ok, err, pure, fail, gets, or_fail, fail_if, modify, ◌>>=◌, ◌>>◌,
}
use microservice_metarang.Wallet.Row.{Asset, psc, irr}
use microservice_metarang.Wallet.Client
use microservice_metarang.Wallet.Repository.{Error as WalletError}
use microservice_metarang.Market.Constants.{calculate_buyer_charge, get_color}
use microservice_metarang.Market.Tables.{
  Feature, BuyRequest, for_request, Market, Env, request_not_found, feature_not_found,
  already_pending, zero_price, below_floor, insufficient_psc, insufficient_irr, wallet_failed, Step,
}
use microservice_metarang.Market.Repository.{
  find_request, has_pending_request, create_request, create_locked, find_feature,
}
use microservice_metarang.Market.Requests.Payments.{
  wallet, credit, when, create_transaction, transaction,
}

-- The value of an offer and of a feature, in units of 10⁻²⁰: an amount and a rate count units of
-- 10⁻¹⁰ each.
unfoldable pub requested_price : Env → ℤ → ℤ → ℤ
requested_price env price_psc price_irr = scale (10 ^ 10) price_irr +ℤ scale env.psc_rate price_psc

unfoldable pub feature_price : Env → Feature → ℕ
feature_price env f = f.stability * env.color_rate (get_color f.karbari)

-- `requested / total * 100 < floor`. For a total of zero the quotient of the source is infinite, or
-- no number, and only that of a negative offer is below the floor.
unfoldable pub is_below_floor : ℤ → ℕ → ℕ → Bool
is_below_floor requested total floor =
    if total == 0
    then ltb_ℤ requested (pos 0)
    else ltb_ℤ (scale 100 requested) (pos (floor * total))

-- CheckBalance with its error dropped.
abbrev pub answered : Result WalletError Bool → Bool
answered (ok b) = b
answered (err e) = false

unfoldable pub has_balance : ℕ → Asset → ℤ → Market → Bool
has_balance user a x m = answered (Client.check_balance user (some a) x m.commercial).0

abbrev pub check_funds : ℕ → ℤ → ℤ → Step (Unit {0})
check_funds buyer charge_psc charge_irr = do
  has_psc ← gets (has_balance buyer psc charge_psc)
  has_irr ← gets (has_balance buyer irr charge_irr)
  fail_if (not has_psc) insufficient_psc
  fail_if (not has_irr) insufficient_irr

-- The second deduction; if it fails the first is given back.
abbrev pub or_give_back : ℕ → ℤ → Result WalletError (Unit {0}) → Step (Unit {0})
or_give_back buyer charge_psc (ok done) = pure tt
or_give_back buyer charge_psc (err e) = do
  modify (credit buyer (some psc) charge_psc)
  fail (wallet_failed e)

abbrev pub attempt : ℕ → ℤ → Step (Result WalletError (Unit {0}))
attempt buyer charge_irr m =
    let (r, db) = Client.deduct_balance buyer (some irr) charge_irr m.commercial in
    (ok r, record m { commercial = db })

unfoldable pub lock_funds : ℕ → ℕ → ℕ → ℤ → ℤ → Step (Unit {0})
lock_funds buyer id feature charge_psc charge_irr = do
  wallet (Client.deduct_balance buyer (some psc) charge_psc)
  or_give_back buyer charge_psc (← attempt buyer charge_irr)
  modify (create_locked id feature charge_psc charge_irr)
  modify (create_transaction (transaction buyer psc charge_psc false 0 (for_request id)))
  modify (create_transaction (transaction buyer irr charge_irr false 0 (for_request id)))

unfoldable pub send_buy_request : Env → ℕ → ℕ → ℤ → ℤ → String → Step BuyRequest
send_buy_request env buyer feature price_psc price_irr note = do
  f ← or_fail (← gets (find_feature feature)) feature_not_found
  fail_if (← gets (has_pending_request buyer feature)) already_pending
  fail_if (eqb_ℤ price_psc (pos 0) && eqb_ℤ price_irr (pos 0)) zero_price
  fail_if
      (is_below_floor (requested_price env price_psc price_irr) (feature_price env f)
        f.minimum_price_percentage)
      below_floor
  let charge_psc = calculate_buyer_charge price_psc
  let charge_irr = calculate_buyer_charge price_irr
  when env.has_client (check_funds buyer charge_psc charge_irr)
  id ← gets (λ m. m.next_request_id)
  modify (create_request buyer f.owner_id feature note price_psc price_irr)
  when env.has_client (lock_funds buyer id feature charge_psc charge_irr)
  or_fail (← gets (find_request id)) request_not_found
