-- ===== src/Payment/Referral.antt =====
-- services/commercial-service/internal/service/referral_service.go.
use microservice_metarang.Prelude.{
  ℕ, ◌*◌, ◌^◌, Bool, true, false, ◌||◌, Option, none, some, ◌==◌, if◌then◌else◌,
}
use microservice_metarang.Prelude.Int.{ℤ, scale, cut, leb_ℤ}
use microservice_metarang.Prelude.Action.{pure, fail, or_fail, gets, modify, ◌>>=◌, ◌>>◌}
use microservice_metarang.Wallet.Row.{psc, irr, red, blue, yellow}
use microservice_metarang.Wallet.Repository.{add_balance}
use microservice_metarang.Payment.Tables.{
  Product, asset, same_product, Order, Env, rate_not_found, panics, Step,
}
use microservice_metarang.Payment.Repository.{
  get_total_referred_amount, create_referral_order, wallet,
}

abbrev pub is_irr : Product → Bool
is_irr p = same_product p (asset irr)

abbrev pub is_color : Product → Bool
is_color p =
    same_product p (asset blue) || (same_product p (asset red) || same_product p (asset yellow))

-- `((amount * colorRate) / pscRate) * 0.5`, or half the amount. A quotient by zero is no number.
unfoldable pub commission_of : Env → Order → ℕ → Step ℤ
commission_of env o psc_rate =
    if is_color o.product
    then (do
      color_rate ← or_fail (env.rate o.product) rate_not_found
      if psc_rate == 0 then fail panics else pure (cut (psc_rate * 2) (scale color_rate o.amount)))
    else pure (cut 2 o.amount)

-- The limit is compared in units of 10⁻²⁰: an amount and a rate count units of 10⁻¹⁰ each.
unfoldable pub is_limit_reached : ℕ → ℤ → ℤ → Bool
is_limit_reached psc_rate total limit = leb_ℤ (scale (10 ^ 10) limit) (scale psc_rate total)

abbrev pub pay_commission : Env → ℕ → Order → ℕ → ℕ → Bool → Step (Unit {0})
pay_commission env user o referrer psc_rate true = pure tt
pay_commission env user o referrer psc_rate false = do
  x ← commission_of env o psc_rate
  wallet (add_balance referrer (some psc) x)
  modify (create_referral_order (record { user_id = referrer; referral_id = user; amount = x }))

abbrev pub refer : Env → ℕ → Order → Option ℕ → Step (Unit {0})
refer env user o none = pure tt
refer env user o (some referrer) = do
  psc_rate ← or_fail (env.rate (asset psc)) rate_not_found
  total ← gets (get_total_referred_amount referrer)
  pay_commission env user o referrer psc_rate
      (is_limit_reached psc_rate total (env.referral_limit referrer))

unfoldable pub process_referral_commission : Env → ℕ → Order → Step (Unit {0})
process_referral_commission env user o =
    if is_irr o.product then pure tt else refer env user o (env.referrer user)
