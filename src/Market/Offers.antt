-- ===== src/Market/Offers.antt =====
-- When SendBuyRequest takes an offer, and the fees on a price.
use Prim.Native.String.{String}
use microservice_metarang.Prelude.{
  ℕ, ◌/◌, true, false, some, ◌≡◌, refl, arith, Bool-cases, inl, inr, ◌⊎◌,
}
use microservice_metarang.Prelude.Int.{ℤ, pos, negsuc, ◌+ℤ◌, ◌≤ℤ◌, int_laws}
use microservice_metarang.Prelude.Action.{err}
use microservice_metarang.Wallet.Row.{Asset, psc, irr}
use microservice_metarang.Wallet.Placeholder.{check_balance_refuses}
use microservice_metarang.Market.Constants.{
  calculate_fee, calculate_buyer_charge, calculate_seller_payment, calculate_platform_fee,
}
use microservice_metarang.Market.Tables.{
  Market, Env, MarketError, insufficient_psc, insufficient_irr,
}
use microservice_metarang.Market.Requests.{send_buy_request, has_balance, check_funds}
use microservice_metarang.Market.Atomic.{IsRefused, refusal}

-- For a price of zero or more, what the buyer pays is what the seller and the platform get; the
-- seller gets between zero and the price, and the buyer pays at least the price.
pub calculate_buyer_charge-split :
    (price : ℤ)
    → pos 0 ≤ℤ price
    → (calculate_buyer_charge price
        ≡ calculate_seller_payment price +ℤ calculate_platform_fee price)
      × (pos 0 ≤ℤ calculate_seller_payment price)
      × (calculate_seller_payment price ≤ℤ price)
      × (price ≤ℤ calculate_buyer_charge price)
unfolding calculate_buyer_charge calculate_seller_payment calculate_platform_fee
calculate_buyer_charge-split (pos n) h =
    let e : calculate_fee (pos n) ≡ pos (n / 20) = unfold calculate_fee in refl in
    (omega int_laws, rw e (omega int_laws), rw e (omega int_laws), rw e (omega int_laws))
calculate_buyer_charge-split (negsuc n) h = absurd (omega arith)

charge_positive : (price : ℤ) → pos 1 ≤ℤ price → pos 1 ≤ℤ calculate_buyer_charge price
unfolding calculate_buyer_charge calculate_fee ◌+ℤ◌
charge_positive price h = ground arith

pub has_balance_refuses :
    (user : ℕ) (a : Asset) (x : ℤ) (m : Market) → pos 1 ≤ℤ x → has_balance user a x m ≡ false
unfolding has_balance
has_balance_refuses user a x m h =
    ground (arith, check_balance_refuses user (some a) x m.commercial)

pub charges :
    (price_psc price_irr : ℤ)
    → (pos 1 ≤ℤ price_psc) ⊎ (pos 1 ≤ℤ price_irr)
    → (pos 1 ≤ℤ calculate_buyer_charge price_psc) ⊎ (pos 1 ≤ℤ calculate_buyer_charge price_irr)
charges price_psc price_irr (inl h) = inl (charge_positive price_psc h)
charges price_psc price_irr (inr h) = inr (charge_positive price_irr h)

check_funds-IsRefused :
    (buyer : ℕ) (charge_psc charge_irr : ℤ)
    → (pos 1 ≤ℤ charge_psc) ⊎ (pos 1 ≤ℤ charge_irr)
    → IsRefused (check_funds buyer charge_psc charge_irr)
check_funds-IsRefused buyer charge_psc charge_irr (inl p) = record {
  refuses = λ m. rw (has_balance_refuses buyer psc charge_psc m p) ((insufficient_psc, refl), refl);
}
check_funds-IsRefused buyer charge_psc charge_irr (inr p) = record { refuses = λ m. second m }
  where
    second :
        (m : Market)
        → ((e : MarketError) × ((check_funds buyer charge_psc charge_irr m).0 ≡ err e))
          × ((check_funds buyer charge_psc charge_irr m).1 ≡ m)
    second m = elim (Bool-cases (has_balance buyer psc charge_psc m)) [
      | inl e ↦
          rw (e, has_balance_refuses buyer irr charge_irr m p) ((insufficient_irr, refl), refl)
      | inr e ↦ rw e ((insufficient_psc, refl), refl)
    ]

send_buy_request-IsRefused :
    (env : Env) (buyer feature : ℕ) (price_psc price_irr : ℤ) (note : String)
    → env.has_client ≡ true
    → IsRefused
        (check_funds buyer (calculate_buyer_charge price_psc) (calculate_buyer_charge price_irr))
    → IsRefused (send_buy_request env buyer feature price_psc price_irr note)
unfolding send_buy_request
send_buy_request-IsRefused env buyer feature price_psc price_irr note c refused =
    rw c (search refusal depth 20)

-- With a wallet client SendBuyRequest refuses every offer of a positive amount of PSC or of IRR,
-- whatever the buyer's wallet holds, and changes nothing.
pub send_buy_request_refuses :
    (env : Env) (buyer feature : ℕ) (price_psc price_irr : ℤ) (note : String) (m : Market)
    → env.has_client ≡ true
    → (pos 1 ≤ℤ price_psc) ⊎ (pos 1 ≤ℤ price_irr)
    → let (r, m') = send_buy_request env buyer feature price_psc price_irr note m in
      ((e : MarketError) × (r ≡ err e)) × (m' ≡ m)
send_buy_request_refuses env buyer feature price_psc price_irr note m c positive =
    let dear =
      check_funds-IsRefused buyer (calculate_buyer_charge price_psc)
        (calculate_buyer_charge price_irr) (charges price_psc price_irr positive) in
    (send_buy_request-IsRefused env buyer feature price_psc price_irr note c dear).refuses m
