-- ===== src/Market/Closing.antt =====
-- The feature and its offers after an accepted one.
use microservice_metarang.Prelude.{
  ℕ, false, Option, none, some, List, [], ◌∷◌, ◌≡◌, refl, ◌∙◌, ◌==◌, if◌then◌else◌, arith,
}
use microservice_metarang.Prelude.Int.{ℤ, ◌+ℤ◌}
use microservice_metarang.Market.Constants.{
  calculate_fee, change_status_to_sold_and_not_priced, default_public_pricing_limit,
}
use microservice_metarang.Market.Tables.{Feature, BuyRequest, Market, Env}
use microservice_metarang.Market.Repository.{
  first, change, find_feature, update_owner, update_status, transfer_profit_to_new_owner,
  create_trade,
}
use microservice_metarang.Market.Requests.{
  pay_platform, record_trade, hand_over, credit, pay_profit, create_transaction, create_commission,
  is_user_under18, withdraw_profit_days,
}
use microservice_metarang.Market.Acceptance.{paid, seller_paid, settled}

-- The features, the requests and the locks are those of before.
abbrev pub KeepsOffers : Market → Market → Type 0
KeepsOffers m m' =
    (m'.features ≡ m.features) × (m'.requests ≡ m.requests) × (m'.locked_wallets ≡ m.locked_wallets)

pay_platform_keeps :
    (user : Option ℕ) (a b : ℤ) (m : Market) → KeepsOffers m (pay_platform user a b m)
unfolding pay_platform credit
pay_platform_keeps none a b m = (refl, refl, refl)
pay_platform_keeps (some user) a b m = (refl, refl, refl)

pub settled_keeps :
    (env : Env) (r : BuyRequest) (seller : ℕ) (m : Market) → KeepsOffers m (settled env r seller m)
unfolding settled paid record_trade create_trade create_transaction create_commission
settled_keeps env r seller m = ground (
  arith,
  pay_platform_keeps env.rgb_user_id (calculate_fee r.price_psc +ℤ calculate_fee r.price_psc)
      (calculate_fee r.price_irr +ℤ calculate_fee r.price_irr)
      (record m { commercial = seller_paid r seller m.commercial }),
)

pay_profit_keeps :
    (env : Env) (feature seller : ℕ) (m : Market) → KeepsOffers m (pay_profit env feature seller m)
unfolding pay_profit credit
pay_profit_keeps env feature seller m = ground arith

transfer_profit_keeps :
    (now feature old new days : ℕ) (m : Market)
    → KeepsOffers m (transfer_profit_to_new_owner now feature old new days m)
unfolding transfer_profit_to_new_owner
transfer_profit_keeps now feature old new days m = ground arith

-- The feature as its buyer gets it.
unfoldable pub handed_over : Env → ℕ → Feature → Feature
handed_over env buyer f = record f {
  owner_id = buyer;
  rgb = change_status_to_sold_and_not_priced f.karbari;
  owner_name = env.user_name buyer;
  label = "";
  minimum_price_percentage = default_public_pricing_limit;
}

first-change :
    (j k : ℕ) (set : Feature → Feature) (fs : List Feature)
    → ((g : Feature) → (set g).id ≡ g.id)
    → first (λ g. g.id == j) (change (λ g. g.id == k) set fs) ≡ (elim (first (λ g. g.id == j) fs) [
      | none ↦ none
      | some g ↦ some (if j == k then set g else g)
    ])
first-change j k set [] same = refl
first-change j k set (g ∷ fs) same = ground (arith, first-change j k set fs same, same g)

pub first_has_id :
    (j : ℕ) (fs : List Feature) {g : Feature} → first (λ g. g.id == j) fs ≡ some g → g.id ≡ j
first_has_id j [] h = cc
first_has_id j (f ∷ fs) {g} h = ground (arith, first_has_id j fs {g = g})

abbrev pub set_owner : ℕ → Feature → Feature
set_owner buyer g = record g { owner_id = buyer }

abbrev pub set_sold : Env → Feature → ℕ → Feature → Feature
set_sold env f buyer g = record g {
  rgb = change_status_to_sold_and_not_priced f.karbari;
  owner_name = env.user_name buyer;
  label = "";
  minimum_price_percentage = default_public_pricing_limit;
}

never_under18 : (env : Env) (user : ℕ) → is_user_under18 env user ≡ false
unfolding is_user_under18
never_under18 env user = ground arith

pub hand_over_rows :
    (env : Env) (f : Feature) (buyer seller : ℕ) (m : Market)
    → let m' = hand_over env f buyer seller m in
      (m'.features
        ≡ change
            (λ g. g.id == f.id)
            (set_sold env f buyer)
            (change (λ g. g.id == f.id) (set_owner buyer) m.features))
      × (m'.requests ≡ m.requests)
      × (m'.locked_wallets ≡ m.locked_wallets)
unfolding hand_over update_owner update_status
hand_over_rows env f buyer seller m = rw (never_under18 env buyer) (
    let m2 =
      update_status f.id (change_status_to_sold_and_not_priced f.karbari) (env.user_name buyer) ""
        default_public_pricing_limit (update_owner f.id buyer m) in
    let (a, b, c) = pay_profit_keeps env f.id seller m2 in
    let (a', b', c') =
      transfer_profit_keeps env.now f.id seller buyer (withdraw_profit_days env buyer)
        (pay_profit env f.id seller m2) in
    (a' ∙ a, b' ∙ b, c' ∙ c))

pub hand_over_features :
    (env : Env) (f : Feature) (buyer seller j : ℕ) (m : Market)
    → find_feature f.id m ≡ some f
    → find_feature j (hand_over env f buyer seller m)
      ≡ (if j == f.id then some (handed_over env buyer f) else find_feature j m)
unfolding find_feature handed_over
hand_over_features env f buyer seller j m h = rw ((hand_over_rows env f buyer seller m).0) (
    ground (
      arith,
      first-change j f.id (set_sold env f buyer)
          (change (λ g. g.id == f.id) (set_owner buyer) m.features) (λ g. refl),
      first-change j f.id (set_owner buyer) m.features (λ g. refl),
    ))
