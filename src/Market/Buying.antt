-- ===== src/Market/Buying.antt =====
-- What `BuyFeature` refuses, and what it does to the offers on the feature.
use microservice_metarang.Prelude.{
  ℕ, ◌≤◌, Bool, true, false, not, ◌&&◌, Option, some, List, [], ◌∷◌, ◌≡◌, refl, ◌∙◌, arith, ap,
  Bool-cases, inl, inr, ◌⊎◌, ◌==◌,
}
use microservice_metarang.Prelude.Rows.{select, change}
use microservice_metarang.Prelude.Int.{ℤ, pos, ◌≤ℤ◌}
use microservice_metarang.Prelude.Action.{
  Result, ok, err, gets, or_fail, fail_if, modify, ◌>>=◌, ◌>>◌,
}
use microservice_metarang.Wallet.Row.{Asset, psc, irr}
use microservice_metarang.Wallet.Placeholder.{check_balance_refuses}
use microservice_metarang.Market.Constants.{calculate_buyer_charge, is_limited_feature, get_color}
use microservice_metarang.Market.Tables.{
  Feature, BuyRequest, Market, Env, MarketError, insufficient_color, insufficient_funds,
  feature_not_found, Step,
}
use microservice_metarang.Market.Repository.{
  find_feature, get_all_for_feature, cancel_all_for_feature, complete_sell_requests, set_deleted,
  transfer_profit_to_new_owner, create_profit, update_status, update_owner, create_trade,
}
use microservice_metarang.Market.Requests.{
  create_commission, pay_profit, pay_platform, credit, has_balance,
}
use microservice_metarang.Market.Atomic.{Reads, IsRefused, refusal, >>=-IsRefused_first}
use microservice_metarang.Market.Acceptance.{refuse-Reads}
use microservice_metarang.Market.Offers.{has_balance_refuses, charges}
use microservice_metarang.Market.Purchase.{
  give_to, has_color, check_color, buy_from_rgb, buy_from_user, choose_path, buy_feature,
  pay_prices, pass_on,
}

has_color_refuses :
    (user : ℕ) (color : Option Asset) (x : ℤ) (m : Market)
    → pos 1 ≤ℤ x
    → has_color user color x m ≡ false
unfolding has_color
has_color_refuses user color x m h = ground (arith, check_balance_refuses user color x m.commercial)

check_color-IsRefused :
    (f : Feature) (buyer : ℕ) → 1 ≤ f.stability → IsRefused (check_color f buyer true)
check_color-IsRefused f buyer h = record {
  refuses = λ m.
      rw (has_color_refuses buyer (get_color f.karbari) (pos f.stability) m (omega (arith, h)))
        ((insufficient_color, refl), refl);
}

buy_from_rgb-IsRefused :
    (env : Env) (f : Feature) (buyer : ℕ) → 1 ≤ f.stability → IsRefused (buy_from_rgb env f buyer)
unfolding buy_from_rgb
buy_from_rgb-IsRefused env f buyer h =
    let c = check_color-IsRefused f buyer h in search (refusal, c) depth 20

-- The test of both balances, and what follows it.
abbrev funded : ℕ → ℤ → ℤ → Step (Unit {0}) → Step (Unit {0})
funded buyer charge_psc charge_irr rest = do
  has_psc ← gets (has_balance buyer psc charge_psc)
  has_irr ← gets (has_balance buyer irr charge_irr)
  fail_if (not (has_psc && has_irr)) insufficient_funds
  rest

funded-IsRefused :
    (buyer : ℕ) (charge_psc charge_irr : ℤ) (rest : Step (Unit {0}))
    → (pos 1 ≤ℤ charge_psc) ⊎ (pos 1 ≤ℤ charge_irr)
    → IsRefused (funded buyer charge_psc charge_irr rest)
funded-IsRefused buyer charge_psc charge_irr rest (inl p) = record {
  refuses =
      λ m. rw (has_balance_refuses buyer psc charge_psc m p) ((insufficient_funds, refl), refl);
}
funded-IsRefused buyer charge_psc charge_irr rest (inr p) = record { refuses = λ m. second m }
  where
    second :
        (m : Market)
        → ((e : MarketError) × ((funded buyer charge_psc charge_irr rest m).0 ≡ err e))
          × ((funded buyer charge_psc charge_irr rest m).1 ≡ m)
    second m = elim (Bool-cases (has_balance buyer psc charge_psc m)) [
      | inl e ↦
          rw (e, has_balance_refuses buyer irr charge_irr m p) ((insufficient_funds, refl), refl)
      | inr e ↦ rw e ((insufficient_funds, refl), refl)
    ]

buy_from_user-IsRefused :
    (env : Env) (f : Feature) (buyer : ℕ)
    → (pos 1 ≤ℤ f.price_psc) ⊎ (pos 1 ≤ℤ f.price_irr)
    → IsRefused (buy_from_user env f buyer)
unfolding buy_from_user
buy_from_user-IsRefused env f buyer h =
    let c =
      funded-IsRefused buyer (calculate_buyer_charge f.price_psc)
        (calculate_buyer_charge f.price_irr)
        (pay_prices env f buyer >> modify (pass_on env f buyer))
        (charges f.price_psc f.price_irr h) in
    search (refusal, c, refuse-Reads) depth 20

-- What a purchase costs is positive: the colour, or a price.
abbrev pub IsDear : Feature → Bool → Type 0
IsDear f true = 1 ≤ f.stability
IsDear f false = (pos 1 ≤ℤ f.price_psc) ⊎ (pos 1 ≤ℤ f.price_irr)

path-IsRefused :
    (env : Env) (f : Feature) (buyer : ℕ) (is_rgb : Bool)
    → IsDear f is_rgb
    → IsRefused (choose_path env f buyer false is_rgb)
path-IsRefused env f buyer true h = buy_from_rgb-IsRefused env f buyer h
path-IsRefused env f buyer false h = buy_from_user-IsRefused env f buyer h

-- BuyFeature refuses every feature outside a campaign that costs anything, whatever the wallet of
-- the buyer holds, and changes nothing.
pub buy_feature_refuses :
    (env : Env) (id buyer : ℕ) (m : Market) (f : Feature) (is_rgb : Bool)
    → find_feature id m ≡ some f
    → env.has_rgb_code f.owner_id ≡ some is_rgb
    → is_limited_feature f.rgb ≡ false
    → IsDear f is_rgb
    → let (r, m') = buy_feature env id buyer m in ((e : MarketError) × (r ≡ err e)) × (m' ≡ m)
unfolding buy_feature
buy_feature_refuses env id buyer m f is_rgb e g l h =
    rw (e, g, l)
      ((>>=-IsRefused_first (choose_path env f buyer false is_rgb)
          (λ x. ((gets (find_feature id)) >>= λ o. or_fail o feature_not_found))
          (path-IsRefused env f buyer is_rgb h)).refuses
        m)

-- The wallet calls leave all tables of the marketplace alone.
pay_prices-locked :
    (env : Env) (f : Feature) (buyer : ℕ) (m : Market)
    → (pay_prices env f buyer m).1.locked_wallets ≡ m.locked_wallets
unfolding pay_prices pay_platform credit
pay_prices-locked env f buyer m = ground arith

select-cancelled :
    (feature : ℕ) (l : List BuyRequest)
    → select
        (λ r. r.feature_id == feature && not r.is_deleted)
        (change (λ r. r.feature_id == feature && not r.is_deleted) set_deleted l)
      ≡ []
select-cancelled feature [] = refl
select-cancelled feature (r ∷ l) = ground (arith, select-cancelled feature l)

pass_on-offers :
    (env : Env) (f : Feature) (buyer : ℕ) (m : Market)
    → get_all_for_feature f.id (pass_on env f buyer m) ≡ []
unfolding pass_on get_all_for_feature cancel_all_for_feature complete_sell_requests
pass_on-offers env f buyer m = select-cancelled f.id _

pass_on-locked :
    (env : Env) (f : Feature) (buyer : ℕ) (m : Market)
    → (pass_on env f buyer m).locked_wallets ≡ m.locked_wallets
unfolding pass_on cancel_all_for_feature complete_sell_requests pay_profit credit
    transfer_profit_to_new_owner create_profit give_to update_status update_owner create_commission
    create_trade
pass_on-locked env f buyer m = ground arith

-- A step that, if it succeeds, leaves no live request on the feature, but every lock.
record Drops (f : Feature) (s : Step (Unit {0})) : Type 0 where
  drops :
      (m : Market)
      → (s m).0 ≡ ok tt
      → (get_all_for_feature f.id (s m).1 ≡ []) × ((s m).1.locked_wallets ≡ m.locked_wallets)

module _ (f : Feature) {A : Type 0} (k : A → Step (Unit {0})) where
  after_read :
      (p : Result MarketError A × Market) (m : Market)
      → p.1 ≡ m
      → ((a : A) → Drops f (k a))
      → (((λ (n : Market). p) >>= k) m).0 ≡ ok tt
      → (get_all_for_feature f.id (((λ (n : Market). p) >>= k) m).1 ≡ [])
        × ((((λ (n : Market). p) >>= k) m).1.locked_wallets ≡ m.locked_wallets)
  after_read (ok a, n) m e h q =
      let (x, y) = (h a).drops n q in (x, y ∙ ap (λ (n : Market). n.locked_wallets) e)
  after_read (err x, n) m e h q = absurd (ground (arith, q))

  >>=-Drops : (c : Step A) → Reads c → ((a : A) → Drops f (k a)) → Drops f (c >>= k)
  >>=-Drops c r h = record { drops = λ m q. after_read (c m) m (r.same m) h q }

after_pay :
    (env : Env) (f : Feature) (buyer : ℕ) (m : Market) (p : Result MarketError (Unit {0}) × Market)
    → p.1.locked_wallets ≡ m.locked_wallets
    → (((λ (n : Market). p) >> modify (pass_on env f buyer)) m).0 ≡ ok tt
    → let n = (((λ (n : Market). p) >> modify (pass_on env f buyer)) m).1 in
      (get_all_for_feature f.id n ≡ []) × (n.locked_wallets ≡ m.locked_wallets)
after_pay env f buyer m (ok a, n) e h =
    (pass_on-offers env f buyer n, pass_on-locked env f buyer n ∙ e)
after_pay env f buyer m (err x, n) e h = absurd (ground (arith, h))

pay-Drops :
    (env : Env) (f : Feature) (buyer : ℕ)
    → Drops f (pay_prices env f buyer >> modify (pass_on env f buyer))
pay-Drops env f buyer = record {
  drops =
      λ m q. after_pay env f buyer m (pay_prices env f buyer m) (pay_prices-locked env f buyer m) q;
}

buy_from_user-Drops : (env : Env) (f : Feature) (buyer : ℕ) → Drops f (buy_from_user env f buyer)
unfolding buy_from_user
buy_from_user-Drops env f buyer =
    let c = pay-Drops env f buyer in search (>>=-Drops, refusal, refuse-Reads, c) depth 20

-- A successful purchase from a user leaves no live request on the feature, but every lock: what other
-- buyers have paid in advance for their offers stays locked for requests that are gone.
pub buy_from_user_drops :
    (env : Env) (f : Feature) (buyer : ℕ) (m : Market)
    → (buy_from_user env f buyer m).0 ≡ ok tt
    → let n = (buy_from_user env f buyer m).1 in
      (get_all_for_feature f.id n ≡ []) × (n.locked_wallets ≡ m.locked_wallets)
buy_from_user_drops env f buyer m h = (buy_from_user-Drops env f buyer).drops m h
