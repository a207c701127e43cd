-- ===== src/Market/Selling.antt =====
-- What a sell request fixes, and who can withdraw one.
use Prim.Native.String.{String}
use microservice_metarang.Prelude.{
  ℕ, ◌≤◌, Bool, true, false, not, ◌&&◌, ◌||◌, Option, none, some, List, [], ◌∷◌, ◌≡◌, refl, ap,
  arith, inl, inr, Bool-cases, Option-cases, ◌==◌,
}
use microservice_metarang.Prelude.Int.{ℤ, pos, pos_part, ltb_ℤ}
use microservice_metarang.Prelude.Rows.{first, change, remove}
use microservice_metarang.Prelude.Action.{Result, ok, err, fail_if, gets, modify, ◌>>=◌, ◌>>◌}
use microservice_metarang.Market.Constants.{change_status_to_sold_and_not_priced}
use microservice_metarang.Market.Tables.{
  Feature, SellRequest, Market, Env, MarketError, two_prices, no_price, Step,
}
use microservice_metarang.Market.Repository.{
  find_feature, find_sell_request, update_rgb, delete_sell_request_row,
}
use microservice_metarang.Market.Sale.{
  Price, Terms, is_explicit, floor_for, terms_of, terms_of_percentage, terms_of_prices,
  offer_for_sale, create_sell_request_for, delete_sell_request,
}

percentage_same :
    (env : Env) (f : Feature) (seller percentage : ℕ) (m : Market)
    → (terms_of_percentage env f seller percentage m).1 ≡ m
unfolding terms_of_percentage
percentage_same env f seller percentage m = ground arith

percentage_floor :
    (env : Env) (f : Feature) (seller percentage : ℕ) (m : Market) (t : Terms)
    → (terms_of_percentage env f seller percentage m).0 ≡ ok t
    → floor_for env seller ≤ t.2
unfolding terms_of_percentage
percentage_floor env f seller percentage m t h = ground (arith, h)

prices_same :
    (env : Env) (f : Feature) (seller : ℕ) (p q : Price) (m : Market)
    → (terms_of_prices env f seller p q m).1 ≡ m
unfolding terms_of_prices
prices_same env f seller p q m = ground arith

prices_floor :
    (env : Env) (f : Feature) (seller : ℕ) (p q : Price) (m : Market) (t : Terms)
    → (terms_of_prices env f seller p q m).0 ≡ ok t
    → floor_for env seller ≤ t.2
unfolding terms_of_prices
prices_floor env f seller p q m t h = ground (arith, h)

terms_same :
    (env : Env) (f : Feature) (seller : ℕ) (p q : Price) (x : ℤ) (b : Bool) (m : Market)
    → (terms_of env f seller p q x b m).1 ≡ m
terms_same env f seller p q x true m = percentage_same env f seller (pos_part x) m
terms_same env f seller p q x false m = prices_same env f seller p q m

terms_floor :
    (env : Env) (f : Feature) (seller : ℕ) (p q : Price) (x : ℤ) (b : Bool) (m : Market) (t : Terms)
    → (terms_of env f seller p q x b m).0 ≡ ok t
    → floor_for env seller ≤ t.2
terms_floor env f seller p q x true m t h = percentage_floor env f seller (pos_part x) m t h
terms_floor env f seller p q x false m t h = prices_floor env f seller p q m t h

abbrev put_up : Env → Feature → ℕ → Terms → Step (Option SellRequest)
put_up env f seller terms = do
  id ← gets (λ m. m.next_sell_request_id)
  modify (offer_for_sale env f seller terms)
  gets (find_sell_request id)

after_terms :
    (env : Env) (f : Feature) (seller : ℕ) (y : Option SellRequest)
    (c : Result MarketError Terms × Market) (m : Market)
    → c.1 ≡ m
    → ((t : Terms) → c.0 ≡ ok t → floor_for env seller ≤ t.2)
    → (((λ (n : Market). c) >>= put_up env f seller) m).0 ≡ ok y
    → (t : Terms) × (floor_for env seller ≤ t.2)
      × ((((λ (n : Market). c) >>= put_up env f seller) m).1 ≡ offer_for_sale env f seller t m)
after_terms env f seller y (ok t, n) m e h k = (t, h t refl, ap (offer_for_sale env f seller t) e)
after_terms env f seller y (err x, n) m e h k = absurd (ground (arith, k))

-- What follows the test of the owner.
abbrev guarded_sale : Env → ℕ → Price → Price → ℤ → Feature → Step (Option SellRequest)
guarded_sale env seller p q x f = do
  fail_if ((is_explicit p || is_explicit q) && ltb_ℤ (pos 0) x) two_prices
  fail_if (not (is_explicit p || is_explicit q) && not (ltb_ℤ (pos 0) x)) no_price
  terms ← terms_of env f seller p q x (ltb_ℤ (pos 0) x)
  put_up env f seller terms

guarded :
    (env : Env) (seller : ℕ) (p q : Price) (x : ℤ) (f : Feature) (m : Market)
    (y : Option SellRequest)
    → (guarded_sale env seller p q x f m).0 ≡ ok y
    → (t : Terms) × (floor_for env seller ≤ t.2)
      × ((guarded_sale env seller p q x f m).1 ≡ offer_for_sale env f seller t m)
guarded env seller p q x f m y =
    elim (Bool-cases ((is_explicit p || is_explicit q) && ltb_ℤ (pos 0) x)) [
      | inl a ↦ rw a (λ h. absurd (ground (arith, h)))
      | inr a ↦
          rw a (elim (Bool-cases (not (is_explicit p || is_explicit q) && not (ltb_ℤ (pos 0) x))) [
            | inl b ↦ rw b (λ h. absurd (ground (arith, h)))
            | inr b ↦ rw b (λ h.
                after_terms env f seller y (terms_of env f seller p q x (ltb_ℤ (pos 0) x) m) m
                  (terms_same env f seller p q x (ltb_ℤ (pos 0) x) m)
                  (terms_floor env f seller p q x (ltb_ℤ (pos 0) x) m) h)
          ])
    ]

-- A successful CreateSellRequest was called by the owner. It puts the feature up for sale on terms
-- whose percentage is not below the floor for the seller: the row of the sell request and the feature
-- get the same prices and the same percentage, and nothing else changes.
pub create_sell_request_terms :
    (env : Env) (seller feature : ℕ) (p q : Price) (x : ℤ) (m : Market) (y : Option SellRequest)
    → (create_sell_request_for env seller feature p q x m).0 ≡ ok y
    → (f : Feature) × (find_feature feature m ≡ some f)
      × ((f.owner_id == seller) ≡ true)
      × ((t : Terms) × (floor_for env seller ≤ t.2)
          × ((create_sell_request_for env seller feature p q x m).1
              ≡ offer_for_sale env f seller t m))
unfolding create_sell_request_for
create_sell_request_terms env seller feature p q x m y =
    elim (Option-cases (find_feature feature m)) [
      | inl e ↦ rw e (λ h. absurd (ground (arith, h)))
      | inr (f, e) ↦ rw e (elim (Bool-cases (f.owner_id == seller)) [
        | inr o ↦ rw o (λ h. absurd (ground (arith, h)))
        | inl o ↦ rw o (λ h. (f, refl, o, guarded env seller p q x f m y h))
      ])
    ]

first-recolored :
    (id : ℕ) (rgb : String) (l : List Feature) (f : Feature)
    → first (λ g. g.id == id) l ≡ some f
    → first (λ g. g.id == id) (change (λ g. g.id == f.id) (λ g. record g { rgb = rgb }) l)
      ≡ some (record f { rgb = rgb })
first-recolored id rgb [] f h = absurd (ground (arith, h))
first-recolored id rgb (g ∷ l) f h = ground (arith, h, first-recolored id rgb l f)

first-removed :
    (id : ℕ) (l : List SellRequest) → first (λ s. s.id == id) (remove (λ s. s.id == id) l) ≡ none
first-removed id [] = refl
first-removed id (s ∷ l) = ground (arith, first-removed id l)

find-deleted : (id : ℕ) (m : Market) → find_sell_request id (delete_sell_request_row id m) ≡ none
unfolding find_sell_request delete_sell_request_row
find-deleted id m = first-removed id m.sell_requests

find-recolored :
    (id request : ℕ) (rgb : String) (m : Market) (f : Feature)
    → find_feature id m ≡ some f
    → find_feature id (delete_sell_request_row request (update_rgb f.id rgb m))
      ≡ some (record f { rgb = rgb })
unfolding find_feature delete_sell_request_row update_rgb
find-recolored id request rgb m f h = first-recolored id rgb m.features f h

-- DeleteSellRequest asks for the seller on record only: whoever owns the feature by then and whatever
-- has become of the request, the call succeeds, removes the request and marks the feature as not
-- priced; its prices and its owner stay.
pub delete_sell_request_recolors :
    (id seller : ℕ) (m : Market) (s : SellRequest) (f : Feature)
    → find_sell_request id m ≡ some s
    → (s.seller_id == seller) ≡ true
    → find_feature s.feature_id m ≡ some f
    → let (r, n) = delete_sell_request id seller m in
      (r ≡ ok tt)
      × (find_sell_request id n ≡ none)
      × (find_feature s.feature_id n
          ≡ some (record f { rgb = change_status_to_sold_and_not_priced f.karbari }))
unfolding delete_sell_request
delete_sell_request_recolors id seller m s f e o g =
    rw (e, o, g)
      (
        refl,
        find-deleted id _,
        find-recolored s.feature_id id (change_status_to_sold_and_not_priced f.karbari) m f g,
      )
