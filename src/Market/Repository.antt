-- ===== src/Market/Repository.antt =====
-- services/features-service/internal/repository: the SQL statements on the tables of the
-- marketplace as functions on their rows. Each answers; a failing database is not modelled.
use Prim.Native.String.{String}
use microservice_metarang.Prelude.{
  ℕ, suc, ◌+◌, ◌*◌, Bool, true, false, not, ◌&&◌, Option, none, some, List, [], ◌∷◌, ◌++◌, ◌==◌,
  if◌then◌else◌,
}
use microservice_metarang.Prelude.Int.{ℤ, pos}
unfoldable pub use microservice_metarang.Prelude.Rows.{first, select, remove, change, is_some}
use microservice_metarang.Wallet.Row.{Asset}
use microservice_metarang.Market.Tables.{
  Feature, BuyRequest, LockedWallet, HourlyProfit, SellRequest, Market,
}

abbrev pub is_live : ℕ → BuyRequest → Bool
is_live id r = r.id == id && not r.is_deleted

-- BuyRequestRepository.
unfoldable pub find_request : ℕ → Market → Option BuyRequest
find_request id m = first (is_live id) m.requests

abbrev pub set_deleted : BuyRequest → BuyRequest
set_deleted r = record r { is_deleted = true }

unfoldable pub soft_delete_request : ℕ → Market → Market
soft_delete_request id m = record m { requests = change (λ r. r.id == id) set_deleted m.requests }

unfoldable pub cancel_all_for_feature : ℕ → Market → Market
cancel_all_for_feature feature m = record m {
  requests = change (λ r. r.feature_id == feature && not r.is_deleted) set_deleted m.requests;
}

unfoldable pub get_all_for_feature : ℕ → Market → List BuyRequest
get_all_for_feature feature m = select (λ r. r.feature_id == feature && not r.is_deleted) m.requests

unfoldable pub update_request_status : ℕ → ℕ → Market → Market
update_request_status id status m = record m {
  requests = change (λ r. r.id == id) (λ r. record r { status = status }) m.requests;
}

unfoldable pub delete_request : ℕ → Market → Market
delete_request id m = record m { requests = remove (λ r. r.id == id) m.requests }

unfoldable pub update_grace_period : ℕ → ℕ → Market → Market
update_grace_period id time m = record m {
  requests = change (λ r. r.id == id) (λ r. record r { grace_period = some time }) m.requests;
}

unfoldable pub has_pending_request : ℕ → ℕ → Market → Bool
has_pending_request buyer feature m = is_some (
    first
      (λ r. r.buyer_id == buyer && (r.feature_id == feature && (r.status == 0 && not r.is_deleted)))
      m.requests)

-- The new row, whose id is `next_request_id`.
unfoldable pub create_request : ℕ → ℕ → ℕ → String → ℤ → ℤ → Market → Market
create_request buyer seller feature note psc irr m = record m {
  requests =
      m.requests
      ++ record {
        id = m.next_request_id;
        buyer_id = buyer;
        seller_id = seller;
        feature_id = feature;
        note = note;
        price_psc = psc;
        price_irr = irr;
        status = 0;
        grace_period = none;
        is_deleted = false;
      }
        ∷ [];
  next_request_id = suc m.next_request_id;
}

-- LockedAssetRepository.
abbrev pub locks_for : ℕ → LockedWallet → Bool
locks_for id l = l.request_id == id

unfoldable pub get_locked : ℕ → Market → Option LockedWallet
get_locked id m = first (locks_for id) m.locked_wallets

unfoldable pub delete_locked : ℕ → Market → Market
delete_locked id m = record m { locked_wallets = remove (locks_for id) m.locked_wallets }

unfoldable pub create_locked : ℕ → ℕ → ℤ → ℤ → Market → Market
create_locked id feature psc irr m = record m {
  locked_wallets =
      m.locked_wallets
      ++ record { request_id = id; feature_id = feature; psc = psc; irr = irr } ∷ [];
}

-- FeatureRepository and PropertiesRepository.
unfoldable pub find_feature : ℕ → Market → Option Feature
find_feature id m = first (λ f. f.id == id) m.features

unfoldable pub update_owner : ℕ → ℕ → Market → Market
update_owner id owner m = record m {
  features = change (λ f. f.id == id) (λ f. record f { owner_id = owner }) m.features;
}

unfoldable pub update_status : ℕ → String → String → String → ℕ → Market → Market
update_status id rgb owner label percentage m = record m {
  features =
      change (λ f. f.id == id)
        (λ f. record f {
          rgb = rgb;
          owner_name = owner;
          label = label;
          minimum_price_percentage = percentage;
        })
        m.features;
}

-- TradeRepository.Create; the new row has the id `next_trade_id`.
unfoldable pub create_trade : ℕ → ℕ → ℕ → ℕ → ℤ → ℤ → Market → Market
create_trade now feature buyer seller irr psc m = record m {
  trades =
      m.trades
      ++ record {
        id = m.next_trade_id;
        feature_id = feature;
        buyer_id = buyer;
        seller_id = seller;
        irr_amount = irr;
        psc_amount = psc;
        created_at = now;
      }
        ∷ [];
  next_trade_id = suc m.next_trade_id;
}

-- HourlyProfitRepository.
abbrev pub profit_of : ℕ → ℕ → HourlyProfit → Bool
profit_of feature user p = p.feature_id == feature && p.user_id == user

unfoldable pub get_profit : ℕ → ℕ → Market → Option HourlyProfit
get_profit feature user m = first (profit_of feature user) m.profits

unfoldable pub create_profit : ℕ → ℕ → ℕ → Option Asset → ℕ → Market → Market
create_profit now user feature asset days m = record m {
  profits =
      m.profits
      ++ record {
        user_id = user;
        feature_id = feature;
        asset = asset;
        amount = pos 0;
        deadline = now + days * 86400;
        is_active = true;
      }
        ∷ [];
}

-- The row that the SELECT found, by its id: the first of the feature and the user.
abbrev pub change_first : {A : Type 0} → (A → Bool) → (A → A) → List A → List A
change_first test set [] = []
change_first test set (a ∷ rest) = if test a then set a ∷ rest else a ∷ change_first test set rest

-- Without a row of the old owner the asset of the new row is the empty text.
unfoldable pub transfer_profit_to_new_owner : ℕ → ℕ → ℕ → ℕ → ℕ → Market → Market
unfolding create_profit get_profit
transfer_profit_to_new_owner now feature old_owner new_owner days m =
    elim (get_profit feature old_owner m) [
      | none ↦ create_profit now new_owner feature none days m
      | some p ↦ record m {
        profits =
            change_first (profit_of feature old_owner)
              (λ q. record q {
                user_id = new_owner;
                amount = pos 0;
                deadline = now + days * 86400;
                is_active = true;
              })
              m.profits;
      }
    ]

-- SellRequestRepository.
unfoldable pub complete_sell_requests : ℕ → Market → Market
complete_sell_requests feature m = record m {
  sell_requests =
      change (λ s. s.feature_id == feature) (λ s. record s { status = 1 }) m.sell_requests;
}

-- FeatureLimitRepository.
unfoldable pub track_limited_purchase : ℕ → ℕ → ℕ → Market → Market
track_limited_purchase user limit feature m = record m {
  limited_purchases =
      m.limited_purchases ++ record { user_id = user; limit_id = limit; feature_id = feature } ∷ [];
}

-- The new sell request has the id `next_sell_request_id`.
unfoldable pub create_sell_request : SellRequest → Market → Market
create_sell_request s m = record m {
  sell_requests = m.sell_requests ++ s ∷ [];
  next_sell_request_id = suc m.next_sell_request_id;
}

unfoldable pub find_sell_request : ℕ → Market → Option SellRequest
find_sell_request id m = first (λ s. s.id == id) m.sell_requests

unfoldable pub delete_sell_request_row : ℕ → Market → Market
delete_sell_request_row id m = record m { sell_requests = remove (λ s. s.id == id) m.sell_requests }

-- PropertiesRepository.Update, with the columns that its two callers write.
unfoldable pub update_prices : ℕ → String → ℤ → ℤ → ℕ → Market → Market
update_prices id rgb psc irr percentage m = record m {
  features =
      change (λ f. f.id == id)
        (λ f. record f {
          rgb = rgb;
          price_psc = psc;
          price_irr = irr;
          minimum_price_percentage = percentage;
        })
        m.features;
}

unfoldable pub update_rgb : ℕ → String → Market → Market
update_rgb id rgb m = record m {
  features = change (λ f. f.id == id) (λ f. record f { rgb = rgb }) m.features;
}
