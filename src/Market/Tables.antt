-- ===== src/Market/Tables.antt =====
-- services/features-service/internal/models/feature.go: the rows that the marketplace reads and
-- writes, and what a call finds in its surroundings. Times are seconds.
use Prim.Native.String.{String}
use microservice_metarang.Prelude.{ℕ, Bool, Option, List}
use microservice_metarang.Prelude.Int.{ℤ}
use microservice_metarang.Prelude.Action.{Action}
use microservice_metarang.Wallet.Row.{Asset, Db}
use microservice_metarang.Wallet.Repository.{Error as WalletError}
use microservice_metarang.Market.Constants.{Karbari}

-- A feature joined with its properties, as FindByID reads it.
pub record Feature : Type 0 where
  pub id : ℕ
  pub owner_id : ℕ
  pub karbari : Karbari
  pub rgb : String
  pub owner_name : String
  pub label : String
  pub stability : ℕ
  pub price_psc : ℤ
  pub price_irr : ℤ
  pub minimum_price_percentage : ℕ

-- `status` is 0 while the request is pending; `is_deleted` says that `deleted_at` is set. The column of
-- the price in PSC has two decimals, that in rials none: the rows stand for prices that fit them.
pub record BuyRequest : Type 0 where
  pub id : ℕ
  pub buyer_id : ℕ
  pub seller_id : ℕ
  pub feature_id : ℕ
  pub note : String
  pub price_psc : ℤ
  pub price_irr : ℤ
  pub status : ℕ
  pub grace_period : Option ℕ
  pub is_deleted : Bool

-- A row of `locked_wallets`: what the buyer of a request has paid in advance.
pub record LockedWallet : Type 0 where
  pub request_id : ℕ
  pub feature_id : ℕ
  pub psc : ℤ
  pub irr : ℤ

-- `limit` is a percentage of the value of the feature.
pub record SellRequest : Type 0 where
  pub id : ℕ
  pub seller_id : ℕ
  pub feature_id : ℕ
  pub price_psc : ℤ
  pub price_irr : ℤ
  pub limit : ℕ
  pub status : ℕ
  pub created_at : ℕ

pub record Trade : Type 0 where
  pub id : ℕ
  pub feature_id : ℕ
  pub buyer_id : ℕ
  pub seller_id : ℕ
  pub irr_amount : ℤ
  pub psc_amount : ℤ
  pub created_at : ℕ

pub record Commission : Type 0 where
  pub trade_id : ℕ
  pub psc : ℤ
  pub irr : ℤ

pub record HourlyProfit : Type 0 where
  pub user_id : ℕ
  pub feature_id : ℕ
  pub asset : Option Asset
  pub amount : ℤ
  pub deadline : ℕ
  pub is_active : Bool

-- A transaction record of the commercial service: a deposit or a withdrawal, for a trade or for a
-- buy request.
pub data Payable : Type 0 where
  for_trade for_request : ℕ → Payable

pub record Transaction : Type 0 where
  pub user_id : ℕ
  pub asset : Asset
  pub amount : ℤ
  pub is_deposit : Bool
  pub status : ℕ
  pub payable : Payable

-- A row of `feature_limits`, of which the marketplace reads these columns.
pub record Limitation : Type 0 where
  pub id : ℕ
  pub price_limit : Bool

pub record LimitedPurchase : Type 0 where
  pub user_id : ℕ
  pub limit_id : ℕ
  pub feature_id : ℕ

pub record Market : Type 0 where
  pub commercial : Db
  pub transactions : List Transaction
  pub features : List Feature
  pub requests : List BuyRequest
  pub locked_wallets : List LockedWallet
  pub sell_requests : List SellRequest
  pub trades : List Trade
  pub commissions : List Commission
  pub profits : List HourlyProfit
  pub limited_purchases : List LimitedPurchase
  pub next_request_id : ℕ
  pub next_trade_id : ℕ
  pub next_sell_request_id : ℕ

-- What a call reads and does not change: the clock, the tables `users`, `user_variables`, `variables`
-- and `feature_limits`, and whether the service holds a client of the commercial service.
-- `pricing_limits` are the public one and that under 18, `has_rgb_code` is none for a user without a
-- row; `limitation` is that of a feature's properties.
pub record Env : Type 0 where
  pub now : ℕ
  pub has_client : Bool
  pub rgb_user_id : Option ℕ
  pub has_rgb_code : ℕ → Option Bool
  pub user_name : ℕ → String
  pub withdraw_profit : ℕ → Option ℕ
  pub birthdate : ℕ → Option ℕ
  pub pricing_limits : ℕ × ℕ
  pub psc_rate : ℕ
  pub color_rate : Option Asset → ℕ
  pub limitation : ℕ → Option Limitation

pub data MarketError : Type 0 where
  request_not_found feature_not_found unauthorized not_pending locked_assets_not_found : MarketError
  bad_grace_period already_pending zero_price below_floor insufficient_psc insufficient_irr :
      MarketError
  user_not_found no_limitation no_client insufficient_color insufficient_funds : MarketError
  two_prices no_price bad_price not_finite : MarketError
  wait_hours wait_minutes : ℕ → MarketError
  wallet_failed : WalletError → MarketError

abbrev pub Step : Type 0 → Type 0
Step A = Action Market MarketError A
