-- ===== src/Payment/Tables.antt =====
-- services/commercial-service/internal/models/wallet.go: the rows of the payments, and what a call
-- finds in its surroundings. The times of rows are left out.
use Prim.Native.String.{String}
use microservice_metarang.Prelude.{ℕ, ◌+◌, Bool, Option, none, some, List, ◌==◌}
use microservice_metarang.Prelude.Int.{ℤ}
use microservice_metarang.Prelude.Action.{Action}
use microservice_metarang.Wallet.Row.{Asset, asset_code, Db}

-- The text of an order's asset: a column of the wallets, or the n-th of all other texts.
pub data Product : Type 0 where
  asset : Asset → Product
  other : ℕ → Product

abbrev pub product_code : Product → ℕ
product_code (asset a) = asset_code a
product_code (other n) = 7 + n

abbrev pub same_product : Product → Product → Bool
same_product p q = product_code p == product_code q

abbrev pub column_of : Product → Option Asset
column_of (asset a) = some a
column_of (other n) = none

pub record Order : Type 0 where
  pub id : ℕ
  pub user_id : ℕ
  pub product : Product
  pub amount : ℤ
  pub status : ℤ

pub record Deposit : Type 0 where
  pub id : ℕ
  pub user_id : ℕ
  pub product : Product
  pub amount : ℤ
  pub status : ℤ
  pub token : Option ℤ

pub record Payment : Type 0 where
  pub user_id : ℕ
  pub ref_id : ℤ
  pub card_pan : String
  pub amount : ℤ
  pub product : Product

pub record FirstOrder : Type 0 where
  pub user_id : ℕ
  pub product : Product
  pub amount : ℤ
  pub bonus : ℤ

pub record ReferralOrder : Type 0 where
  pub user_id : ℕ
  pub referral_id : ℕ
  pub amount : ℤ

pub record Bank : Type 0 where
  pub orders : List Order
  pub deposits : List Deposit
  pub payments : List Payment
  pub first_orders : List FirstOrder
  pub referral_orders : List ReferralOrder
  pub wallets : Db
  pub next_order_id : ℕ

-- Answers of the gateway.
pub record RequestResponse : Type 0 where
  pub status : ℤ
  pub token : ℤ

pub record Verification : Type 0 where
  pub status : ℤ
  pub reference_id : ℤ
  pub card_hash : String

pub data Merchant : Type 0 where
  regular loan_account : Merchant

-- What a call reads and does not change: the tables `variables`, `users` and `user_variables`, the
-- id that is made from the clock, and the answers of the gateway to this call. `none` is a text that
-- is no variable, a user without a referrer, and a gateway that does not answer.
pub record Env : Type 0 where
  pub rate : Product → Option ℕ
  pub referrer : ℕ → Option ℕ
  pub referral_limit : ℕ → ℤ
  pub new_deposit_id : ℕ
  pub request_payment : Merchant → ℕ → ℤ → Option RequestResponse
  pub verify_payment : Merchant → ℤ → Option Verification

-- `panics` stands for a number that is infinite, or none, and is turned into a decimal.
pub data Refusal : Type 0 where
  order_not_found rate_not_found no_answer request_failed wallet_failed panics : Refusal

abbrev pub Step : Type 0 → Type 0
Step A = Action Bank Refusal A
