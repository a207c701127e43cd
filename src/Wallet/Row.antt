-- ===== src/Wallet/Row.antt =====
-- services/commercial-service/internal/models/wallet.go: a row of `wallets`, and the column that
-- an asset names.
use Prim.Native.String.{String}
use microservice_metarang.Prelude.{ℕ, Bool, List, ◌==◌}
use microservice_metarang.Prelude.Int.{ℤ, ◌+ℤ◌}

-- The texts for an asset that are columns of the table. An asset is passed on as `Option Asset`:
-- `none` is any text that is no column, and the SQL statement that is made from it is refused.
pub data Asset : Type 0 where
  psc irr red blue yellow satisfaction effect : Asset

abbrev pub asset_code : Asset → ℕ
asset_code psc = 0
asset_code irr = 1
asset_code red = 2
asset_code blue = 3
asset_code yellow = 4
asset_code satisfaction = 5
asset_code effect = 6

abbrev pub same_asset : Asset → Asset → Bool
same_asset a b = asset_code a == asset_code b

-- An amount counts units of 10⁻¹⁰, the scale of the decimal columns. The columns of rials and of the
-- effect hold whole numbers and that of the satisfaction two decimals: the rows here stand for amounts
-- that fit them, and nothing is rounded.
pub record Wallet : Type 0 where
  pub id : ℕ
  pub user_id : ℕ
  pub psc_amount : ℤ
  pub irr_amount : ℤ
  pub red_amount : ℤ
  pub blue_amount : ℤ
  pub yellow_amount : ℤ
  pub satisfaction_amount : ℤ
  pub effect_amount : ℤ

unfoldable pub column : Asset → Wallet → ℤ
column psc w = w.psc_amount
column irr w = w.irr_amount
column red w = w.red_amount
column blue w = w.blue_amount
column yellow w = w.yellow_amount
column satisfaction w = w.satisfaction_amount
column effect w = w.effect_amount

unfoldable pub set_column : Asset → ℤ → Wallet → Wallet
set_column psc v w = record w { psc_amount = v }
set_column irr v w = record w { irr_amount = v }
set_column red v w = record w { red_amount = v }
set_column blue v w = record w { blue_amount = v }
set_column yellow v w = record w { yellow_amount = v }
set_column satisfaction v w = record w { satisfaction_amount = v }
set_column effect v w = record w { effect_amount = v }

-- A row of `locked_assets`.
pub record LockedAsset : Type 0 where
  pub user_id : ℕ
  pub asset : Asset
  pub amount : ℤ
  pub reason : String

pub record Db : Type 0 where
  pub wallets : List Wallet
  pub locked_assets : List LockedAsset

-- `SET asset = asset + x`
unfoldable pub increase : Asset → ℤ → Wallet → Wallet
increase a x w = set_column a (column a w +ℤ x) w
