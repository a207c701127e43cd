-- ===== src/Wallet/Columns.antt =====
-- Reading a column after a write, and the rows under an update.
use microservice_metarang.Prelude.{true, ◌≡◌, if◌then◌else◌, arith}
use microservice_metarang.Prelude.Int.{ℤ, ◌+ℤ◌, ◌-ℤ◌, int_laws}
use microservice_metarang.Wallet.Row.{
  Asset, psc, irr, red, blue, yellow, satisfaction, effect, same_asset, Wallet, column, set_column,
  increase,
}
use microservice_metarang.Wallet.Repository.{decrease}

pub column-set_column :
    (a b : Asset) (v : ℤ) (w : Wallet)
    → column b (set_column a v w) ≡ (if same_asset a b then v else column b w)
unfolding column set_column
column-set_column psc b v w = ground arith
column-set_column irr b v w = ground arith
column-set_column red b v w = ground arith
column-set_column blue b v w = ground arith
column-set_column yellow b v w = ground arith
column-set_column satisfaction b v w = ground arith
column-set_column effect b v w = ground arith

pub set_column-column : (a : Asset) (w : Wallet) → set_column a (column a w) w ≡ w
unfolding column set_column
set_column-column a w = ground arith

pub set_column-set_column :
    (a : Asset) (u v : ℤ) (w : Wallet) → set_column a u (set_column a v w) ≡ set_column a u w
unfolding set_column
set_column-set_column a u v w = ground arith

pub set_column_owner : (a : Asset) (v : ℤ) (w : Wallet) → (set_column a v w).user_id ≡ w.user_id
unfolding set_column
set_column_owner a v w = ground arith

pub same_asset_refl : (a : Asset) → same_asset a a ≡ true
same_asset_refl a = ground arith

pub column-decrease :
    (a b : Asset) (x : ℤ) (w : Wallet)
    → column b (decrease a x w) ≡ (if same_asset a b then column a w -ℤ x else column b w)
column-decrease a b x w = column-set_column a b (column a w -ℤ x) w

pub column-increase :
    (a b : Asset) (x : ℤ) (w : Wallet)
    → column b (increase a x w) ≡ (if same_asset a b then column a w +ℤ x else column b w)
unfolding increase
column-increase a b x w = column-set_column a b (column a w +ℤ x) w

-- Putting back what was taken gives the row as it was.
pub increase-decrease : (a : Asset) (x : ℤ) (w : Wallet) → increase a x (decrease a x w) ≡ w
unfolding increase
increase-decrease a x w =
    let e : column a (decrease a x w) +ℤ x ≡ column a w =
      rw (column-decrease, same_asset_refl a) (omega int_laws) in
    rw (e, set_column-set_column) (set_column-column a w)

pub same_asset→eq : (a b : Asset) → same_asset a b ≡ true → a ≡ b
same_asset→eq a b h = ground arith
