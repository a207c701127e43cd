-- ===== src/Market/Constants.antt =====
-- services/features-service/internal/constants: fees, feature types, colours and status codes.
use Prim.Native.String.{String}
use text.Mathlib.Text.{◌==◌ as str_eq}
use microservice_metarang.Prelude.{ℕ, suc, ◌/◌, Bool, ◌||◌, Option, none, some}
use microservice_metarang.Prelude.Int.{ℤ, pos, negsuc, ◌+ℤ◌, ◌-ℤ◌}
use microservice_metarang.Wallet.Row.{Asset, red, blue, yellow}

-- `price * 0.05`, a float64 in the source and exact here: an amount counts units of 10⁻¹⁰, and what is
-- less than a unit is cut off.
unfoldable pub calculate_fee : ℤ → ℤ
calculate_fee (pos n) = pos (n / 20)
calculate_fee (negsuc n) = pos 0 -ℤ pos (suc n / 20)

unfoldable pub calculate_buyer_charge : ℤ → ℤ
calculate_buyer_charge price = price +ℤ calculate_fee price

unfoldable pub calculate_seller_payment : ℤ → ℤ
calculate_seller_payment price = price -ℤ calculate_fee price

unfoldable pub calculate_platform_fee : ℤ → ℤ
calculate_platform_fee price = calculate_fee price +ℤ calculate_fee price

abbrev pub default_public_pricing_limit : ℕ
default_public_pricing_limit = 80

abbrev pub default_under18_pricing_limit : ℕ
default_under18_pricing_limit = 110

-- The feature types; `other` is any other text.
pub data Karbari : Type 0 where
  maskoni tejari amozeshi faza_sabz farhangi parking mazhabi nemayeshgah gardeshgari : Karbari
  edari behdashti other : Karbari

-- The colour asset; `none` is the empty text.
unfoldable pub get_color : Karbari → Option Asset
get_color amozeshi = some blue
get_color tejari = some red
get_color maskoni = some yellow
get_color other_type = none

unfoldable pub change_status_to_sold_and_priced : Karbari → String
change_status_to_sold_and_priced maskoni = "a"
change_status_to_sold_and_priced tejari = "h"
change_status_to_sold_and_priced amozeshi = "o"
change_status_to_sold_and_priced other_type = ""

unfoldable pub change_status_to_sold_and_not_priced : Karbari → String
change_status_to_sold_and_not_priced maskoni = "b"
change_status_to_sold_and_not_priced tejari = "i"
change_status_to_sold_and_not_priced amozeshi = "p"
change_status_to_sold_and_not_priced other_type = ""

unfoldable pub is_limited_feature : String → Bool
is_limited_feature rgb = str_eq rgb "g" || (str_eq rgb "n" || str_eq rgb "uu")

unfoldable pub is_sold_and_not_priced : String → Bool
is_sold_and_not_priced rgb =
    str_eq rgb "b"
    || (str_eq rgb "i"
        || (str_eq rgb "p" || (str_eq rgb "c" || (str_eq rgb "j" || str_eq rgb "q"))))
