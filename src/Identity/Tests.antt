-- ===== src/Identity/Tests.antt =====
-- Samples of identity data, and the theorems of the component at them.
use microservice_metarang.Prelude.{ℕ, true, [], ◌∷◌, ◌++◌, ◌≡◌, refl}
use microservice_metarang.Identity.Rules
use microservice_metarang.Identity.Rules.{
  Text, normalize_persian_numbers, is_national_code, validate_luhn, validate_persian,
  validate_persian_alpha, validate_persian_num, validate_persian_alpha_num, validate_iranian_mobile,
  validate_iranian_postal_code, validate_iranian_national_code, validate_iranian_bank_card_number,
}
use microservice_metarang.Identity.Checks.{
  normalize_persian_numbers_idem, validate_luhn_unique, is_national_code-check_digit, check_digit,
}

-- 049937089, which 9 completes.
abbrev nine_digits : Text
nine_digits = 48 ∷ 52 ∷ 57 ∷ 57 ∷ 51 ∷ 55 ∷ 48 ∷ 56 ∷ 57 ∷ []

-- The same in Persian digits, completed.
abbrev persian_code : Text
persian_code = 1776 ∷ 1780 ∷ 1785 ∷ 1785 ∷ 1779 ∷ 1783 ∷ 1776 ∷ 1784 ∷ 1785 ∷ 1785 ∷ []

national_code_accepted : validate_iranian_national_code persian_code ≡ true
unfolding validate_iranian_national_code normalize_persian_numbers Rules.normalize_digit
    is_national_code Rules.weighted_sum
national_code_accepted = refl

is_national_code-check_digit_example : is_national_code (nine_digits ++ 57 ∷ []) ≡ true
unfolding check_digit Rules.weighted_sum
is_national_code-check_digit_example = is_national_code-check_digit nine_digits 57 refl refl

-- 158 passes the Luhn check.
luhn_158 : validate_luhn (49 ∷ 53 ∷ 56 ∷ []) ≡ true
unfolding validate_luhn Rules.luhn
luhn_158 = refl

validate_luhn_unique_example : ◌≡◌ {A = ℕ} 53 53
validate_luhn_unique_example =
    validate_luhn_unique (49 ∷ []) (56 ∷ []) 53 53 refl refl luhn_158 luhn_158

normalize_persian_numbers_idem_example :
    normalize_persian_numbers (normalize_persian_numbers persian_code) ≡ nine_digits ++ 57 ∷ []
unfolding normalize_persian_numbers Rules.normalize_digit
normalize_persian_numbers_idem_example = normalize_persian_numbers_idem persian_code
