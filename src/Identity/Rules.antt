-- ===== src/Identity/Rules.antt =====
-- shared/pkg/helpers/validation.go, and `NormalizePersianNumbers` of numbers.go. A text is the list
-- of its code points. The source counts bytes where a length is asked for; it goes on to refuse
-- every text with a character that is no Latin digit, so the answers are the same.
use microservice_metarang.Prelude.{
  ℕ, zero, suc, ◌+◌, ◌-◌, ◌*◌, ◌%◌, Bool, true, false, not, ◌&&◌, ◌||◌, List, [], ◌∷◌, leb, ltb,
  ◌==◌, if◌then◌else◌, length,
}

abbrev pub Text : Type 0
Text = List ℕ

-- `lo ≤ c ≤ hi`
abbrev pub within : ℕ → ℕ → ℕ → Bool
within lo hi c = leb lo c && leb c hi

-- The Persian digits start at U+06F0, the Arabic ones at U+0660.
unfoldable pub normalize_digit : ℕ → ℕ
normalize_digit c =
    if within 1776 1785 c
    then 48 + (c - 1776)
    else if within 1632 1641 c
    then 48 + (c - 1632)
    else c

unfoldable pub normalize_persian_numbers : Text → Text
normalize_persian_numbers [] = []
normalize_persian_numbers (c ∷ cs) = normalize_digit c ∷ normalize_persian_numbers cs

abbrev pub is_digit : ℕ → Bool
is_digit = within 48 57

abbrev pub all : (ℕ → Bool) → Text → Bool
all test [] = true
all test (c ∷ cs) = test c && all test cs

-- `^[…]+$`
abbrev pub some_all : (ℕ → Bool) → Text → Bool
some_all test [] = false
some_all test (c ∷ cs) = test c && all test cs

-- The class `\s` of the regular expressions.
abbrev pub is_blank : ℕ → Bool
is_blank c = c == 32 || (within 9 10 c || within 12 13 c)

unfoldable pub validate_persian : Text → Bool
validate_persian = some_all (λ c. within 1536 1791 c || is_blank c)

unfoldable pub validate_persian_alpha : Text → Bool
validate_persian_alpha = some_all (within 1536 1791)

unfoldable pub validate_persian_num : Text → Bool
validate_persian_num = some_all (within 1776 1785)

unfoldable pub validate_persian_alpha_num : Text → Bool
validate_persian_alpha_num =
    some_all (λ c. within 1536 1791 c || (within 1776 1785 c || is_blank c))

-- `^[0-9]{n}$`
abbrev pub is_digits : ℕ → Text → Bool
is_digits n s = length s == n && all is_digit s

abbrev starts_09 : Text → Bool
starts_09 (a ∷ b ∷ rest) = a == 48 && (b == 57 && is_digits 9 rest)
starts_09 other = false

unfoldable pub validate_iranian_mobile : Text → Bool
unfolding normalize_persian_numbers
validate_iranian_mobile s = starts_09 (normalize_persian_numbers s)

-- `strings.ReplaceAll(s, c, "")` for one character.
unfoldable pub erase : ℕ → Text → Text
erase k [] = []
erase k (c ∷ cs) = let rest = erase k cs in if c == k then rest else c ∷ rest

unfoldable pub validate_iranian_postal_code : Text → Bool
unfolding erase normalize_persian_numbers
validate_iranian_postal_code s = is_digits 10 (erase 32 (erase 45 (normalize_persian_numbers s)))

-- The loop over the first nine digits, whose weights go down from ten, and the tenth digit.
unfoldable pub weighted_sum : ℕ → ℕ → Text → ℕ
weighted_sum zero weight s = 0
weighted_sum (suc rounds) weight [] = 0
weighted_sum (suc rounds) weight (c ∷ cs) = (c - 48) * weight + weighted_sum rounds (weight - 1) cs

abbrev pub digit_at : ℕ → Text → ℕ
digit_at i [] = 0
digit_at zero (c ∷ cs) = c - 48
digit_at (suc i) (c ∷ cs) = digit_at i cs

abbrev pub matches : ℕ → ℕ → Bool
matches remainder check =
    (ltb remainder 2 && check == remainder) || (leb 2 remainder && check == 11 - remainder)

unfoldable pub is_national_code : Text → Bool
unfolding weighted_sum
is_national_code s = is_digits 10 s && matches (weighted_sum 9 10 s % 11) (digit_at 9 s)

unfoldable pub validate_iranian_national_code : Text → Bool
unfolding normalize_persian_numbers is_national_code
validate_iranian_national_code s = is_national_code (normalize_persian_numbers s)

-- What the right end of a number adds up to, and whether the next digit is doubled.
abbrev pub double : ℕ → ℕ
double d = if ltb 9 (d * 2) then d * 2 - 9 else d * 2

abbrev pub term : Bool → ℕ → ℕ
term true d = double d
term false d = d

abbrev pub add_digit : ℕ → ℕ × Bool → ℕ × Bool
add_digit c (sum, alternate) = (sum + term alternate (c - 48), not alternate)

unfoldable pub luhn : Text → ℕ × Bool
luhn [] = (0, false)
luhn (c ∷ cs) = add_digit c (luhn cs)

unfoldable pub validate_luhn : Text → Bool
unfolding luhn
validate_luhn s = (luhn s).0 % 10 == 0

unfoldable pub is_card_number : Text → Bool
unfolding validate_luhn
is_card_number s = is_digits 16 s && validate_luhn s

unfoldable pub validate_iranian_bank_card_number : Text → Bool
unfolding normalize_persian_numbers erase is_card_number
validate_iranian_bank_card_number s =
    is_card_number (erase 45 (erase 32 (normalize_persian_numbers s)))

-- `unicode.IsSpace`
abbrev pub is_space : ℕ → Bool
is_space c =
    within 9 13 c
    || (c == 32
        || (c == 133
            || (c == 160
                || (c == 5760
                    || (within 8192 8202 c
                        || (within 8232 8233 c || (c == 8239 || (c == 8287 || c == 12288))))))))

unfoldable pub trim_left : Text → Text
trim_left [] = []
trim_left (c ∷ cs) = if is_space c then trim_left cs else c ∷ cs

unfoldable pub trim_right : Text → Text
trim_right [] = []
trim_right (c ∷ cs) = if all is_space (c ∷ cs) then [] else c ∷ trim_right cs

unfoldable pub validate_iranian_sheba : Text → Bool
unfolding trim_left trim_right
validate_iranian_sheba s = is_digits 25 (trim_right (trim_left s))
