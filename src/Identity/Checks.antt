-- ===== src/Identity/Checks.antt =====
-- What the check digits guard against, and what the character classes let through.
use microservice_metarang.Prelude.{
  ◌*◌, ℕ, ◌+◌, ◌-◌, ◌%◌, ◌≤◌, ◌<◌, Bool, true, false, ◌&&◌, [], ◌∷◌, ◌++◌, ◌≡◌, ap, ◌||◌, ◌==◌,
  refl, ltb, if◌then◌else◌, arith, length, length-append,
}
use microservice_metarang.Identity.Rules.{
  validate_iranian_mobile, validate_iranian_postal_code, validate_iranian_national_code,
  validate_iranian_bank_card_number, is_blank, validate_persian, validate_persian_alpha_num, Text,
  within, normalize_digit, normalize_persian_numbers, is_digit, all, is_digits,
  validate_persian_alpha, validate_persian_num, weighted_sum, digit_at, matches, is_national_code,
  term, luhn, validate_luhn,
}

normalize_digit_idem : (c : ℕ) → normalize_digit (normalize_digit c) ≡ normalize_digit c
unfolding normalize_digit
normalize_digit_idem c = ground arith

-- Normalising a text twice is normalising it once.
pub normalize_persian_numbers_idem :
    (s : Text)
    → normalize_persian_numbers (normalize_persian_numbers s) ≡ normalize_persian_numbers s
unfolding normalize_persian_numbers
normalize_persian_numbers_idem [] = refl
normalize_persian_numbers_idem (c ∷ cs) =
    rw (normalize_digit_idem c, normalize_persian_numbers_idem cs) refl

-- The sum of the digits of a number that lacks its last digit, each times its place from the right
-- end, where the last digit has the first place.
abbrev place_sum : Text → ℕ
place_sum [] = 0
place_sum (c ∷ cs) = (c - 48) * (length cs + 2) + place_sum cs

-- The digit that completes nine digits to a national code: the remainder modulo 11 if it is 0 or 1,
-- and what it lacks to 11 if not.
unfoldable pub check_digit : Text → ℕ
check_digit s = let r = place_sum s % 11 in 48 + (if ltb r 2 then r else 11 - r)

term_injective :
    (alternate : Bool) (a b : ℕ)
    → a ≤ 9
    → b ≤ 9
    → (k : ℕ) → (k + term alternate a) % 10 ≡ 0
    → (k + term alternate b) % 10 ≡ 0
    → a ≡ b
term_injective true a b ha hb k h h' = ground arith
term_injective false a b ha hb k h h' = ground arith

luhn_one :
    (xs ys : Text) (a b : ℕ)
    → (k : ℕ) × ((luhn (xs ++ a ∷ ys)).0 ≡ k + term (luhn ys).1 (a - 48))
      × ((luhn (xs ++ b ∷ ys)).0 ≡ k + term (luhn ys).1 (b - 48))
      × ((luhn (xs ++ a ∷ ys)).1 ≡ (luhn (xs ++ b ∷ ys)).1)
unfolding luhn
luhn_one [] ys a b = ((luhn ys).0, refl, refl, refl)
luhn_one (x ∷ xs) ys a b =
    let (k, ea, eb, same) = luhn_one xs ys a b in
    (
      k + term (luhn (xs ++ b ∷ ys)).1 (x - 48),
      rw (ea, same) (omega arith),
      rw eb (omega arith),
      rw same refl,
    )

-- Of two numbers that differ in one digit at most one passes the Luhn check: no single wrong digit
-- goes unnoticed.
pub validate_luhn_unique :
    (xs ys : Text) (a b : ℕ)
    → is_digit a ≡ true
    → is_digit b ≡ true
    → validate_luhn (xs ++ a ∷ ys) ≡ true
    → validate_luhn (xs ++ b ∷ ys) ≡ true
    → a ≡ b
unfolding validate_luhn
validate_luhn_unique xs ys a b da db va vb =
    let (k, ea, eb, same) = luhn_one xs ys a b in
    let e : a - 48 ≡ b - 48 =
      term_injective (luhn ys).1 (a - 48) (b - 48) (ground arith) (ground arith) k
        (rw (← ea) (ground arith)) (rw (← eb) (ground arith)) in
    ground arith

all_append : (test : ℕ → Bool) (s t : Text) → all test (s ++ t) ≡ (all test s && all test t)
all_append test [] t = refl
all_append test (c ∷ s) t = ground (arith, all_append test s t)

weighted_sum-append :
    (s t : Text) (weight : ℕ)
    → weighted_sum (length s) weight (s ++ t) ≡ weighted_sum (length s) weight s
unfolding weighted_sum
weighted_sum-append [] t weight = refl
weighted_sum-append (c ∷ s) t weight = rw (weighted_sum-append s t (weight - 1)) refl

digit_at-append : (s : Text) (c : ℕ) → digit_at (length s) (s ++ c ∷ []) ≡ c - 48
digit_at-append [] c = refl
digit_at-append (d ∷ s) c = digit_at-append s c

matches_lem :
    (r c : ℕ)
    → r < 11
    → is_digit c ≡ true
    → matches r (c - 48) ≡ (c == 48 + (if ltb r 2 then r else 11 - r))
matches_lem r c h dc = ground arith

is_digits-append :
    (s : Text) (c : ℕ)
    → is_digits 9 s ≡ true
    → is_digit c ≡ true
    → is_digits 10 (s ++ c ∷ []) ≡ true
is_digits-append s c ds dc =
    ground (arith, all_append is_digit s (c ∷ []), length-append s (c ∷ []))

weighted_sum-place_sum : (s : Text) → weighted_sum (length s) (length s + 1) s ≡ place_sum s
unfolding weighted_sum
weighted_sum-place_sum [] = refl
weighted_sum-place_sum (c ∷ s) =
    let places : length (c ∷ s) + 1 ≡ length s + 2 = omega arith in
    let rest : length s + 2 - 1 ≡ length s + 1 = omega arith in
    rw places (rw rest (ap (λ n. (c - 48) * (length s + 2) + n) (weighted_sum-place_sum s)))

-- Of every nine digits and one more, the validation accepts exactly the ones in which the last is
-- the check digit of the first nine, computed from them alone.
pub is_national_code-check_digit :
    (s : Text) (c : ℕ)
    → is_digits 9 s ≡ true
    → is_digit c ≡ true
    → is_national_code (s ++ c ∷ []) ≡ (c == check_digit s)
unfolding is_national_code check_digit
is_national_code-check_digit s c ds dc =
    let nine : length s ≡ 9 = ground arith in
    let first : weighted_sum 9 10 (s ++ c ∷ []) ≡ weighted_sum 9 10 s =
      rw nine at (weighted_sum-append s (c ∷ []) 10) in
    let last : digit_at 9 (s ++ c ∷ []) ≡ c - 48 = rw nine at (digit_at-append s c) in
    let places : weighted_sum 9 10 s ≡ place_sum s = rw nine at (weighted_sum-place_sum s) in
    rw (is_digits-append s c ds dc, first, last, places)
      (matches_lem (place_sum s % 11) c (omega arith) dc)

any_class :
    (test test' : ℕ → Bool)
    → ((c : ℕ) → test c ≡ true → test' c ≡ true)
    → (s : Text) → all test s ≡ true
    → all test' s ≡ true
any_class test test' h [] e = refl
any_class test test' h (c ∷ s) e = ground (arith, h c, any_class test test' h s)

-- Every text of Persian digits passes for a text of Persian letters, too.
pub validate_persian_alpha_digits :
    (s : Text) → validate_persian_num s ≡ true → validate_persian_alpha s ≡ true
unfolding validate_persian_num validate_persian_alpha
validate_persian_alpha_digits [] h = absurd (ground arith)
validate_persian_alpha_digits (c ∷ s) h =
    ground (arith, any_class (within 1776 1785) (within 1536 1791) (λ d e. ground arith) s)

-- The validations of mobile numbers, postal codes, national codes and card numbers answer alike for
-- a text and for the text with its Persian and Arabic digits turned to Latin ones.
pub validate_normalized :
    (s : Text)
    → let t = normalize_persian_numbers s in
      (validate_iranian_mobile t ≡ validate_iranian_mobile s)
      × (validate_iranian_postal_code t ≡ validate_iranian_postal_code s)
      × (validate_iranian_national_code t ≡ validate_iranian_national_code s)
      × (validate_iranian_bank_card_number t ≡ validate_iranian_bank_card_number s)
unfolding validate_iranian_mobile validate_iranian_postal_code validate_iranian_national_code
    validate_iranian_bank_card_number
validate_normalized s = rw (normalize_persian_numbers_idem s) (refl, refl, refl, refl)

all_same :
    (test test' : ℕ → Bool) → ((c : ℕ) → test c ≡ test' c) → (s : Text) → all test s ≡ all test' s
all_same test test' h [] = refl
all_same test test' h (c ∷ s) = rw (h c, all_same test test' h s) refl

-- The class of letters, digits and blanks accepts the same texts as that of letters and blanks.
pub validate_persian-alpha_num : (s : Text) → validate_persian_alpha_num s ≡ validate_persian s
unfolding validate_persian validate_persian_alpha_num
validate_persian-alpha_num [] = refl
validate_persian-alpha_num (c ∷ s) = ground (
  arith,
  all_same (λ d. within 1536 1791 d || (within 1776 1785 d || is_blank d))
      (λ d. within 1536 1791 d || is_blank d) (λ d. ground arith) s,
)
