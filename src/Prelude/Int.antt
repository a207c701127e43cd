-- ===== src/Prelude/Int.antt =====
-- Signed integers over the native numbers. Sums and orders go through the two parts of an integer.
use Prim.Native.Nat.{ℕ, suc, ◌+◌, ◌-◌, ◌*◌, ◌/◌, ◌≤◌}
use mathlib.Core.Path.{◌≡◌}
use mathlib.Core.Bool.{Bool, true}
use native.Mathlib.Omega.{arith}
use microservice_metarang.Prelude.Tests.{ltb, leb, ◌==◌, if◌then◌else◌}

-- `negsuc n` is -(n + 1).
pub data ℤ : Type 0 where
  pos : ℕ → ℤ
  negsuc : ℕ → ℤ

abbrev pub pos_part : ℤ → ℕ
pos_part (pos n) = n
pos_part (negsuc n) = 0

abbrev pub neg_part : ℤ → ℕ
neg_part (pos n) = 0
neg_part (negsuc n) = suc n

abbrev pub sub_ℕ : ℕ → ℕ → ℤ
sub_ℕ a b = if leb b a then pos (a - b) else negsuc (b - a - 1)

infixl 65 ◌+ℤ◌ ◌-ℤ◌
infix 50 ◌≤ℤ◌
unfoldable pub ◌+ℤ◌ : ℤ → ℤ → ℤ
a +ℤ b = sub_ℕ (pos_part a + pos_part b) (neg_part a + neg_part b)

unfoldable pub ◌-ℤ◌ : ℤ → ℤ → ℤ
a -ℤ b = sub_ℕ (pos_part a + neg_part b) (neg_part a + pos_part b)

abbrev pub ◌≤ℤ◌ : ℤ → ℤ → Type 0
a ≤ℤ b = pos_part a + neg_part b ≤ pos_part b + neg_part a

abbrev pub ltb_ℤ : ℤ → ℤ → Bool
ltb_ℤ a b = ltb (pos_part a + neg_part b) (pos_part b + neg_part a)

abbrev pub leb_ℤ : ℤ → ℤ → Bool
leb_ℤ a b = leb (pos_part a + neg_part b) (pos_part b + neg_part a)

abbrev pub eqb_ℤ : ℤ → ℤ → Bool
eqb_ℤ a b = pos_part a + neg_part b == pos_part b + neg_part a

abbrev pub scale : ℕ → ℤ → ℤ
scale k (pos n) = pos (k * n)
scale k (negsuc n) = pos 0 -ℤ pos (k * suc n)

-- The quotient, cut off towards zero.
unfoldable pub cut : ℕ → ℤ → ℤ
cut k (pos n) = pos (n / k)
cut k (negsuc n) = pos 0 -ℤ pos (suc n / k)

-- With these the operations can stay shut.
pub +ℤ_parts :
    (a b : ℤ)
    → pos_part (a +ℤ b) + neg_part a + neg_part b ≡ neg_part (a +ℤ b) + pos_part a + pos_part b
unfolding ◌+ℤ◌
+ℤ_parts a b = ground arith

pub -ℤ_parts :
    (a b : ℤ)
    → pos_part (a -ℤ b) + neg_part a + pos_part b ≡ neg_part (a -ℤ b) + pos_part a + neg_part b
unfolding ◌-ℤ◌
-ℤ_parts a b = ground arith

pub eq_of_parts : (a b : ℤ) → pos_part a + neg_part b ≡ pos_part b + neg_part a → a ≡ b
eq_of_parts a b h = ground arith

pub ruleset int_laws = (arith, +ℤ_parts, -ℤ_parts, eq_of_parts)

pub +ℤ-cancel : (a b : ℤ) → a -ℤ b +ℤ b ≡ a
+ℤ-cancel a b = omega int_laws

pub -ℤ-left : (a b x : ℤ) → a -ℤ x +ℤ b ≡ a +ℤ b -ℤ x
-ℤ-left a b x = omega int_laws

pub -ℤ-right : (a b x : ℤ) → a +ℤ (b -ℤ x) ≡ a +ℤ b -ℤ x
-ℤ-right a b x = omega int_laws

pub +ℤ-left : (a b x : ℤ) → a +ℤ x +ℤ b ≡ a +ℤ b +ℤ x
+ℤ-left a b x = omega int_laws

pub +ℤ-right : (a b x : ℤ) → a +ℤ (b +ℤ x) ≡ a +ℤ b +ℤ x
+ℤ-right a b x = omega int_laws

pub -ℤ-self : (a x : ℤ) → x +ℤ a -ℤ x ≡ a
-ℤ-self a x = omega int_laws

pub zero-+ℤ : (a : ℤ) → pos 0 +ℤ a ≡ a
zero-+ℤ a = omega int_laws

pub eqb_ℤ→eq : (a b : ℤ) → eqb_ℤ a b ≡ true → a ≡ b
eqb_ℤ→eq a b h = ground arith

pub eqb_ℤ_refl : (a : ℤ) → eqb_ℤ a a ≡ true
eqb_ℤ_refl a = ground arith

-- An amount that moves from one sum to another.
pub move-ℤ-out : (a b x : ℤ) → a -ℤ x +ℤ (b +ℤ (x +ℤ pos 0)) ≡ a +ℤ b
move-ℤ-out a b x = omega int_laws

pub move-ℤ-none : (a b : ℤ) → a +ℤ (b +ℤ (pos 0 +ℤ pos 0)) ≡ a +ℤ b
move-ℤ-none a b = omega int_laws

pub move-ℤ-back : (a b x : ℤ) → a +ℤ x +ℤ (b -ℤ x) ≡ a +ℤ b
move-ℤ-back a b x = omega int_laws
