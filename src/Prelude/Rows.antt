-- ===== src/Prelude/Rows.antt =====
-- The rows of a table as a list: the queries and updates that the repositories share.
use Prim.Native.Nat.{ℕ, suc, ◌+◌}
use native.Mathlib.Omega.{arith}
use mathlib.Core.Path.{◌≡◌}
use mathlib.Core.Bool.{Bool, true, false}
use mathlib.Core.Option.{Option, none, some}
use mathlib.Core.List.{List, [], ◌∷◌, ◌++◌}
use microservice_metarang.Prelude.Tests.{if◌then◌else◌}

-- The first row that passes a test, all of them, and all but them.
module _ {A : Type 0} where
  abbrev pub first : (A → Bool) → List A → Option A
  first test [] = none
  first test (a ∷ rest) = if test a then some a else first test rest

  abbrev pub select : (A → Bool) → List A → List A
  select test [] = []
  select test (a ∷ rest) = if test a then a ∷ select test rest else select test rest

  abbrev pub remove : (A → Bool) → List A → List A
  remove test [] = []
  remove test (a ∷ rest) = if test a then remove test rest else a ∷ remove test rest

  abbrev pub change : (A → Bool) → (A → A) → List A → List A
  change test set [] = []
  change test set (a ∷ rest) = (if test a then set a else a) ∷ change test set rest

  abbrev pub count : (A → Bool) → List A → ℕ
  count test [] = 0
  count test (a ∷ rest) = let n = count test rest in if test a then suc n else n

pub count-append :
    {A : Type 0} (test : A → Bool) (l : List A) (a : A)
    → count test (l ++ a ∷ []) ≡ count test l + (if test a then 1 else 0)
count-append test [] a = ground arith
count-append test (b ∷ l) a = ground (arith, count-append test l a)

abbrev pub is_some {ℓ} : {A : Type ℓ} → Option A → Bool
is_some none = false
is_some (some a) = true
