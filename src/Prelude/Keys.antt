-- ===== src/Prelude/Keys.antt =====
-- Tables whose rows have a key: what a statement on rows leaves of a query by another test, and
-- tables without two rows of one key.
use Prim.Native.Nat.{ℕ, ◌<◌, suc}
use native.Mathlib.Omega.{arith}
use mathlib.Core.Path.{◌≡◌, refl}
use mathlib.Core.Logic.{◌≢◌, inl, inr}
use mathlib.Core.Bool.{Bool, true, false}
use mathlib.Core.Option.{none, some}
use mathlib.Core.List.{List, [], ◌∷◌, ◌++◌}
use microservice_metarang.Prelude.Tests.{if◌then◌else◌, Bool-cases}
use microservice_metarang.Prelude.Rows.{first, remove, change}

module _ {A : Type 0} where
  -- A change that the test of a query does not see.
  pub first-change_of :
      (p t : A → Bool) (f : A → A) (l : List A) (a : A)
      → ((x : A) → p (f x) ≡ p x)
      → first p l ≡ some a
      → first p (change t f l) ≡ some (if t a then f a else a)
  first-change_of p t f [] a h e = absurd (ground (arith, e))
  first-change_of p t f (x ∷ l) a h e = ground (arith, h x, e, first-change_of p t f l a h)

  pub first-remove_of :
      (p t : A → Bool) (l : List A) (a : A)
      → first p l ≡ some a
      → t a ≡ false
      → first p (remove t l) ≡ some a
  first-remove_of p t [] a e h = absurd (ground (arith, e))
  first-remove_of p t (x ∷ l) a e h = ground (arith, e, h, first-remove_of p t l a)

  pub first-append_of :
      (p : A → Bool) (l : List A) (x a : A) → first p l ≡ some a → first p (l ++ x ∷ []) ≡ some a
  first-append_of p [] x a e = absurd (ground (arith, e))
  first-append_of p (y ∷ l) x a e = ground (arith, e, first-append_of p l x a)

  pub first-append_new :
      (p : A → Bool) (l : List A) (x : A)
      → first p l ≡ none
      → p x ≡ true
      → first p (l ++ x ∷ []) ≡ some x
  first-append_new p [] x e h = rw h refl
  first-append_new p (y ∷ l) x e h = ground (arith, e, first-append_new p l x)

  pub first_passes : (p : A → Bool) (l : List A) (a : A) → first p l ≡ some a → p a ≡ true
  first_passes p [] a e = absurd (ground (arith, e))
  first_passes p (x ∷ l) a e = ground (arith, e, first_passes p l a)

-- Keys below a bound, no two of them equal.
module _ {A : Type 0} (key : A → ℕ) where
  abbrev pub Below : ℕ → List A → Type 0
  Below n [] = Unit
  Below n (a ∷ l) = (key a < n) × Below n l

  abbrev pub Apart : ℕ → List A → Type 0
  Apart k [] = Unit
  Apart k (a ∷ l) = (key a ≢ k) × Apart k l

  abbrev pub Distinct : List A → Type 0
  Distinct [] = Unit
  Distinct (a ∷ l) = Apart (key a) l × Distinct l

  pub Below-suc : (n : ℕ) (l : List A) → Below n l → Below (suc n) l
  Below-suc n [] h = tt
  Below-suc n (a ∷ l) h = (omega arith, Below-suc n l h.1)

  Below-Apart : (n : ℕ) (l : List A) → Below n l → Apart n l
  Below-Apart n [] h = tt
  Below-Apart n (a ∷ l) h = (ground arith, Below-Apart n l h.1)

  Below-append : (n : ℕ) (l : List A) (a : A) → Below n l → key a < n → Below n (l ++ a ∷ [])
  Below-append n [] a h k = (k, tt)
  Below-append n (b ∷ l) a h k = (h.0, Below-append n l a h.1 k)

  Apart-append : (k : ℕ) (l : List A) (a : A) → Apart k l → key a ≢ k → Apart k (l ++ a ∷ [])
  Apart-append k [] a h e = (e, tt)
  Apart-append k (b ∷ l) a h e = (h.0, Apart-append k l a h.1 e)

  Distinct-append : (l : List A) (a : A) → Distinct l → Apart (key a) l → Distinct (l ++ a ∷ [])
  Distinct-append [] a h e = (tt, tt)
  Distinct-append (b ∷ l) a h e =
      (Apart-append (key b) l a h.0 (ground (arith, e.0)), Distinct-append l a h.1 e.1)

  pub Apart-first :
      (k : ℕ) (p : A → Bool) (l : List A) (a : A) → Apart k l → first p l ≡ some a → key a ≢ k
  Apart-first k p [] a h e = absurd (ground (arith, e))
  Apart-first k p (b ∷ l) a h e = ground (arith, h.0, e, Apart-first k p l a)

  pub Below-first :
      (n : ℕ) (p : A → Bool) (l : List A) (a : A) → Below n l → first p l ≡ some a → key a < n
  Below-first n p [] a h e = absurd (ground (arith, e))
  Below-first n p (b ∷ l) a h e = ground (arith, h.0, e, Below-first n p l a h.1)

  -- Two queries that find rows of one key find one row.
  pub Distinct-first :
      (p q : A → Bool) (l : List A) (a b : A)
      → Distinct l
      → first p l ≡ some a
      → first q l ≡ some b
      → key a ≡ key b
      → a ≡ b
  Distinct-first p q [] a b h e f k = absurd (ground (arith, e))
  Distinct-first p q (x ∷ l) a b h e f k = ground (
    arith,
    h,
    e,
    f,
    k,
    Apart-first (key x) p l a h.0,
    Apart-first (key x) q l b h.0,
    Distinct-first p q l a b h.1,
  )

  pub record IsKeyed (n : ℕ) (l : List A) : Type 0 where
    pub below : Below n l
    pub distinct : Distinct l

  pub IsKeyed-append :
      (n : ℕ) (l : List A) (a : A) → IsKeyed n l → key a ≡ n → IsKeyed (suc n) (l ++ a ∷ [])
  IsKeyed-append n l a h e = record {
    below = Below-append (suc n) l a (Below-suc n l h.below) (omega (arith, e));
    distinct = Distinct-append l a h.distinct (rw e (Below-Apart n l h.below));
  }

  Below-change :
      (n : ℕ) (t : A → Bool) (f : A → A) (l : List A)
      → ((x : A) → key (f x) ≡ key x)
      → Below n l
      → Below n (change t f l)
  Below-change n t f [] h b = tt
  Below-change n t f (x ∷ l) h b = (ground (arith, h x, b.0), Below-change n t f l h b.1)

  Apart-change :
      (k : ℕ) (t : A → Bool) (f : A → A) (l : List A)
      → ((x : A) → key (f x) ≡ key x)
      → Apart k l
      → Apart k (change t f l)
  Apart-change k t f [] h b = tt
  Apart-change k t f (x ∷ l) h b = (ground (arith, h x, b.0), Apart-change k t f l h b.1)

  change-key :
      (t : A → Bool) (f : A → A) (x : A)
      → ((y : A) → key (f y) ≡ key y)
      → key (if t x then f x else x) ≡ key x
  change-key t f x h = ground (arith, h x)

  Distinct-change :
      (t : A → Bool) (f : A → A) (l : List A)
      → ((x : A) → key (f x) ≡ key x)
      → Distinct l
      → Distinct (change t f l)
  Distinct-change t f [] h d = tt
  Distinct-change t f (x ∷ l) h d =
      (rw (change-key t f x h) (Apart-change (key x) t f l h d.0), Distinct-change t f l h d.1)

  pub IsKeyed-change :
      (n : ℕ) (t : A → Bool) (f : A → A) (l : List A)
      → ((x : A) → key (f x) ≡ key x)
      → IsKeyed n l
      → IsKeyed n (change t f l)
  IsKeyed-change n t f l h k = record {
    below = Below-change n t f l h k.below;
    distinct = Distinct-change t f l h k.distinct;
  }

  Below-remove : (n : ℕ) (t : A → Bool) (l : List A) → Below n l → Below n (remove t l)
  Below-remove n t [] b = tt
  Below-remove n t (x ∷ l) b = elim (Bool-cases (t x)) [
    | inl e ↦ rw e (Below-remove n t l b.1)
    | inr e ↦ rw e (b.0, Below-remove n t l b.1)
  ]

  Apart-remove : (k : ℕ) (t : A → Bool) (l : List A) → Apart k l → Apart k (remove t l)
  Apart-remove k t [] b = tt
  Apart-remove k t (x ∷ l) b = elim (Bool-cases (t x)) [
    | inl e ↦ rw e (Apart-remove k t l b.1)
    | inr e ↦ rw e (b.0, Apart-remove k t l b.1)
  ]

  Distinct-remove : (t : A → Bool) (l : List A) → Distinct l → Distinct (remove t l)
  Distinct-remove t [] d = tt
  Distinct-remove t (x ∷ l) d = elim (Bool-cases (t x)) [
    | inl e ↦ rw e (Distinct-remove t l d.1)
    | inr e ↦ rw e (Apart-remove (key x) t l d.0, Distinct-remove t l d.1)
  ]

  pub IsKeyed-remove : (n : ℕ) (t : A → Bool) (l : List A) → IsKeyed n l → IsKeyed n (remove t l)
  IsKeyed-remove n t l k = record {
    below = Below-remove n t l k.below;
    distinct = Distinct-remove t l k.distinct;
  }
