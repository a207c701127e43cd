-- ===== src/Prelude/Action.antt =====
-- A call that reads and writes a state and may return an error. The state comes back with an error
-- too, since what was written stays written.
use mathlib.Core.Bool.{Bool, true, false}
use mathlib.Core.Path.{◌≡◌, refl, sym, ap, ◌∙◌}
use native.Mathlib.Omega.{arith}
use mathlib.Core.Option.{Option, none, some}

pub data Result (E A : Type 0) : Type 0 where
  ok : A → Result E A
  err : E → Result E A

abbrev pub Action : Type 0 → Type 0 → Type 0 → Type 0
Action S E A = S → Result E A × S

module _ {S E A : Type 0} where
  abbrev pub pure : A → Action S E A
  pure a s = (ok a, s)

  abbrev pub fail : E → Action S E A
  fail e s = (err e, s)

  abbrev pub gets : (S → A) → Action S E A
  gets f s = (ok (f s), s)

  abbrev pub or_fail : Option A → E → Action S E A
  or_fail none e = fail e
  or_fail (some a) e = pure a

infixl 5 ◌>>=◌ ◌>>◌
abbrev pub ◌>>=◌ : {S E A B : Type 0} → Action S E A → (A → Action S E B) → Action S E B
◌>>=◌ m f s = let (r, s') = m s in elim r [ ok a ↦ f a s' | err e ↦ fail e s' ]

abbrev pub ◌>>◌ : {S E A B : Type 0} → Action S E A → Action S E B → Action S E B
m >> k = m >>= λ _. k

module _ {S E : Type 0} where
  abbrev pub fail_if : Bool → E → Action S E (Unit {0})
  fail_if true e = fail e
  fail_if false e = pure tt

  abbrev pub modify : (S → S) → Action S E (Unit {0})
  modify f s = (ok tt, f s)

  -- A call whose error is only logged or dropped.
  abbrev pub ignore : {A : Type 0} → Action S E A → Action S E (Unit {0})
  ignore m s = (ok tt, (m s).1)

-- The first call of two at a state where its answer is known.
module _ {S E A B : Type 0} (m : Action S E A) (f : A → Action S E B) where
  abbrev proceed : Result E A × S → Result E B × S
  proceed (ok a, s) = f a s
  proceed (err e, s) = (err e, s)

  proceed-bind : (s : S) → (m >>= f) s ≡ proceed (m s)
  proceed-bind s = ground arith

  pub bind_ok : (s s' : S) (a : A) → m s ≡ (ok a, s') → (m >>= f) s ≡ f a s'
  bind_ok s s' a e = proceed-bind s ∙ ap proceed e

  pub bind_err : (s s' : S) (e : E) → m s ≡ (err e, s') → (m >>= f) s ≡ (err e, s')
  bind_err s s' e h = proceed-bind s ∙ ap proceed h

  -- What holds after the first call and is kept by the second holds after both.
  proceed_keeps :
      (P : S → Type 0) (r : Result E A × S)
      → P r.1
      → ((a : A) (t : S) → P t → P (f a t).1)
      → P (proceed r).1
  proceed_keeps P (ok a, t) h k = k a t h
  proceed_keeps P (err e, t) h k = h

  pub bind_keeps :
      (P : S → Type 0) (s : S)
      → P (m s).1
      → ((a : A) (t : S) → P t → P (f a t).1)
      → P ((m >>= f) s).1
  bind_keeps P s h k = rw (proceed-bind s) (proceed_keeps P (m s) h k)

  proceed_ok :
      (r : Result E A × S) (b : B)
      → (proceed r).0 ≡ ok b
      → (a : A) × (r.0 ≡ ok a) × (proceed r ≡ f a r.1)
  proceed_ok (ok a, t) b h = (a, refl, refl)
  proceed_ok (err e, t) b h = absurd (ground (arith, h))

  -- Of two calls that succeed together the first does.
  pub bind_succeeds :
      (s : S) (b : B)
      → ((m >>= f) s).0 ≡ ok b
      → (a : A) × ((m s).0 ≡ ok a) × ((m >>= f) s ≡ f a (m s).1)
  bind_succeeds s b h =
      let (a, e, g) =
        proceed_ok (m s) b (sym (ap (λ (r : Result E B × S). r.0) (proceed-bind s)) ∙ h) in
      (a, e, proceed-bind s ∙ g)
