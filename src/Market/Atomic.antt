-- ===== src/Market/Atomic.antt =====
-- Steps that change nothing when they fail, put together from reads, checks and updates.
use microservice_metarang.Prelude.{
  Bool, true, false, Option, none, some, ◌≡◌, ◌≢◌, refl, ◌∙◌, arith,
}
use microservice_metarang.Prelude.Action.{
  Result, ok, err, pure, fail, gets, or_fail, fail_if, modify, ◌>>=◌,
}
use microservice_metarang.Market.Tables.{Market, MarketError, Step}

-- The step changes nothing, it does so if it fails, and it never fails.
pub record Reads {A : Type 0} (s : Step A) : Type 0 where
  pub same : (m : Market) → (s m).1 ≡ m

pub record IsAtomic {A : Type 0} (s : Step A) : Type 0 where
  pub undone : (m : Market) (e : MarketError) → (s m).0 ≡ err e → (s m).1 ≡ m

pub record Succeeds {A : Type 0} (s : Step A) : Type 0 where
  pub fails_never : (m : Market) (e : MarketError) → (s m).0 ≢ err e

module _ {A : Type 0} where
  pub gets-Reads : (f : Market → A) → Reads (gets f)
  gets-Reads f = record { same = λ m. refl }

  pub or_fail-Reads : (o : Option A) (e : MarketError) → Reads (or_fail o e)
  or_fail-Reads none e = record { same = λ m. refl }
  or_fail-Reads (some a) e = record { same = λ m. refl }

  pub pure-Succeeds : (a : A) → Succeeds {A = A} (pure a)
  pure-Succeeds a = record { fails_never = λ m e h. cc }

pub fail_if-Reads : (b : Bool) (e : MarketError) → Reads (fail_if b e)
fail_if-Reads true e = record { same = λ m. refl }
fail_if-Reads false e = record { same = λ m. refl }

pub modify-Succeeds : (f : Market → Market) → Succeeds (modify f)
modify-Succeeds f = record { fails_never = λ m e h. cc }

abbrev after :
    {A B : Type 0} → (A → Step B) → Result MarketError A × Market → Result MarketError B × Market
after f (r, m) = elim r [ ok a ↦ f a m | err e ↦ (err e, m) ]

module _ {A B : Type 0} (f : A → Step B) where
  after_read :
      (p : Result MarketError A × Market) (m : Market) (e : MarketError)
      → p.1 ≡ m
      → ((a : A) → IsAtomic (f a))
      → (after f p).0 ≡ err e
      → (after f p).1 ≡ m
  after_read (ok a, m') m e q h k = (h a).undone m' e k ∙ q
  after_read (err x, m') m e q h k = q

  after_atomic :
      (p : Result MarketError A × Market) (m : Market) (e : MarketError)
      → ((x : MarketError) → p.0 ≡ err x → p.1 ≡ m)
      → ((a : A) → Succeeds (f a))
      → (after f p).0 ≡ err e
      → (after f p).1 ≡ m
  after_atomic (ok a, m') m e q h k = absurd ((h a).fails_never m' e k)
  after_atomic (err x, m') m e q h k = q x refl

  after_success :
      (p : Result MarketError A × Market) (e : MarketError)
      → ((x : MarketError) → p.0 ≢ err x)
      → ((a : A) → Succeeds (f a))
      → (after f p).0 ≢ err e
  after_success (ok a, m') e q h k = (h a).fails_never m' e k
  after_success (err x, m') e q h k = q x refl

module _ {A B : Type 0} (c : Step A) (f : A → Step B) where
  -- A read may stand before an atomic step, and steps that never fail behind one.
  pub >>=-IsAtomic_read : Reads c → ((a : A) → IsAtomic (f a)) → IsAtomic (c >>= f)
  >>=-IsAtomic_read r h = record { undone = λ m e k. after_read f (c m) m e (r.same m) h k }

  pub >>=-IsAtomic_end : IsAtomic c → ((a : A) → Succeeds (f a)) → IsAtomic (c >>= f)
  >>=-IsAtomic_end t h = record { undone = λ m e k. after_atomic f (c m) m e (t.undone m) h k }

  pub >>=-Succeeds : Succeeds c → ((a : A) → Succeeds (f a)) → Succeeds (c >>= f)
  >>=-Succeeds s h = record { fails_never = λ m e k. after_success f (c m) e (s.fails_never m) h k }

-- The step fails at every market, and changes nothing.
pub record IsRefused {A : Type 0} (s : Step A) : Type 0 where
  pub refuses : (m : Market) → ((e : MarketError) × ((s m).0 ≡ err e)) × ((s m).1 ≡ m)

module _ {A B : Type 0} (f : A → Step B) where
  after_refusal :
      (p : Result MarketError A × Market) (m : Market)
      → ((a : A) → IsRefused (f a))
      → p.1 ≡ m
      → ((e : MarketError) × ((after f p).0 ≡ err e)) × ((after f p).1 ≡ m)
  after_refusal (ok a, m') m h q = let (r, s) = (h a).refuses m' in (r, s ∙ q)
  after_refusal (err x, m') m h q = ((x, refl), q)

  refusal_first :
      (p : Result MarketError A × Market) (m : Market)
      → ((e : MarketError) × (p.0 ≡ err e)) × (p.1 ≡ m)
      → ((e : MarketError) × ((after f p).0 ≡ err e)) × ((after f p).1 ≡ m)
  refusal_first (ok a, m') m ((e, q), s) = absurd (ground arith)
  refusal_first (err x, m') m ((e, q), s) = ((x, refl), s)

module _ {A B : Type 0} (c : Step A) (f : A → Step B) where
  pub >>=-IsRefused_read : Reads c → ((a : A) → IsRefused (f a)) → IsRefused (c >>= f)
  >>=-IsRefused_read r h = record { refuses = λ m. after_refusal f (c m) m h (r.same m) }

  pub >>=-IsRefused_first : IsRefused c → IsRefused (c >>= f)
  >>=-IsRefused_first r = record { refuses = λ m. refusal_first f (c m) m (r.refuses m) }

pub fail-IsRefused : {A : Type 0} (e : MarketError) → IsRefused {A = A} (fail e)
fail-IsRefused e = record { refuses = λ m. ((e, refl), refl) }

pub ruleset refusal = (
  >>=-IsRefused_read, >>=-IsRefused_first, gets-Reads, or_fail-Reads, fail_if-Reads, fail-IsRefused,
)

pub ruleset atomic = (
  >>=-IsAtomic_read, >>=-IsAtomic_end, >>=-Succeeds, gets-Reads, or_fail-Reads, pure-Succeeds,
  fail_if-Reads, modify-Succeeds,
)
