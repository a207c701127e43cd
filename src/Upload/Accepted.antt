-- ===== src/Upload/Accepted.antt =====
-- Chunked uploads in the abstract: of the chunks that arrive, in whatever order, the first of each
-- index counts.
use microservice_metarang.Prelude.{
  ℕ, zero, suc, ◌≤◌, ◌<◌, true, false, List, [], ◌∷◌, ◌++◌, ◌≡◌, ◌==◌, refl, if◌then◌else◌, arith,
  All, length, Bool-cases, inl, inr,
}
use microservice_metarang.Upload.Session.{Bytes, member}
use microservice_metarang.Upload.Handle.{Chunk}

abbrev pub indices : List Chunk → List ℕ
indices [] = []
indices (c ∷ cs) = c.index ∷ indices cs

-- The chunks that count, the latest first.
abbrev pub accept : Chunk → List Chunk → List Chunk
accept c got = if member c.index (indices got) then got else c ∷ got

abbrev pub accept_all : List Chunk → List Chunk → List Chunk
accept_all [] got = got
accept_all (c ∷ cs) got = accept_all cs (accept c got)

-- The content that counts for an index, and those of the indices from i on, one after the other.
abbrev pub content_at : ℕ → List Chunk → Bytes
content_at i [] = []
content_at i (c ∷ cs) = if i == c.index then c.content else content_at i cs

abbrev pub joined : ℕ → ℕ → List Chunk → Bytes
joined i zero got = []
joined i (suc rounds) got = content_at i got ++ joined (suc i) rounds got

abbrev pub IsDistinct : List ℕ → Type 0
IsDistinct [] = Unit
IsDistinct (i ∷ is) = (member i is ≡ false) × IsDistinct is

abbrev pub IsBelow : ℕ → List ℕ → Type 0
IsBelow n is = All (λ i. i < n) is

abbrev without : ℕ → List ℕ → List ℕ
without k [] = []
without k (i ∷ is) = let rest = without k is in if k == i then rest else i ∷ rest

without_absent : (k : ℕ) (is : List ℕ) → member k is ≡ false → without k is ≡ is
without_absent k [] h = refl
without_absent k (i ∷ is) h = ground (arith, without_absent k is)

length-without : (k : ℕ) (is : List ℕ) → IsDistinct is → length is ≤ suc (length (without k is))
length-without k [] h = omega arith
length-without k (i ∷ is) h = ground (arith, length-without k is h.1, without_absent k is)

member-without : (i k : ℕ) (is : List ℕ) → member i is ≡ false → member i (without k is) ≡ false
member-without i k [] h = refl
member-without i k (j ∷ is) h = ground (arith, member-without i k is)

without-IsDistinct : (k : ℕ) (is : List ℕ) → IsDistinct is → IsDistinct (without k is)
without-IsDistinct k [] h = tt
without-IsDistinct k (i ∷ is) h = elim (Bool-cases (k == i)) [
  | inl e ↦ rw e (without-IsDistinct k is h.1)
  | inr e ↦ rw e (member-without i k is h.0, without-IsDistinct k is h.1)
]

without-IsBelow : (n : ℕ) (is : List ℕ) → IsBelow (suc n) is → IsBelow n (without n is)
without-IsBelow n [] h = tt
without-IsBelow n (i ∷ is) h = elim (Bool-cases (n == i)) [
  | inl e ↦ rw e (without-IsBelow n is h.1)
  | inr e ↦ rw e (ground (arith, h.0), without-IsBelow n is h.1)
]

distinct_below_length : (n : ℕ) (is : List ℕ) → IsDistinct is → IsBelow n is → length is ≤ n
distinct_below_length zero [] d b = omega arith
distinct_below_length zero (i ∷ is) d b = absurd (omega (arith, b.0))
distinct_below_length (suc n) is d b =
    let rest : length (without n is) ≤ n =
      distinct_below_length n (without n is) (without-IsDistinct n is d) (without-IsBelow n is b) in
    omega (arith, length-without n is d)

pub member_of_enough :
    (n i : ℕ) (is : List ℕ)
    → IsDistinct is
    → IsBelow n is
    → length is ≡ n
    → i < n
    → member i is ≡ true
member_of_enough n i is d b e h = elim (Bool-cases (member i is)) [
  | inl present ↦ present
  | inr absent ↦
      let short : length (i ∷ is) ≤ n = distinct_below_length n (i ∷ is) (absent, d) (h, b) in
      absurd (omega arith)
]

pub accept-IsDistinct :
    (c : Chunk) (got : List Chunk) → IsDistinct (indices got) → IsDistinct (indices (accept c got))
accept-IsDistinct c got d = elim (Bool-cases (member c.index (indices got))) [
  | inl e ↦ rw e d
  | inr e ↦ rw e (e, d)
]

pub accept-IsBelow :
    (n : ℕ) (c : Chunk) (got : List Chunk)
    → c.index < n
    → IsBelow n (indices got)
    → IsBelow n (indices (accept c got))
accept-IsBelow n c got h b = elim (Bool-cases (member c.index (indices got))) [
  | inl e ↦ rw e b
  | inr e ↦ rw e (h, b)
]

pub length-indices : (got : List Chunk) → length (indices got) ≡ length got
length-indices [] = refl
length-indices (c ∷ cs) = omega (arith, length-indices cs)

pub length-accept : (c : Chunk) (got : List Chunk) → length got ≤ length (accept c got)
length-accept c got = ground arith

pub length-accept_all : (cs got : List Chunk) → length got ≤ length (accept_all cs got)
length-accept_all [] got = omega arith
length-accept_all (c ∷ cs) got =
    let more : length (accept c got) ≤ length (accept_all cs (accept c got)) =
      length-accept_all cs (accept c got) in
    let one : length got ≤ length (accept c got) = length-accept c got in omega arith

pub accept_all-IsDistinct :
    (cs got : List Chunk) → IsDistinct (indices got) → IsDistinct (indices (accept_all cs got))
accept_all-IsDistinct [] got d = d
accept_all-IsDistinct (c ∷ cs) got d =
    accept_all-IsDistinct cs (accept c got) (accept-IsDistinct c got d)

pub accept_all-IsBelow :
    (n : ℕ) (cs got : List Chunk)
    → IsBelow n (indices cs)
    → IsBelow n (indices got)
    → IsBelow n (indices (accept_all cs got))
accept_all-IsBelow n [] got h b = b
accept_all-IsBelow n (c ∷ cs) got h b =
    accept_all-IsBelow n cs (accept c got) h.1 (accept-IsBelow n c got h.0 b)
