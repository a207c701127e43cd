-- ===== src/Dynasty/Founding.antt =====
-- services/dynasty-service/internal/service/dynasty_service.go and prize_service.go: the calls that
-- found dynasties, move them and claim prizes, one after the other.
use mathlib.Core.Path.{subst}
use microservice_metarang.Prelude.{
  ℕ, Bool, true, false, Option, none, some, List, [], ◌∷◌, ◌++◌, ◌≡◌, ◌≤◌, refl, inl, inr, arith,
  ◌==◌, if◌then◌else◌, Bool-cases, Option-cases,
}
use microservice_metarang.Prelude.Rows.{first, count-append, change, count, is_some}
use microservice_metarang.Dynasty.Tables.{House, Family, Registry, Env, owner}
use microservice_metarang.Dynasty.Repository.{
  get_dynasty_by_user_id, get_dynasty_by_id, create_dynasty_row, create_family,
  create_family_member, set_dynasty_feature, get_received_prize, delete_received_prize,
  get_family_by_dynasty_id,
}
use microservice_metarang.Dynasty.Houses.{create_dynasty, update_dynasty_feature, claim_prize}

pub data HouseCall : Type 0 where
  found : ℕ → ℕ → HouseCall
  move : ℕ → ℕ → ℕ → HouseCall
  claim : Env → ℕ → ℕ → HouseCall

abbrev pub perform : HouseCall → Registry → Registry
perform (found user feature) m = (create_dynasty user feature m).1
perform (move dynasty feature user) m = (update_dynasty_feature dynasty feature user m).1
perform (claim env id user) m = (claim_prize env id user m).1

abbrev pub perform_all : List HouseCall → Registry → Registry
perform_all [] m = m
perform_all (c ∷ cs) m = perform_all cs (perform c m)

abbrev owns : ℕ → House → Bool
owns user d = d.user_id == user

abbrev pub houses_of : ℕ → Registry → ℕ
houses_of user m = count (owns user) m.dynasties

-- No user has two dynasties, and every dynasty has a family.
abbrev pub IsHoused : List Family → List House → Type 0
IsHoused fs [] = Unit
IsHoused fs (d ∷ ds) = (is_some (first (λ f. f.dynasty_id == d.id) fs) ≡ true) × IsHoused fs ds

pub record IsOrderly (m : Registry) : Type 0 where
  pub single : (user : ℕ) → houses_of user m ≤ 1
  pub housed : IsHoused m.families m.dynasties

count-none :
    (test : House → Bool) (l : List House) → is_some (first test l) ≡ false → count test l ≡ 0
count-none test [] h = refl
count-none test (a ∷ l) h = ground (arith, h, count-none test l)

count-moved :
    (user id feature : ℕ) (l : List House)
    → count (owns user) (change (λ d. d.id == id) (λ d. record d { feature_id = feature }) l)
      ≡ count (owns user) l
count-moved user id feature [] = refl
count-moved user id feature (a ∷ l) = ground (arith, count-moved user id feature l)

IsHoused-moved :
    (fs : List Family) (id feature : ℕ) (l : List House)
    → IsHoused fs l
    → IsHoused fs (change (λ d. d.id == id) (λ d. record d { feature_id = feature }) l)
IsHoused-moved fs id feature [] h = tt
IsHoused-moved fs id feature (a ∷ l) h = (ground (arith, h.0), IsHoused-moved fs id feature l h.1)

is_some-append :
    (test : Family → Bool) (fs : List Family) (f : Family)
    → is_some (first test (fs ++ f ∷ [])) ≡ (if is_some (first test fs) then true else test f)
is_some-append test [] f = ground arith
is_some-append test (a ∷ fs) f = ground (arith, is_some-append test fs f)

IsHoused-append :
    (fs : List Family) (f : Family) (ds : List House) (d : House)
    → f.dynasty_id ≡ d.id
    → IsHoused fs ds
    → IsHoused (fs ++ f ∷ []) (ds ++ d ∷ [])
IsHoused-append fs f [] d e h =
    (ground (arith, e, is_some-append (λ g. g.dynasty_id == d.id) fs f), tt)
IsHoused-append fs f (a ∷ ds) d e h = (
  ground (arith, h.0, is_some-append (λ g. g.dynasty_id == a.id) fs f),
  IsHoused-append fs f ds d e h.1,
)

-- The shape of the tables after a new dynasty.
module _ (user feature : ℕ) (m : Registry) where
  abbrev founded : Registry
  founded =
      create_family_member m.next_family_id user owner
        (create_family m.next_dynasty_id (create_dynasty_row user feature m))

  founded_lem :
      is_some (get_dynasty_by_user_id user m) ≡ false → (create_dynasty user feature m).1 ≡ founded
  unfolding create_dynasty create_dynasty_row create_family
  founded_lem e = rw e refl

  refused_lem :
      is_some (get_dynasty_by_user_id user m) ≡ true → (create_dynasty user feature m).1 ≡ m
  unfolding create_dynasty
  refused_lem e = rw e refl

  founded-IsOrderly :
      IsOrderly m → is_some (get_dynasty_by_user_id user m) ≡ false → IsOrderly founded
  unfolding create_dynasty_row create_family create_family_member get_dynasty_by_user_id
  founded-IsOrderly h e = record {
    single = λ u.
        let k =
          count-append (owns u) m.dynasties
            (record { id = m.next_dynasty_id; user_id = user; feature_id = feature }) in
        elim (Bool-cases (user == u)) [
          | inl t ↦ ground (arith, k, t, e, count-none (owns user) m.dynasties)
          | inr t ↦ ground (arith, k, t, h.single u)
        ];
    housed =
        IsHoused-append m.families
          (record { id = m.next_family_id; dynasty_id = m.next_dynasty_id }) m.dynasties
          (record { id = m.next_dynasty_id; user_id = user; feature_id = feature }) refl h.housed;
  }

move-IsOrderly :
    (dynasty feature user : ℕ) (m : Registry)
    → IsOrderly m
    → IsOrderly (update_dynasty_feature dynasty feature user m).1
unfolding update_dynasty_feature set_dynasty_feature
move-IsOrderly dynasty feature user m h = elim (Option-cases (get_dynasty_by_id dynasty m)) [
  | inl e ↦ rw e h
  | inr (d, e) ↦ rw e (elim (Bool-cases (d.user_id == user)) [
    | inl t ↦ rw t (record {
      single = λ u. rw (count-moved u dynasty feature m.dynasties) (h.single u);
      housed = IsHoused-moved m.families dynasty feature m.dynasties h.housed;
    })
    | inr t ↦ rw t h
  ])
]

claim-IsOrderly :
    (env : Env) (id user : ℕ) (m : Registry) → IsOrderly m → IsOrderly (claim_prize env id user m).1
unfolding claim_prize delete_received_prize
claim-IsOrderly env id user m h = elim (Option-cases (get_received_prize env id m)) [
  | inl e ↦ rw e h
  | inr (p, e) ↦ rw e (elim (Bool-cases (p.user_id == user)) [
    | inl t ↦ rw t (record { single = h.single; housed = h.housed })
    | inr t ↦ rw t h
  ])
]

perform-IsOrderly : (c : HouseCall) (m : Registry) → IsOrderly m → IsOrderly (perform c m)
perform-IsOrderly (found user feature) m h =
    elim (Bool-cases (is_some (get_dynasty_by_user_id user m))) [
      | inl e ↦ rw (refused_lem user feature m e) h
      | inr e ↦ rw (founded_lem user feature m e) (founded-IsOrderly user feature m h e)
    ]
perform-IsOrderly (move dynasty feature user) m h = move-IsOrderly dynasty feature user m h
perform-IsOrderly (claim env id user) m h = claim-IsOrderly env id user m h

-- Calls that found and move dynasties and claim prizes keep every user to one dynasty and every
-- dynasty with a family.
pub perform_all-IsOrderly :
    (cs : List HouseCall) (m : Registry) → IsOrderly m → IsOrderly (perform_all cs m)
perform_all-IsOrderly [] m h = h
perform_all-IsOrderly (c ∷ cs) m h =
    perform_all-IsOrderly cs (perform c m) (perform-IsOrderly c m h)

housed-found :
    (fs : List Family) (ds : List House) (user : ℕ) (d : House)
    → IsHoused fs ds
    → first (owns user) ds ≡ some d
    → is_some (first (λ f. f.dynasty_id == d.id) fs) ≡ true
housed-found fs [] user d h e = absurd (ground (arith, e))
housed-found fs (a ∷ ds) user d h e = elim (Bool-cases (a.user_id == user)) [
  | inl t ↦
      (let k : a ≡ d = ground (arith, e, t) in
        subst (λ (x : House). is_some (first (λ f. f.dynasty_id == x.id) fs) ≡ true) k h.0)
  | inr t ↦ housed-found fs ds user d h.1 (ground (arith, e, t))
]

is_some-found : {A : Type 0} (o : Option A) → is_some o ≡ true → (a : A) × (o ≡ some a)
is_some-found none h = absurd (ground (arith, h))
is_some-found (some a) h = (a, refl)

-- In orderly tables the dynasty of a user has a family.
pub dynasty-family :
    (user : ℕ) (m : Registry)
    → IsOrderly m
    → is_some (get_dynasty_by_user_id user m) ≡ true
    → (d : House) × (f : Family) × (get_dynasty_by_user_id user m ≡ some d)
      × (get_family_by_dynasty_id d.id m ≡ some f)
unfolding get_dynasty_by_user_id get_family_by_dynasty_id
dynasty-family user m h e =
    let (d, k) = is_some-found (first (owns user) m.dynasties) e in
    let (f, l) =
      is_some-found (first (λ f. f.dynasty_id == d.id) m.families)
        (housed-found m.families m.dynasties user d h.housed k) in
    (d, f, k, l)
