-- ===== src/Dynasty/Grants.antt =====
-- services/dynasty-service/internal/service/permission_service.go: what a parent can do to the
-- permissions of a child.
use mathlib.Core.Path.{subst}
use microservice_metarang.Prelude.{
  ℕ, Bool, true, false, not, ◌&&◌, none, some, List, [], ◌∷◌, ◌≡◌, refl, ◌∙◌, ap, arith, inl, inr,
  ◌⊎◌, Bool-cases, Option-cases, ◌==◌, if◌then◌else◌,
}
use microservice_metarang.Prelude.Action.{Result, ok, err, gets, fail_if, modify, ◌>>=◌, ◌>>◌}
use microservice_metarang.Prelude.Rows.{first, change, is_some}
use microservice_metarang.Dynasty.Tables.{
  Grants, ChildPermission, Registry, Env, Refusal, unauthorized, no_permissions, Step,
}
use microservice_metarang.Dynasty.Repository.{permits, get_child_permission}
use microservice_metarang.Dynasty.Permissions.{
  Flag, bfr, sf, w, ju, dm, piup, pitc, pic, esoo, cotb, flag, set_flag, update_permission,
  can_control_permissions, update_child_permission, granted, check_permission, first_flag,
  all_flags, set_child_permissions,
}

abbrev pub flag_code : Flag → ℕ
flag_code bfr = 0
flag_code sf = 1
flag_code w = 2
flag_code ju = 3
flag_code dm = 4
flag_code piup = 5
flag_code pitc = 6
flag_code pic = 7
flag_code esoo = 8
flag_code cotb = 9

flag-set_flag :
    (j k : Flag) (b : Bool) (g : Grants)
    → flag j (set_flag k b g) ≡ (if flag_code j == flag_code k then b else flag j g)
flag-set_flag j k b g = ground arith

control_same :
    (env : Env) (parent child : ℕ) (m : Registry)
    → (can_control_permissions env parent child m).1 ≡ m
unfolding can_control_permissions
control_same env parent child m = ground arith

control_minor_only :
    (env : Env) (parent child : ℕ) (m : Registry)
    → (can_control_permissions env parent child m).0 ≡ ok true
    → env.is_under18 child ≡ true
unfolding can_control_permissions
control_minor_only env parent child m h = ground (arith, h)

first-updated :
    (user child : ℕ) (k : Flag) (b : Bool) (l : List ChildPermission)
    → first
        (permits user)
        (change (permits child) (λ p. record p { grants = set_flag k b p.grants }) l)
      ≡ elim (first (permits user) l) [
        | none ↦ none
        | some p ↦ some (if user == child then record p { grants = set_flag k b p.grants } else p)
      ]
first-updated user child k b [] = refl
first-updated user child k b (p ∷ l) = ground (arith, first-updated user child k b l)

-- What follows the test of the parent.
abbrev change_allowed : ℕ → Flag → Bool → Bool → Step (Unit {0})
change_allowed child k b allowed = do
  fail_if (not allowed) unauthorized
  existing ← gets (get_child_permission child)
  fail_if (not (is_some existing)) no_permissions
  modify (update_permission child k b)

allowed_outcome :
    (child : ℕ) (k : Flag) (b allowed : Bool) (m : Registry)
    → let (r, n) = change_allowed child k b allowed m in
      (n ≡ m) ⊎ (n ≡ update_permission child k b m)
allowed_outcome child k b false m = inl refl
allowed_outcome child k b true m = elim (Bool-cases (is_some (get_child_permission child m))) [
  | inl e ↦ rw e (inr refl)
  | inr e ↦ rw e (inl refl)
]

after_control :
    (child : ℕ) (k : Flag) (b : Bool) (p : Result Refusal Bool × Registry) (m : Registry)
    → p.1 ≡ m
    → let n = (((λ (o : Registry). p) >>= change_allowed child k b) m).1 in
      (n ≡ m) ⊎ (n ≡ update_permission child k b m)
after_control child k b (ok a, n) m e = rw e (allowed_outcome child k b a m)
after_control child k b (err x, n) m e = inl e

-- A call changes nothing, or this one flag.
update_outcome :
    (env : Env) (parent child : ℕ) (k : Flag) (b : Bool) (m : Registry)
    → let n = (update_child_permission env parent child k b m).1 in
      (n ≡ m) ⊎ (n ≡ update_permission child k b m)
unfolding update_child_permission
update_outcome env parent child k b m =
    after_control child k b (can_control_permissions env parent child m) m
      (control_same env parent child m)

allowed_success :
    (child : ℕ) (k : Flag) (b allowed : Bool) (m : Registry)
    → (change_allowed child k b allowed m).0 ≡ ok tt
    → (allowed ≡ true) × ((change_allowed child k b allowed m).1 ≡ update_permission child k b m)
allowed_success child k b false m h = absurd (ground (arith, h))
allowed_success child k b true m h = elim (Bool-cases (is_some (get_child_permission child m))) [
  | inl e ↦ rw e (refl, refl)
  | inr e ↦ absurd (ground (arith, h, e))
]

after_success :
    (child : ℕ) (k : Flag) (b : Bool) (p : Result Refusal Bool × Registry) (m : Registry)
    → p.1 ≡ m
    → (((λ (o : Registry). p) >>= change_allowed child k b) m).0 ≡ ok tt
    → (p.0 ≡ ok true)
      × ((((λ (o : Registry). p) >>= change_allowed child k b) m).1 ≡ update_permission child k b m)
after_success child k b (ok a, n) m e h =
    let (t, s) = allowed_success child k b a n h in
    (ap (λ (x : Bool). ok x) t, s ∙ ap (update_permission child k b) e)
after_success child k b (err x, n) m e h = absurd (ground (arith, h))

update_success :
    (env : Env) (parent child : ℕ) (k : Flag) (b : Bool) (m : Registry)
    → (update_child_permission env parent child k b m).0 ≡ ok tt
    → (env.is_under18 child ≡ true)
      × ((update_child_permission env parent child k b m).1 ≡ update_permission child k b m)
unfolding update_child_permission
update_success env parent child k b m h =
    let (t, s) =
      after_success child k b (can_control_permissions env parent child m) m
        (control_same env parent child m) h in
    (control_minor_only env parent child m t, s)

granted-updated :
    (j k : Flag) (b : Bool) (user child : ℕ) (m : Registry)
    → granted j (get_child_permission user (update_permission child k b m))
      ≡ elim (get_child_permission user m) [
        | none ↦ false
        | some p ↦
            p.verified
            && (if user == child then flag j (set_flag k b p.grants) else flag j p.grants)
      ]
unfolding get_child_permission update_permission
granted-updated j k b user child m =
    rw (first-updated user child k b m.permissions)
      (elim (Option-cases (first (permits user) m.permissions)) [
        | inl e ↦ rw e refl
        | inr (p, e) ↦
            rw e (elim (Bool-cases (user == child)) [ inl t ↦ rw t refl | inr t ↦ rw t refl ])
      ])

-- What UpdateChildPermission has set CheckPermission answers: after a successful call, for a child
-- whose permissions are verified, the flag has the new value and every other flag its old one.
pub check_permission-update_child_permission :
    (env : Env) (parent child : ℕ) (j k : Flag) (b : Bool) (m : Registry) (p : ChildPermission)
    → get_child_permission child m ≡ some p
    → p.verified ≡ true
    → (update_child_permission env parent child k b m).0 ≡ ok tt
    → check_permission env child j (update_child_permission env parent child k b m).1
      ≡ (if flag_code j == flag_code k then b else check_permission env child j m)
unfolding check_permission
check_permission-update_child_permission env parent child j k b m p g v h =
    let (t, s) = update_success env parent child k b m h in
    rw (s, t)
      (rw (granted-updated j k b child child m, g, v, flag-set_flag j k b p.grants) (ground arith))

first_flag-set :
    (ks : List Flag) (g : Grants) (k : Flag) → first_flag ks g ≡ some k → flag k g ≡ true
first_flag-set [] g k h = absurd (ground (arith, h))
first_flag-set (j ∷ ks) g k h = elim (Bool-cases (flag j g)) [
  | inl t ↦ (let e : j ≡ k = ground (arith, h, t) in subst (λ (x : Flag). flag x g ≡ true) e t)
  | inr t ↦ first_flag-set ks g k (ground (arith, h, t))
]

kept_by_grant :
    (j k : Flag) (user child : ℕ) (m : Registry)
    → granted j (get_child_permission user m) ≡ true
    → granted j (get_child_permission user (update_permission child k true m)) ≡ true
kept_by_grant j k user child m h =
    granted-updated j k true user child m ∙ (elim (Option-cases (get_child_permission user m)) [
      | inl e ↦ absurd (ground (arith, h, e))
      | inr (p, e) ↦ rw (e, flag-set_flag j k true p.grants) (ground (arith, h, e))
    ])

-- No call of the handler takes a permission from anybody, whatever flags the request holds.
pub set_child_permissions_grants :
    (env : Env) (parent child : ℕ) (g : Grants) (m : Registry) (user : ℕ) (j : Flag)
    → granted j (get_child_permission user m) ≡ true
    → granted j (get_child_permission user (set_child_permissions env parent child g m).1) ≡ true
unfolding set_child_permissions
set_child_permissions_grants env parent child g m user j h =
    elim (Option-cases (first_flag all_flags g)) [
      | inl e ↦ rw e h
      | inr (k, e) ↦
          rw (e, first_flag-set all_flags g k e)
            (elim (update_outcome env parent child k true m) [
              | inl s ↦ rw s h
              | inr s ↦ rw s (kept_by_grant j k user child m h)
            ])
    ]
