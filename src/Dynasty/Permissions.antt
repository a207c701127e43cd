-- ===== src/Dynasty/Permissions.antt =====
-- services/dynasty-service/internal/service/permission_service.go, with SetChildPermissions of
-- internal/handler/family_handler.go.
use microservice_metarang.Prelude.{
  ℕ, zero, suc, Bool, true, false, not, ◌&&◌, Option, none, some, List, [], ◌∷◌, ◌==◌,
  if◌then◌else◌,
}
use microservice_metarang.Prelude.Action.{pure, or_fail, fail_if, gets, modify, ◌>>=◌, ◌>>◌}
use microservice_metarang.Prelude.Rows.{first, select, change, is_some}
use microservice_metarang.Dynasty.Tables.{
  House, Family, FamilyMember, Grants, ChildPermission, Registry, Env, unauthorized, no_permissions,
  no_flag, no_family, Step,
}
use microservice_metarang.Dynasty.Repository.{
  permits, get_child_permission, get_dynasty_by_user_id, get_family_by_dynasty_id,
}

-- The names of the ten columns; the handler passes no other text on.
pub data Flag : Type 0 where
  bfr sf w ju dm piup pitc pic esoo cotb : Flag

abbrev pub flag : Flag → Grants → Bool
flag bfr g = g.bfr
flag sf g = g.sf
flag w g = g.w
flag ju g = g.ju
flag dm g = g.dm
flag piup g = g.piup
flag pitc g = g.pitc
flag pic g = g.pic
flag esoo g = g.esoo
flag cotb g = g.cotb

abbrev pub set_flag : Flag → Bool → Grants → Grants
set_flag bfr b g = record g { bfr = b }
set_flag sf b g = record g { sf = b }
set_flag w b g = record g { w = b }
set_flag ju b g = record g { ju = b }
set_flag dm b g = record g { dm = b }
set_flag piup b g = record g { piup = b }
set_flag pitc b g = record g { pitc = b }
set_flag pic b g = record g { pic = b }
set_flag esoo b g = record g { esoo = b }
set_flag cotb b g = record g { cotb = b }

-- `UPDATE children_permissions SET flag = b WHERE user_id = user`
unfoldable pub update_permission : ℕ → Flag → Bool → Registry → Registry
update_permission user k b m = record m {
  permissions =
      change (permits user) (λ p. record p { grants = set_flag k b p.grants }) m.permissions;
}

abbrev pub take : {A : Type 0} → ℕ → List A → List A
take zero l = []
take (suc n) [] = []
take (suc n) (a ∷ l) = a ∷ take n l

-- The first page of a thousand members.
unfoldable pub get_family_members : ℕ → Registry → List FamilyMember
get_family_members family m = take 1000 (select (λ f. f.family_id == family) m.members)

abbrev pub is_member : ℕ → List FamilyMember → Bool
is_member user fs = is_some (first (λ f. f.user_id == user) fs)

abbrev pub control_in : ℕ → Option Family → Step Bool
control_in child o = do
  f ← or_fail o no_family
  members ← gets (get_family_members f.id)
  pure (is_member child members)

abbrev pub control_from : ℕ → Option House → Step Bool
control_from child none = pure false
control_from child (some d) = do control_in child (← gets (get_family_by_dynasty_id d.id))

abbrev pub control_minor : ℕ → ℕ → Bool → Step Bool
control_minor parent child false = pure false
control_minor parent child true = do control_from child (← gets (get_dynasty_by_user_id parent))

unfoldable pub can_control_permissions : Env → ℕ → ℕ → Step Bool
can_control_permissions env parent child =
    if parent == child then pure false else control_minor parent child (env.is_under18 child)

unfoldable pub update_child_permission : Env → ℕ → ℕ → Flag → Bool → Step (Unit {0})
update_child_permission env parent child k b = do
  allowed ← can_control_permissions env parent child
  fail_if (not allowed) unauthorized
  existing ← gets (get_child_permission child)
  fail_if (not (is_some existing)) no_permissions
  modify (update_permission child k b)

abbrev pub granted : Flag → Option ChildPermission → Bool
granted k none = false
granted k (some p) = p.verified && flag k p.grants

-- Who is not under 18 has every permission.
unfoldable pub check_permission : Env → ℕ → Flag → Registry → Bool
check_permission env user k m =
    if env.is_under18 user then granted k (get_child_permission user m) else true

-- The first flag that is set, in the order of the handler.
abbrev pub first_flag : List Flag → Grants → Option Flag
first_flag [] g = none
first_flag (k ∷ ks) g = if flag k g then some k else first_flag ks g

abbrev pub all_flags : List Flag
all_flags = bfr ∷ sf ∷ w ∷ ju ∷ dm ∷ piup ∷ pitc ∷ pic ∷ esoo ∷ cotb ∷ []

-- The handler: the flag that it finds, with the value that it has in the request.
unfoldable pub set_child_permissions : Env → ℕ → ℕ → Grants → Step (Unit {0})
set_child_permissions env parent child g = do
  k ← or_fail (first_flag all_flags g) no_flag
  update_child_permission env parent child k (flag k g)
