-- ===== src/Dynasty/Membership.antt =====
-- services/dynasty-service/internal/service: what a call that accepts a request does to the family,
-- in the service with all rules and in the one that main.go starts.
use microservice_metarang.Prelude.{
  ℕ, Bool, true, Option, none, some, List, [], ◌∷◌, ◌++◌, ◌≡◌, refl, ◌∙◌, sym, ap, inl, inr, ◌⊎◌,
  arith, ◌==◌, if◌then◌else◌, Option-cases,
}
use microservice_metarang.Prelude.Action.{Result, ok, err}
use microservice_metarang.Dynasty.Tables.{
  House, Family, FamilyMember, Status, accepted, JoinRequest, Registry, Env, Refusal, status_code,
  no_dynasty, no_family,
}
use microservice_metarang.Dynasty.Repository.{
  get_join_request_by_id, get_dynasty_by_user_id, get_family_by_dynasty_id,
  update_join_request_status, create_family_member,
}
use microservice_metarang.Dynasty.Policy.{can_accept}
use microservice_metarang.Dynasty.Requests.{join_family}
use microservice_metarang.Dynasty.Enhanced
use microservice_metarang.Dynasty.Statuses.{status_of, accept-status}
use microservice_metarang.Dynasty.Machine.{Call, serve_all, serve_all_decided}
use microservice_metarang.Dynasty.Decisions.{answer_permitted, answer, done, answer_decided}
use microservice_metarang.Dynasty.Joining.{
  joined-Same, accept_found, accept_stranded, update-dynasty, update-family,
}

abbrev pub member : Family → ℕ → JoinRequest → FamilyMember
member f user r = record { family_id = f.id; user_id = user; relationship = r.relationship }

-- What a successful call has found: the request, the dynasty of its sender and the family of it.
pub record Found (id : ℕ) (m : Registry) : Type 0 where
  pub request : JoinRequest
  pub dynasty : House
  pub family : Family
  pub is_request : get_join_request_by_id id m ≡ some request
  pub is_dynasty : get_dynasty_by_user_id request.from_user m ≡ some dynasty
  pub is_family : get_family_by_dynasty_id dynasty.id m ≡ some family

pub created-members :
    (f : Family) (user id : ℕ) (r : JoinRequest) (s : Status) (m : Registry)
    → (create_family_member f.id user r.relationship (update_join_request_status id s m)).members
      ≡ m.members ++ member f user r ∷ []
unfolding create_family_member update_join_request_status
created-members f user id r s m = refl

-- Without a dynasty and its family the joining fails.
pub join_fails :
    (env : Env) (r : JoinRequest) (user : ℕ) (m : Registry)
    → ((d : House) × (f : Family) × (get_dynasty_by_user_id r.from_user m ≡ some d)
        × (get_family_by_dynasty_id d.id m ≡ some f))
      ⊎ ((e : Refusal) × (join_family env r user m ≡ (err e, m)))
unfolding join_family
join_fails env r user m = elim (Option-cases (get_dynasty_by_user_id r.from_user m)) [
  | inl e ↦ inr (no_dynasty, rw e refl)
  | inr (d, e) ↦ elim (Option-cases (get_family_by_dynasty_id d.id m)) [
    | inl k ↦ inr (no_family, rw e (rw k refl))
    | inr (f, k) ↦ inl (d, f, e, k)
  ]
]

pub refused-ok :
    {A : Type 0} (p : Result Refusal A × Registry) (a : A) (e : Refusal) (m : Registry)
    → p.0 ≡ ok a
    → p ≡ (err e, m)
    → ⊥
refused-ok p a e m h k = ground (arith, h, k)

found_by :
    (env : Env) (id user : ℕ) (m : Registry) (x : Option JoinRequest)
    → (Enhanced.accept_join_request env id user m).0 ≡ ok x
    → (f : Found id m) × (can_accept user f.request ≡ true)
found_by env id user m x h =
    let (r, g, t) =
      answer_permitted env true id user m
        (done-ok (Enhanced.accept_join_request env id user m) x h) in
    elim (join_fails env r user (update_join_request_status id accepted m)) [
      | inl (d, f, e, k) ↦ (
        record {
          request = r;
          dynasty = d;
          family = f;
          is_request = g;
          is_dynasty = sym (update-dynasty r.from_user id accepted m) ∙ e;
          is_family = sym (update-family d.id id accepted m) ∙ k;
        },
        t,
      )
      | inr (e, k) ↦ absurd (refused-ok _ x e _ h (accept_stranded env id user m r g e t k))
    ]
  where
    done-ok :
        (p : Result Refusal (Option JoinRequest) × Registry) (x : Option JoinRequest)
        → p.0 ≡ ok x
        → (done p).0 ≡ ok tt
    done-ok (ok r, n) x h = refl
    done-ok (err e, n) x h = absurd (ground (arith, h))

-- A successful accept was permitted by the policy. The user is a new member, in the family of the
-- sender's dynasty and with the relationship of the request; no other member has come or gone. The
-- request is accepted, and the status of no other request has changed.
pub accept_join_request_joins :
    (env : Env) (id user : ℕ) (m : Registry) (x : Option JoinRequest)
    → (Enhanced.accept_join_request env id user m).0 ≡ ok x
    → (f : Found id m) × (can_accept user f.request ≡ true)
      × ((Enhanced.accept_join_request env id user m).1.members
          ≡ m.members ++ member f.family user f.request ∷ [])
      × ((j : ℕ)
          → status_of j (Enhanced.accept_join_request env id user m).1
            ≡ (if j == id then some accepted else status_of j m))
accept_join_request_joins env id user m x h =
    let (f, t) = found_by env id user m x h in
    let r = f.request in
    (
      f,
      t,
      ap (λ (p : Result Refusal (Option JoinRequest) × Registry). p.1.members)
            (accept_found env id user m r f.is_request f.dynasty f.family t f.is_dynasty
              f.is_family)
          ∙ (joined-Same env r user r.from_user (env.accept_message r.from_user user r.relationship)
              f.family (update_join_request_status id accepted m)).0
          ∙ created-members f.family user id r accepted m,
      λ j. accept-status env j id user m ∙ rw (f.is_request, t) (ground arith),
    )

-- If the sender of a pending request has no dynasty, the call of its receiver is an error, and
-- nobody joins a family; but the request is accepted, and each later answer to it is refused and
-- changes nothing, whatever calls were made in between.
pub accept_join_request_strands :
    (env : Env) (id user : ℕ) (m : Registry) (r : JoinRequest)
    → get_join_request_by_id id m ≡ some r
    → can_accept user r ≡ true
    → get_dynasty_by_user_id r.from_user m ≡ none
    → let n = (Enhanced.accept_join_request env id user m).1 in
      ((Enhanced.accept_join_request env id user m).0 ≡ err no_dynasty)
      × (n.members ≡ m.members)
      × (status_of id n ≡ some accepted)
      × ((b : Bool) (other_user : ℕ) (cs : List Call)
          → (e : Refusal) × (answer env b id other_user (serve_all env cs n)
              ≡ (err e, serve_all env cs n)))
unfolding join_family update_join_request_status
accept_join_request_strands env id user m r g t h =
    let k =
      accept_stranded env id user m r g no_dynasty t
        (rw (update-dynasty r.from_user id accepted m ∙ h) refl) in
    let n = (Enhanced.accept_join_request env id user m).1 in
    let s : status_of id n ≡ some accepted =
      accept-status env id id user m ∙ rw (g, t) (ground arith) in
    (
      ap (λ (p : Result Refusal (Option JoinRequest) × Registry). p.0) k,
      ap (λ (p : Result Refusal (Option JoinRequest) × Registry). p.1.members) k,
      s,
      λ b other_user cs.
          answer_decided env b id other_user (serve_all env cs n) accepted
            (serve_all_decided env cs id n accepted s (λ e. ground (arith, ap status_code e)))
            (λ e. ground (arith, ap status_code e)),
    )
