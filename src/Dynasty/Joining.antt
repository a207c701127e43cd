-- ===== src/Dynasty/Joining.antt =====
-- services/dynasty-service/internal/service: how the two services let a user join a family.
use Prim.Native.String.{String}
use microservice_metarang.Prelude.{ℕ, true, false, Option, none, some, ◌≡◌, refl, ◌∙◌, arith, ◌==◌}
use microservice_metarang.Prelude.Action.{ok, err, modify, bind_ok, bind_err}
use microservice_metarang.Dynasty.Tables.{
  House, Family, Status, accepted, JoinRequest, DynastyPrize, Registry, Env, Refusal, unauthorized,
  request_not_found, status_code,
}
use microservice_metarang.Dynasty.Repository.{
  get_join_request_by_id, get_dynasty_by_user_id, get_family_by_dynasty_id,
  update_join_request_status, create_family_member, create_child_permission,
  update_child_permission, award_prize, get_prize_by_relationship,
}
use microservice_metarang.Dynasty.Policy.{can_accept}
use microservice_metarang.Dynasty.Requests
use microservice_metarang.Dynasty.Requests.{join_family, grant_permissions, award_found}
use microservice_metarang.Dynasty.Enhanced
use microservice_metarang.Dynasty.Statuses.{award}

-- The tables that say who belongs to which family.
abbrev pub Same : Registry → Registry → Type 0
Same m n =
    (m.members ≡ n.members)
    × (m.families ≡ n.families)
    × (m.dynasties ≡ n.dynasties)
    × (m.requests ≡ n.requests)

grant-Same :
    (env : Env) (r : JoinRequest) (user : ℕ) (m : Registry)
    → Same (grant_permissions env r user m) m
unfolding grant_permissions create_child_permission update_child_permission
grant-Same env r user m = (ground arith, ground arith, ground arith, ground arith)

award-Same :
    (p : Option DynastyPrize) (user : ℕ) (t : String) (m : Registry)
    → Same (award_found p user t m) m
unfolding award_prize
award-Same none user t m = (refl, refl, refl, refl)
award-Same (some p) user t m = (refl, refl, refl, refl)

Same-trans : (m n o : Registry) → Same m n → Same n o → Same m o
Same-trans m n o a b = (a.0 ∙ b.0, a.1 ∙ b.1, a.2 ∙ b.2, a.3 ∙ b.3)

join_family_lem :
    (env : Env) (r : JoinRequest) (user : ℕ) (d : House) (f : Family) (m : Registry)
    → get_dynasty_by_user_id r.from_user m ≡ some d
    → get_family_by_dynasty_id d.id m ≡ some f
    → join_family env r user m
      ≡ (ok tt, grant_permissions env r user (create_family_member f.id user r.relationship m))
unfolding join_family
join_family_lem env r user d f m e g = rw (e, g) refl

-- The tables after a user has joined: the member, the permissions and the prize of the winner.
abbrev pub joined : Env → JoinRequest → ℕ → ℕ → String → Family → Registry → Registry
joined env r user winner t f m =
    award_found (get_prize_by_relationship r.relationship env.prizes) winner t
      (grant_permissions env r user (create_family_member f.id user r.relationship m))

pub joined-Same :
    (env : Env) (r : JoinRequest) (user winner : ℕ) (t : String) (f : Family) (m : Registry)
    → Same (joined env r user winner t f m) (create_family_member f.id user r.relationship m)
joined-Same env r user winner t f m =
    let n = create_family_member f.id user r.relationship m in
    Same-trans (joined env r user winner t f m) (grant_permissions env r user n) n
      (award-Same (get_prize_by_relationship r.relationship env.prizes) winner t
        (grant_permissions env r user n))
      (grant-Same env r user n)

pub update-dynasty :
    (user id : ℕ) (s : Status) (m : Registry)
    → get_dynasty_by_user_id user (update_join_request_status id s m)
      ≡ get_dynasty_by_user_id user m
unfolding get_dynasty_by_user_id update_join_request_status
update-dynasty user id s m = refl

pub update-family :
    (d id : ℕ) (s : Status) (m : Registry)
    → get_family_by_dynasty_id d (update_join_request_status id s m) ≡ get_family_by_dynasty_id d m
unfolding get_family_by_dynasty_id update_join_request_status
update-family d id s m = refl

module _ (env : Env) (id user : ℕ) (m : Registry) (r : JoinRequest)
    (g : get_join_request_by_id id m ≡ some r) where
  abbrev marked : Registry
  marked = update_join_request_status id accepted m

  abbrev enrolled : Family → Registry
  enrolled f = grant_permissions env r user (create_family_member f.id user r.relationship marked)

  enroll :
      (d : House) (f : Family)
      → get_dynasty_by_user_id r.from_user m ≡ some d
      → get_family_by_dynasty_id d.id m ≡ some f
      → join_family env r user marked ≡ (ok tt, enrolled f)
  enroll d f e k =
      join_family_lem env r user d f marked (update-dynasty r.from_user id accepted m ∙ e)
        (update-family d.id id accepted m ∙ k)

  pub accept_found :
      (d : House) (f : Family)
      → can_accept user r ≡ true
      → get_dynasty_by_user_id r.from_user m ≡ some d
      → get_family_by_dynasty_id d.id m ≡ some f
      → let n =
          joined env r user r.from_user
            (env.accept_message r.from_user user r.relationship)
            f
            marked in
        Enhanced.accept_join_request env id user m ≡ (ok (get_join_request_by_id id n), n)
  unfolding Enhanced.accept_join_request can_accept
  accept_found d f h e k = rw g (
      let u : (r.to_user == user) ≡ true = ground (arith, h) in
      let p : (status_code r.status == 0) ≡ true = ground (arith, h) in
      rw (u, p)
        (bind_ok (join_family env r user) (λ x. award env r id user) marked (enrolled f) tt
          (enroll d f e k)))

  pub accept_stranded :
      (e : Refusal)
      → can_accept user r ≡ true
      → join_family env r user marked ≡ (err e, marked)
      → Enhanced.accept_join_request env id user m ≡ (err e, marked)
  unfolding Enhanced.accept_join_request can_accept
  accept_stranded e h k = rw g (
      let u : (r.to_user == user) ≡ true = ground (arith, h) in
      let p : (status_code r.status == 0) ≡ true = ground (arith, h) in
      rw (u, p) (bind_err (join_family env r user) (λ x. award env r id user) marked marked e k))

  pub accept_plainly_stranded :
      (e : Refusal)
      → (r.to_user == user) ≡ true
      → join_family env r user marked ≡ (err e, marked)
      → Requests.accept_join_request env id user m ≡ (err e, marked)
  unfolding Requests.accept_join_request
  accept_plainly_stranded e u k = rw g (
      rw u (
        bind_err (join_family env r user)
          (λ x. modify (
            award_found (get_prize_by_relationship r.relationship env.prizes) user
              (env.prize_message r.relationship)))
          marked marked e k))

  pub accept_plainly :
      (d : House) (f : Family)
      → (r.to_user == user) ≡ true
      → get_dynasty_by_user_id r.from_user m ≡ some d
      → get_family_by_dynasty_id d.id m ≡ some f
      → Requests.accept_join_request env id user m
        ≡ (ok tt, joined env r user user (env.prize_message r.relationship) f marked)
  unfolding Requests.accept_join_request
  accept_plainly d f u e k = rw g (
      rw u (
        bind_ok (join_family env r user)
          (λ x. modify (
            award_found (get_prize_by_relationship r.relationship env.prizes) user
              (env.prize_message r.relationship)))
          marked (enrolled f) tt (enroll d f e k)))

  pub accept_plainly_refused :
      (r.to_user == user) ≡ false
      → Requests.accept_join_request env id user m ≡ (err unauthorized, m)
  unfolding Requests.accept_join_request
  accept_plainly_refused u = rw g (rw u refl)

pub accept_plainly_missing :
    (env : Env) (id user : ℕ) (m : Registry)
    → get_join_request_by_id id m ≡ none
    → Requests.accept_join_request env id user m ≡ (err request_not_found, m)
unfolding Requests.accept_join_request
accept_plainly_missing env id user m e = rw e refl
