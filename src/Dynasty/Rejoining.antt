-- ===== src/Dynasty/Rejoining.antt =====
-- services/dynasty-service/internal/service/join_request_service.go: accepting a request twice in the
-- service that main.go starts.
use microservice_metarang.Prelude.{
  ℕ, true, false, some, List, [], ◌∷◌, ◌++◌, ◌≡◌, ◌∙◌, sym, ap, inl, inr, arith, ◌==◌, Bool-cases,
  Option-cases,
}
use microservice_metarang.Prelude.Action.{Result, ok}
use microservice_metarang.Prelude.Rows.{first, change}
use microservice_metarang.Dynasty.Tables.{Status, accepted, JoinRequest, Registry, Env, Refusal}
use microservice_metarang.Dynasty.Repository.{
  has_id, get_join_request_by_id, get_dynasty_by_user_id, get_family_by_dynasty_id,
  update_join_request_status, create_family_member, with_status,
}
use microservice_metarang.Dynasty.Policy.{can_accept}
use microservice_metarang.Dynasty.Requests
use microservice_metarang.Dynasty.Requests.{join_family}
use microservice_metarang.Dynasty.Joining.{
  accept_plainly_refused, accept_plainly_missing, accept_plainly_stranded, joined, joined-Same,
  accept_plainly, update-dynasty, update-family,
}
use microservice_metarang.Dynasty.Membership.{
  Found, member, refused-ok, created-members, join_fails,
}

first-marked :
    (id : ℕ) (s : Status) (l : List JoinRequest) (r : JoinRequest)
    → first (has_id id) l ≡ some r
    → first (has_id id) (change (has_id id) (with_status s) l) ≡ some (with_status s r)
first-marked id s [] r h = absurd (ground (arith, h))
first-marked id s (a ∷ l) r h = ground (arith, h, first-marked id s l r)

-- What a call of the plain service has found.
found_plainly :
    (env : Env) (id user : ℕ) (m : Registry)
    → (Requests.accept_join_request env id user m).0 ≡ ok tt
    → (f : Found id m) × ((f.request.to_user == user) ≡ true)
found_plainly env id user m h = elim (Option-cases (get_join_request_by_id id m)) [
  | inl e ↦ absurd (refused-ok _ tt _ m h (accept_plainly_missing env id user m e))
  | inr (r, g) ↦ elim (Bool-cases (r.to_user == user)) [
    | inr u ↦ absurd (refused-ok _ tt _ m h (accept_plainly_refused env id user m r g u))
    | inl u ↦ elim (join_fails env r user (update_join_request_status id accepted m)) [
      | inl (d, f, e, k) ↦ (
        record {
          request = r;
          dynasty = d;
          family = f;
          is_request = g;
          is_dynasty = sym (update-dynasty r.from_user id accepted m) ∙ e;
          is_family = sym (update-family d.id id accepted m) ∙ k;
        },
        u,
      )
      | inr (e, k) ↦
          absurd (refused-ok _ tt e _ h (accept_plainly_stranded env id user m r g e u k))
    ]
  ]
]

module _ (env : Env) (id user : ℕ) (m : Registry) (f : Found id m)
    (u : (f.request.to_user == user) ≡ true) where
  abbrev entered : Registry
  entered =
      joined env f.request user user (env.prize_message f.request.relationship) f.family
        (update_join_request_status id accepted m)

  entered_lem : Requests.accept_join_request env id user m ≡ (ok tt, entered)
  entered_lem =
      accept_plainly env id user m f.request f.is_request f.dynasty f.family u f.is_dynasty
        f.is_family

  entered-members : entered.members ≡ m.members ++ member f.family user f.request ∷ []
  entered-members =
      (joined-Same env f.request user user _ f.family (update_join_request_status id accepted m)).0
      ∙ created-members f.family user id f.request accepted m

  found_again : Found id entered
  unfolding get_join_request_by_id get_dynasty_by_user_id get_family_by_dynasty_id
      update_join_request_status create_family_member
  found_again =
      let s =
        joined-Same env f.request user user (env.prize_message f.request.relationship) f.family
          (update_join_request_status id accepted m) in
      record {
        request = with_status accepted f.request;
        dynasty = f.dynasty;
        family = f.family;
        is_request =
            ap (first (has_id id)) s.3 ∙ first-marked id accepted m.requests f.request f.is_request;
        is_dynasty = ap (first (λ d. d.user_id == f.request.from_user)) s.2 ∙ f.is_dynasty;
        is_family = ap (first (λ g. g.dynasty_id == f.dynasty.id)) s.1 ∙ f.is_family;
      }

-- In the service that main.go starts, a call that accepts a request and succeeds puts the user into
-- the sender's family; the same call again succeeds too, and puts the user into it once more, though
-- the request is no longer one that the policy lets anybody accept.
pub accept_join_request_again :
    (env : Env) (id user : ℕ) (m : Registry)
    → (Requests.accept_join_request env id user m).0 ≡ ok tt
    → let n = (Requests.accept_join_request env id user m).1 in
      (f : Found id m) × (n.members ≡ m.members ++ member f.family user f.request ∷ [])
      × ((Requests.accept_join_request env id user n).0 ≡ ok tt)
      × ((Requests.accept_join_request env id user n).1.members
          ≡ n.members ++ member f.family user f.request ∷ [])
      × ((r : JoinRequest) × (get_join_request_by_id id n ≡ some r) × (can_accept user r ≡ false))
unfolding can_accept found_again
accept_join_request_again env id user m h =
    let (f, u) = found_plainly env id user m h in
    let e = entered_lem env id user m f u in
    let g = found_again env id user m f u in
    rw e (
      f,
      entered-members env id user m f u,
      ap (λ (p : Result Refusal (Unit {0}) × Registry). p.0) (entered_lem env id user _ g u),
      ap (λ (p : Result Refusal (Unit {0}) × Registry). p.1.members) (entered_lem env id user _ g u)
          ∙ entered-members env id user _ g u,
      (g.request, g.is_request, ground arith),
    )
