-- ===== src/Security/Once.antt =====
-- VerifyAccountSecurity of services/auth-service/internal/service/auth_service.go: an account
-- that has been opened.
use microservice_metarang.Prelude.{
  ℕ, ◌+◌, true, false, some, List, ◌≡◌, refl, ap, ◌∙◌, inl, inr, arith, ◌==◌, ==_refl, Bool-cases,
  Option-cases, All,
}
use microservice_metarang.Prelude.Keys.{first-change_of, IsKeyed-change}
use microservice_metarang.Prelude.Action.{ok, err}
use microservice_metarang.Identity.Rules.{Text, is_digits}
use microservice_metarang.Security.Tables.{
  User, AccountSecurity, Otp, Accounts, Env, Bcrypt, SecurityError, invalid_otp_code,
  already_unlocked, trim_space,
}
use microservice_metarang.Security.Repository.{
  find_user, get_by_user_id, is_security_of, update_security, get_otp,
}
use microservice_metarang.Security.Service.{unlock, verify_account_security}
use microservice_metarang.Security.Calls.{Call, serve_all, verify_phone_keeps}
use microservice_metarang.Security.Locking.{IsNumbered, Stands, Stands-IsClosed, delete-Stands}
use microservice_metarang.Security.Codes.{Leaves, serve_all_keeps}

abbrev Unlocked : ℕ → AccountSecurity → Type 0
Unlocked end s = (s.unlocked ≡ true) × (s.until ≡ some end)

own_row :
    (user end : ℕ) (s : AccountSecurity) (m : Accounts)
    → Stands (λ r. r ≡ s) user s.id m
    → Stands
        (Unlocked end)
        user
        s.id
        (update_security (record s { unlocked = true; until = some end }) m)
unfolding find_user get_by_user_id update_security
own_row user end s m h = record {
  u = h.u;
  s = record s { unlocked = true; until = some end };
  known = h.known;
  found =
      first-change_of (is_security_of user) (λ t. t.id == s.id) _ m.securities s (λ x. refl)
        (h.found ∙ ap some h.holds)
      ∙ rw (==_refl s.id) refl;
  same_id = refl;
  holds = (refl, refl);
  numbered = record {
    securities = IsKeyed-change _ _ _ _ m.securities (λ x. refl) h.numbered.securities;
    otps = h.numbered.otps;
  };
}

module _ (b : Bcrypt) (env : Env) (user : ℕ) (given ip device : Text) where
  unlock-Stands :
      (u : User) (s : AccountSecurity) (o : Otp) (m : Accounts)
      → IsNumbered m
      → find_user user m ≡ some u
      → get_by_user_id user m ≡ some s
      → Stands (Unlocked (env.now + s.length)) user s.id (unlock env u s o ip device m)
  unfolding unlock
  unlock-Stands u s o m n f e =
      let P = Stands (λ r. r ≡ s) user s.id in
      let Q = Unlocked (env.now + s.length) in
      (Stands-IsClosed Q user s.id).records _ _ (
        delete-Stands Q user s.id o.id _ (
          own_row user (env.now + s.length) s _ (
            verify_phone_keeps b user s.id P (Stands-IsClosed (λ r. r ≡ s) user s.id) u m (record {
              u = u;
              s = s;
              known = f;
              found = e;
              same_id = refl;
              holds = refl;
              numbered = n;
            }))))

  -- A verification that succeeds opens the account for the time that was asked for.
  verify-Stands :
      (m : Accounts)
      → IsNumbered m
      → (verify_account_security b env user given ip device m).0 ≡ ok tt
      → (s : AccountSecurity) × (get_by_user_id user m ≡ some s)
        × Stands
            (Unlocked (env.now + s.length))
            user
            s.id
            (verify_account_security b env user given ip device m).1
  unfolding verify_account_security unlock
  verify-Stands m n = elim (Bool-cases (is_digits 6 (trim_space given))) [
    | inr d ↦ rw d (λ h. absurd (ground (arith, h)))
    | inl d ↦ rw d (elim (Option-cases (find_user user m)) [
      | inl f ↦ rw f (λ h. absurd (ground (arith, h)))
      | inr (u, f) ↦ rw f (elim (Option-cases (get_by_user_id user m)) [
        | inl e ↦ rw e (λ h. absurd (ground (arith, h)))
        | inr (s, e) ↦ rw e (elim (Bool-cases s.unlocked) [
          | inl l ↦ rw l (λ h. absurd (ground (arith, h)))
          | inr l ↦ rw l (elim (Option-cases (get_otp s.id m)) [
            | inl g ↦ rw g (λ h. absurd (ground (arith, h)))
            | inr (o, g) ↦ rw g (elim (Bool-cases (b.compare o.code (trim_space given))) [
              | inr c ↦ rw c (λ h. absurd (ground (arith, h)))
              | inl c ↦
                  rw c (λ h. (record s { unlocked = false }, refl, unlock-Stands u s o m n f e))
            ])
          ])
        ])
      ])
    ])
  ]

  verify_open :
      (id : ℕ) (m : Accounts)
      → Stands (λ r. r.unlocked ≡ true) user id m
      → (e : SecurityError) × (verify_account_security b env user given ip device m ≡ (err e, m))
  unfolding verify_account_security
  verify_open id m h = elim (Bool-cases (is_digits 6 (trim_space given))) [
    | inr d ↦ (invalid_otp_code, rw d refl)
    | inl d ↦ (already_unlocked, rw (d, h.known, h.found, h.holds) refl)
  ]

-- A verification that succeeds opens the account of the user until the length of its row has passed,
-- and is the last to succeed until the user requests a code again: whatever calls are made before,
-- each further one is an error and changes nothing.
pub unlock_once :
    (b : Bcrypt) (env env' : Env) (user : ℕ) (given ip device given' ip' device' : Text)
    (cs : List (Env × Call)) (m : Accounts)
    → IsNumbered m
    → (verify_account_security b env user given ip device m).0 ≡ ok tt
    → All (λ (x : Env × Call). Leaves user (λ given. Unit {0}) x.1) cs
    → let n = serve_all b cs (verify_account_security b env user given ip device m).1 in
      ((s : AccountSecurity) × (t : AccountSecurity) × (get_by_user_id user m ≡ some s)
        × (get_by_user_id user n ≡ some t)
        × (t.unlocked ≡ true)
        × (t.until ≡ some (env.now + s.length)))
      × ((e : SecurityError) × (verify_account_security b env' user given' ip' device' n
            ≡ (err e, n)))
unlock_once b env env' user given ip device given' ip' device' cs m n h l =
    let (s, e, k) = verify-Stands b env user given ip device m n h in
    let P = Stands (Unlocked (env.now + s.length)) user s.id in
    let r =
      serve_all_keeps b user s.id P (Stands-IsClosed (Unlocked (env.now + s.length)) user s.id)
        (λ given. Unit {0})
        (λ e g i d q x w. rw (verify_open b e user g i d s.id q (opened s.id q w)).1 w) cs _ l k in
    (
      (s, r.s, e, r.found, r.holds.0, r.holds.1),
      verify_open b env' user given' ip' device' s.id _ (opened s.id _ r),
    )
  where
    opened :
        {end : ℕ} (id : ℕ) (q : Accounts)
        → Stands (Unlocked end) user id q
        → Stands (λ r. r.unlocked ≡ true) user id q
    opened id q w = record {
      u = w.u;
      s = w.s;
      known = w.known;
      found = w.found;
      same_id = w.same_id;
      holds = w.holds.0;
      numbered = w.numbered;
    }
