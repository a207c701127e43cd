-- ===== src/Security/Codes.antt =====
-- VerifyAccountSecurity of services/auth-service/internal/service/auth_service.go: which codes open
-- an account, and how often.
use microservice_metarang.Prelude.{
  ℕ, true, false, ◌&&◌, some, List, [], ◌∷◌, ◌≡◌, ◌≢◌, ◌↔◌, ◌⊎◌, refl, sym, ap, ◌∙◌, inl, inr,
  arith, if◌then◌else◌, Bool-cases, All,
}
use microservice_metarang.Prelude.Action.{ok, err}
use microservice_metarang.Identity.Rules.{Text, is_digits}
use microservice_metarang.Security.Tables.{
  User, AccountSecurity, Otp, Accounts, Env, Bcrypt, IsSound, invalid_otp_code, trim_space,
}
use microservice_metarang.Security.Repository.{find_user, get_by_user_id, get_otp}
use microservice_metarang.Security.Service.{unlock, verify_account_security}
use microservice_metarang.Security.Calls.{
  IsClosed, Call, request, verify, profile, serve, serve_all, request_keeps, verify_keeps,
  profile_keeps,
}
use microservice_metarang.Security.Waiting.{Waits}

-- A call that neither requests anything for this user nor verifies but such a code.
abbrev pub Leaves : ℕ → (Text → Type 0) → Call → Type 0
Leaves user Vain (request v minutes phone) = v ≢ user
Leaves user Vain (verify v given ip device) = (v ≢ user) ⊎ ((v ≡ user) × Vain given)
Leaves user Vain (profile v phone) = Unit

module _ (b : Bcrypt) (user id : ℕ) (P : Accounts → Type 0) (c : IsClosed user id P)
    (Vain : Text → Type 0)
    (own : (env : Env) (given ip device : Text) (m : Accounts)
      → Vain given
      → P m
      → P (verify_account_security b env user given ip device m).1) where
  serve_keeps :
      (env : Env) (k : Call) (m : Accounts) → Leaves user Vain k → P m → P (serve b env k m)
  serve_keeps env (request v minutes phone) m l h =
      request_keeps b user id P c env v minutes phone m l h
  serve_keeps env (verify v given ip device) m (inl ne) h =
      verify_keeps b user id P c env v given ip device m ne h
  serve_keeps env (verify v given ip device) m (inr (e, x)) h = rw e (own env given ip device m x h)
  serve_keeps env (profile v phone) m l h = profile_keeps b user id P c v phone m h

  pub serve_all_keeps :
      (cs : List (Env × Call)) (m : Accounts)
      → All (λ (x : Env × Call). Leaves user Vain x.1) cs
      → P m
      → P (serve_all b cs m)
  serve_all_keeps [] m l h = h
  serve_all_keeps ((env, k) ∷ cs) m l h =
      serve_all_keeps cs (serve b env k m) l.1 (serve_keeps env k m l.0 h)

module _ (b : Bcrypt) (env : Env) (user : ℕ) (given ip device : Text) where
  pub verify_found :
      (u : User) (s : AccountSecurity) (o : Otp) (m : Accounts)
      → find_user user m ≡ some u
      → get_by_user_id user m ≡ some s
      → s.unlocked ≡ false
      → get_otp s.id m ≡ some o
      → verify_account_security b env user given ip device m ≡ (
          if is_digits 6 (trim_space given) && b.compare o.code (trim_space given)
          then (ok tt, unlock env u s o ip device m)
          else (err invalid_otp_code, m))
  unfolding verify_account_security unlock
  verify_found u s o m f e l g = elim (Bool-cases (is_digits 6 (trim_space given))) [
    | inr d ↦ rw d refl
    | inl d ↦
        rw (d, f, e, l, g)
          (elim (Bool-cases (b.compare o.code (trim_space given))) [
            | inl c ↦ rw c refl
            | inr c ↦ rw c refl
          ])
  ]

  -- The answer to a verification while the account waits.
  pub verify_waiting :
      (seconds : ℕ) (code : Text) (id : ℕ) (m : Accounts) (w : Waits b user seconds code id m)
      → verify_account_security b env user given ip device m ≡ (
          if is_digits 6 (trim_space given) && b.compare w.o.code (trim_space given)
          then (ok tt, unlock env w.row.u w.row.s w.o ip device m)
          else (err invalid_otp_code, m))
  verify_waiting seconds code id m w =
      verify_found w.row.u w.row.s w.o m w.row.known w.row.found w.row.holds.0
        (ap (λ k. get_otp k m) w.row.same_id ∙ w.asked)

  wrong_code :
      (seconds : ℕ) (code : Text) (id : ℕ) (m : Accounts) (w : Waits b user seconds code id m)
      → IsSound b
      → trim_space given ≢ code
      → b.compare w.o.code (trim_space given) ≡ false
  wrong_code seconds code id m w sound ne =
      elim (Bool-cases (b.compare w.o.code (trim_space given))) [
        | inr f ↦ f
        | inl t ↦ absurd (
            ne (
              sound.matches_only w.salt code (trim_space given)
                (ap (λ h. b.compare h (trim_space given)) (sym w.hashed) ∙ t)))
      ]

  pub verify_vain :
      (seconds : ℕ) (code : Text) (id : ℕ) (m : Accounts)
      → IsSound b
      → trim_space given ≢ code
      → Waits b user seconds code id m
      → Waits b user seconds code id (verify_account_security b env user given ip device m).1
  verify_vain seconds code id m sound ne w = rw (verify_waiting seconds code id m w) (
      rw (wrong_code seconds code id m w sound ne)
        (elim (Bool-cases (is_digits 6 (trim_space given))) [ inl d ↦ rw d w | inr d ↦ rw d w ]))

  -- While the account waits, a verification succeeds exactly for the code.
  pub verify_exactly :
      (seconds : ℕ) (code : Text) (id : ℕ) (m : Accounts) (w : Waits b user seconds code id m)
      → IsSound b
      → is_digits 6 code ≡ true
      → ((verify_account_security b env user given ip device m).0 ≡ ok tt)
        ↔ (trim_space given ≡ code)
  verify_exactly seconds code id m w sound d = (there, back)
    where
      there :
          (verify_account_security b env user given ip device m).0 ≡ ok tt → trim_space given ≡ code
      there h = elim (Bool-cases (b.compare w.o.code (trim_space given))) [
        | inl t ↦
            sound.matches_only w.salt code (trim_space given)
              (ap (λ h. b.compare h (trim_space given)) (sym w.hashed) ∙ t)
        | inr t ↦ absurd (ground (arith, verify_waiting seconds code id m w, t, h))
      ]

      back :
          trim_space given ≡ code → (verify_account_security b env user given ip device m).0 ≡ ok tt
      back e =
          rw (verify_waiting seconds code id m w)
            (rw (e, d, w.hashed, sound.matches w.salt code) refl)
