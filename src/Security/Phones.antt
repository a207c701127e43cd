-- ===== src/Security/Phones.antt =====
-- VerifyAccountSecurity of services/auth-service/internal/service/auth_service.go: telephone
-- numbers that it marks as verified.
use microservice_metarang.Prelude.{
  ℕ, ◌*◌, true, some, ◌∷◌, ◌≡◌, refl, ap, ◌∙◌, inl, inr, ==_refl, Bool-cases,
}
use microservice_metarang.Prelude.Int.{ℤ, pos_part}
use microservice_metarang.Prelude.Keys.{first-change_of}
use microservice_metarang.Prelude.Action.{ok}
use microservice_metarang.Identity.Rules.{Text, is_digits}
use microservice_metarang.Security.Tables.{
  User, AccountSecurity, Otp, Accounts, Env, Bcrypt, IsSound, trim_space, generate_otp_code,
}
use microservice_metarang.Security.Repository.{
  has_user_id, find_user, update_phone, mark_phone_as_verified, delete_otp, create_user_event,
  update_security, get_otp,
}
use microservice_metarang.Security.Service.{
  request_account_security, unlock, verify_account_security, update_profile,
}
use microservice_metarang.Security.Locking.{IsNumbered}
use microservice_metarang.Security.Waiting.{Waits, Waits-IsClosed}
use microservice_metarang.Security.Codes.{verify_found}
use microservice_metarang.Security.Opening.{request-Waits, code-is_digits}

-- The row of the user after `unlock`.
find_user-unlock :
    (env : Env) (user : ℕ) (u : User) (s : AccountSecurity) (o : Otp) (ip device : Text)
    (m : Accounts)
    → find_user user m ≡ some u
    → find_user user (unlock env u s o ip device m) ≡ some (record u { is_phone_verified = true })
unfolding unlock find_user mark_phone_as_verified update_security delete_otp create_user_event
find_user-unlock env user u s o ip device m f = elim (Bool-cases u.is_phone_verified) [
  | inl v ↦ rw v (f ∙ ap some (λ i. record u { is_phone_verified = v i }))
  | inr v ↦ rw v (
      first-change_of (has_user_id user) (has_user_id u.id) _ m.users u (λ x. refl) f
      ∙ rw (==_refl u.id) refl)
]

messages-unlock :
    (env : Env) (u : User) (s : AccountSecurity) (o : Otp) (ip device : Text) (m : Accounts)
    → (unlock env u s o ip device m).messages ≡ m.messages
unfolding unlock mark_phone_as_verified update_security delete_otp create_user_event
messages-unlock env u s o ip device m = elim (Bool-cases u.is_phone_verified) [
  | inl v ↦ rw v refl
  | inr v ↦ rw v refl
]

module _ (user : ℕ) (c : ℕ) (p : Text) (u : User) (m : Accounts)
    (f : find_user user m ≡ some u) where
  update_profile-store : (update_profile user (c ∷ p) m).1 ≡ update_phone u.id (some (c ∷ p)) m
  unfolding update_profile
  update_profile-store = rw f refl

  find_user-update_phone :
      find_user user (update_phone u.id (some (c ∷ p)) m) ≡ some (record u { phone = some (c ∷ p) })
  unfolding find_user update_phone
  find_user-update_phone =
      first-change_of (has_user_id user) (has_user_id u.id) _ m.users u (λ x. refl) f
      ∙ rw (==_refl u.id) refl

  messages-update_phone : (update_phone u.id (some (c ∷ p)) m).messages ≡ m.messages
  unfolding update_phone
  messages-update_phone = refl

  -- A user whose account waits, with a new telephone number.
  marks_phone :
      (b : Bcrypt) (env : Env) (given ip device : Text) (seconds : ℕ) (code : Text) (id : ℕ)
      → IsSound b
      → is_digits 6 code ≡ true
      → trim_space given ≡ code
      → Waits b user seconds code id m
      → let n = (update_profile user (c ∷ p) m).1 in
        let (r, k) = verify_account_security b env user given ip device n in
        (r ≡ ok tt)
        × (find_user user k ≡ some (record u { phone = some (c ∷ p); is_phone_verified = true }))
        × (k.messages ≡ m.messages)
  marks_phone b env given ip device seconds code id sound d e w =
      let v = record u { phone = some (c ∷ p) } in
      let n = update_phone u.id (some (c ∷ p)) m in
      let w' : Waits b user seconds code id n =
        (Waits-IsClosed b user seconds code id).stores u.id (some (c ∷ p)) m w in
      let answer =
        verify_found b env user given ip device v w'.row.s w'.o n find_user-update_phone
          w'.row.found w'.row.holds.0 (ap (λ k. get_otp k n) w'.row.same_id ∙ w'.asked) in
      rw (update_profile-store, answer)
        (rw (e, d, w'.hashed, sound.matches w'.salt code)
          (
            refl,
            find_user-unlock env user v w'.row.s w'.o ip device n find_user-update_phone,
            messages-unlock env v w'.row.s w'.o ip device n ∙ messages-update_phone,
          ))

-- A verification with the code of a request marks as verified whatever telephone number the user has
-- by then: one that was stored after the request is marked, though the code went to another.
pub verify_marks_phone :
    (b : Bcrypt) (env env' : Env) (user : ℕ) (minutes : ℤ) (phone given ip device : Text) (c : ℕ)
    (p : Text) (m : Accounts)
    → IsSound b
    → IsNumbered m
    → (request_account_security b env user minutes phone m).0 ≡ ok tt
    → trim_space given ≡ generate_otp_code env.random
    → let n =
        (update_profile user (c ∷ p) (request_account_security b env user minutes phone m).1).1 in
      let (r, k) = verify_account_security b env' user given ip device n in
      (r ≡ ok tt)
      × ((u : User) × (find_user user k ≡ some u)
          × (u.phone ≡ some (c ∷ p))
          × (u.is_phone_verified ≡ true))
      × (k.messages ≡ (request_account_security b env user minutes phone m).1.messages)
verify_marks_phone b env env' user minutes phone given ip device c p m sound n h e =
    let (id, w) = request-Waits b env user minutes phone m n h in
    let (r, f, g) =
      marks_phone user c p w.row.u _ w.row.known b env' given ip device (pos_part minutes * 60)
        (generate_otp_code env.random) id sound (code-is_digits env.random) e w in
    (r, (_, f, refl, refl), g)
