-- ===== src/Security/Opening.antt =====
-- VerifyAccountSecurity of services/auth-service/internal/service/auth_service.go: what opens an
-- account after a request, and how often.
use microservice_metarang.Prelude.{
  ℕ, zero, suc, ◌+◌, ◌*◌, ◌/◌, ◌%◌, ◌^◌, Bool, true, ◌||◌, Option, none, some, List, ◌≡◌, ◌≢◌, ◌↔◌,
  refl, ap, ◌∙◌, inl, inr, arith, ◌==◌, ==_refl, Bool-cases, Option-cases, All, length,
}
use microservice_metarang.Prelude.Int.{ℤ, pos, pos_part, ltb_ℤ}
use microservice_metarang.Prelude.Keys.{first-change_of, first-append_new}
use microservice_metarang.Prelude.Action.{ok, bind_succeeds, ◌>>=◌}
use microservice_metarang.Identity.Rules.{Text, is_digits, is_digit, all}
use microservice_metarang.Security.Tables.{
  User, Otp, Accounts, Env, Bcrypt, IsSound, trim_space, decimal, generate_otp_code,
}
use microservice_metarang.Security.Repository.{
  find_user, get_by_user_id, is_otp_of, get_otp, write_otp, upsert_otp,
}
use microservice_metarang.Security.Service.{
  has_verified_phone, id_found, lock_account, choose_phone, send_code, request_account_security,
  verify_account_security,
}
use microservice_metarang.Security.Calls.{Call, serve_all, choose_keeps, dispatch_keeps}
use microservice_metarang.Security.Locking.{
  IsNumbered, Locked, Stands, Stands-IsClosed, write-Stands, lock_found-Stands,
}
use microservice_metarang.Security.Waiting.{Waits, Waits-IsClosed}
use microservice_metarang.Security.Codes.{Leaves, serve_all_keeps, verify_vain, verify_exactly}

digit-is_digit : (n : ℕ) → is_digit (48 + n % 10) ≡ true
digit-is_digit n = ground arith

decimal-digits : (k n : ℕ) → is_digits k (decimal k n) ≡ true
decimal-digits k n = rw (length-decimal k n, ==_refl k) (all-decimal k n)
  where
    length-decimal : (k n : ℕ) → length (decimal k n) ≡ k
    length-decimal zero n = refl
    length-decimal (suc k) n = ap suc (length-decimal k n)

    all-decimal : (k n : ℕ) → all is_digit (decimal k n) ≡ true
    all-decimal zero n = refl
    all-decimal (suc k) n = rw (digit-is_digit (n / 10 ^ k)) (all-decimal k n)

pub code-is_digits : (random : ℕ) → is_digits 6 (generate_otp_code random) ≡ true
unfolding generate_otp_code
code-is_digits random = decimal-digits 6 (random % 900000 + 100000)

-- A code that has just been written is the one on record.
get_otp-write_otp :
    (v k : ℕ) (c : Text) (m : Accounts) (p : Option Otp)
    → get_otp k m ≡ p
    → (o : Otp) × (get_otp k (write_otp v k c m p) ≡ some o) × (o.code ≡ c)
unfolding get_otp
get_otp-write_otp v k c m none e = (_, first-append_new (is_otp_of k) m.otps _ e (==_refl k), refl)
get_otp-write_otp v k c m (some o) e = (
  record o { code = c },
  first-change_of (is_otp_of k) (λ a. a.id == o.id) _ m.otps o (λ x. refl) e
      ∙ rw (==_refl o.id) refl,
  refl,
)

module _ (b : Bcrypt) (env : Env) (user : ℕ) (minutes : ℤ) (phone : Text) where
  abbrev seconds : ℕ
  seconds = pos_part minutes * 60

  abbrev code : Text
  code = generate_otp_code env.random

  send-Waits :
      (u : User) (id : ℕ) (number : Text) (m : Accounts)
      → Stands (Locked seconds) user id m
      → Waits b user seconds code id (send_code b env u id number m).1
  unfolding upsert_otp
  send-Waits u id number m h =
      let (o, g, k) = get_otp-write_otp u.id id (b.generate env.salt code) m (get_otp id m) refl in
      dispatch_keeps (Waits b user seconds code id) (Waits-IsClosed b user seconds code id).sends
        env number code _
        (record {
          row = write-Stands (Locked seconds) user id u.id id _ m (get_otp id m) h;
          o = o;
          salt = env.salt;
          asked = g;
          hashed = k;
        })

  rest-Waits :
      (u : User) (id : ℕ) (t : Bool) (m : Accounts)
      → Stands (Locked seconds) user id m
      → ((choose_phone u phone t >>= send_code b env u id) m).0 ≡ ok tt
      → Waits b user seconds code id ((choose_phone u phone t >>= send_code b env u id) m).1
  rest-Waits u id t m h e =
      let (number, f, g) = bind_succeeds (choose_phone u phone t) (send_code b env u id) m tt e in
      rw g (
        send-Waits u id number _ (
          choose_keeps (Stands (Locked seconds) user id)
            (Stands-IsClosed (Locked seconds) user id).stores u phone t m h))

  -- A request that succeeds leaves the account waiting for the code that it has drawn.
  pub request-Waits :
      (m : Accounts)
      → IsNumbered m
      → (request_account_security b env user minutes phone m).0 ≡ ok tt
      → (id : ℕ) × Waits b user seconds code id
          (request_account_security b env user minutes phone m).1
  unfolding request_account_security lock_account
  request-Waits m n = elim (Bool-cases (ltb_ℤ minutes (pos 5) || ltb_ℤ (pos 60) minutes)) [
    | inl e ↦ rw e (λ h. absurd (ground (arith, h)))
    | inr e ↦ rw e (elim (Option-cases (find_user user m)) [
      | inl f ↦ rw f (λ h. absurd (ground (arith, h)))
      | inr (u, f) ↦ rw f (λ h. (
        id_found (get_by_user_id user m) m,
        rest-Waits u _ (has_verified_phone u) _
            (lock_found-Stands user seconds u m n f (get_by_user_id user m) refl) h,
      ))
    ])
  ]

-- After a request that succeeded the account opens exactly with the code that was drawn for it, in
-- spaces or not, whatever others do, whatever telephone numbers change and whatever wrong codes the
-- user tries before; until the next request of the user.
pub verify_account_security_exact :
    (b : Bcrypt) (env env' : Env) (user : ℕ) (minutes : ℤ) (phone given ip device : Text)
    (cs : List (Env × Call)) (m : Accounts)
    → IsSound b
    → IsNumbered m
    → (request_account_security b env user minutes phone m).0 ≡ ok tt
    → All
        (λ (x : Env × Call).
          Leaves user (λ given. trim_space given ≢ generate_otp_code env.random) x.1)
        cs
    → let n = serve_all b cs (request_account_security b env user minutes phone m).1 in
      ((verify_account_security b env' user given ip device n).0 ≡ ok tt)
      ↔ (trim_space given ≡ generate_otp_code env.random)
verify_account_security_exact b env env' user minutes phone given ip device cs m sound n h l =
    let (id, w) = request-Waits b env user minutes phone m n h in
    let code = generate_otp_code env.random in
    let seconds = pos_part minutes * 60 in
    let w' =
      serve_all_keeps b user id (Waits b user seconds code id)
        (Waits-IsClosed b user seconds code id) (λ given. trim_space given ≢ code)
        (λ e g i d k ne x. verify_vain b e user g i d seconds code id k sound ne x) cs _ l w in
    verify_exactly b env' user given ip device seconds code id _ w' sound
      (code-is_digits env.random)
