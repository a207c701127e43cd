-- ===== src/Security/Tests.antt =====
-- Runs of the calls on account security, and the theorems at inputs that meet their hypotheses.
use microservice_metarang.Prelude.{
  ℕ, ◌+◌, true, false, none, some, List, [], ◌∷◌, ◌≡◌, ◌≢◌, ◌↔◌, refl, inr, arith,
}
use microservice_metarang.Prelude.Int.{pos}
use microservice_metarang.Prelude.Action.{ok, err}
use microservice_metarang.Identity.Rules.{Text}
use microservice_metarang.Security.Tables.{
  User, AccountSecurity, Accounts, Env, Bcrypt, IsSound, SecurityError, same_text, trim_space,
  generate_otp_code,
}
use microservice_metarang.Security.Repository.{
  find_user, update_phone, mark_phone_as_verified, is_phone_taken, get_by_user_id, create_security,
  update_security, get_otp, upsert_otp, delete_otp, create_user_event, send_otp,
}
use microservice_metarang.Security.Service.{
  is_iran_mobile, lock_account, dispatch_otp, unlock, request_account_security,
  verify_account_security, update_profile,
}
use microservice_metarang.Security.Calls.{Call, request, verify, profile, serve_all}
use microservice_metarang.Security.Locking.{IsNumbered, request_account_security_locks}
use microservice_metarang.Security.Opening.{verify_account_security_exact}
use microservice_metarang.Security.Once.{unlock_once}
use microservice_metarang.Security.Phones.{verify_marks_phone}

same_text_refl : (s : Text) → same_text s s ≡ true
same_text_refl [] = refl
same_text_refl (c ∷ s) = ground (arith, same_text_refl s)

same_text→eq : (s t : Text) → same_text s t ≡ true → t ≡ s
same_text→eq [] [] h = refl
same_text→eq [] (d ∷ t) h = absurd (ground (arith, h))
same_text→eq (c ∷ s) [] h = absurd (ground (arith, h))
same_text→eq (c ∷ s) (d ∷ t) h = ground (arith, h, same_text→eq s t)

-- A hash that is the code itself.
abbrev plain : Bcrypt
plain = record { generate = λ salt code. code; compare = same_text }

plain-IsSound : IsSound plain
plain-IsSound = record {
  matches = λ salt code. same_text_refl code;
  matches_only = λ salt code given h. same_text→eq code given h;
}

abbrev env_at : ℕ → ℕ → Env
env_at now random = record {
  now = now;
  random = random;
  salt = 3;
  has_client = true;
  is_delivered = true;
}

-- 09121234567 and 09351112233
abbrev phone7 : Text
phone7 = 48 ∷ 57 ∷ 49 ∷ 50 ∷ 49 ∷ 50 ∷ 51 ∷ 52 ∷ 53 ∷ 54 ∷ 55 ∷ []

abbrev phone8 : Text
phone8 = 48 ∷ 57 ∷ 51 ∷ 53 ∷ 49 ∷ 49 ∷ 49 ∷ 50 ∷ 50 ∷ 51 ∷ 51 ∷ []

-- 123456, in spaces, and 000000
abbrev given : Text
given = 32 ∷ 49 ∷ 50 ∷ 51 ∷ 52 ∷ 53 ∷ 54 ∷ 32 ∷ []

abbrev zeros : Text
zeros = 48 ∷ 48 ∷ 48 ∷ 48 ∷ 48 ∷ 48 ∷ []

abbrev start : Accounts
start = record {
  users =
      record { id = 7; phone = none; is_phone_verified = false }
      ∷ record { id = 8; phone = some phone8; is_phone_verified = true }
      ∷ [];
  securities = [];
  otps = [];
  events = [];
  messages = [];
  next_security_id = 1;
  next_otp_id = 1;
}

start-IsNumbered : IsNumbered start
start-IsNumbered = record {
  securities = record { below = tt; distinct = tt };
  otps = record { below = tt; distinct = tt };
}

requested : (request_account_security plain (env_at 100 23456) 7 (pos 5) phone7 start).0 ≡ ok tt
unfolding request_account_security lock_account find_user get_by_user_id create_security
    is_iran_mobile is_phone_taken update_phone upsert_otp get_otp dispatch_otp send_otp trim_space
    generate_otp_code
requested = refl

given_code : trim_space given ≡ generate_otp_code 23456
unfolding trim_space generate_otp_code
given_code = refl

zeros_wrong : trim_space zeros ≢ generate_otp_code 23456
unfolding trim_space generate_otp_code
zeros_wrong h = ground (arith, h)

abbrev between : List (Env × Call)
between =
    (env_at 110 1, verify 7 zeros [] [])
    ∷ (env_at 120 2, request 8 (pos 60) [])
    ∷ (env_at 130 3, profile 7 phone8)
    ∷ []

verify_account_security_exact_example :
    let n =
      serve_all plain between
        (request_account_security plain (env_at 100 23456) 7 (pos 5) phone7 start).1 in
    ((verify_account_security plain (env_at 200 4) 7 given [] [] n).0 ≡ ok tt)
    ↔ (trim_space given ≡ generate_otp_code 23456)
verify_account_security_exact_example =
    verify_account_security_exact plain (env_at 100 23456) (env_at 200 4) 7 (pos 5) phone7 given []
      [] between start plain-IsSound start-IsNumbered requested
      (inr (refl, zeros_wrong), (omega arith, (tt, tt)))

-- The account of user 7 after the request.
abbrev waiting : Accounts
waiting = record start {
  securities = record { id = 1; user_id = 7; unlocked = false; until = none; length = 300 } ∷ [];
  otps =
      record { id = 1; user_id = 7; verifiable_id = 1; code = 49 ∷ 50 ∷ 51 ∷ 52 ∷ 53 ∷ 54 ∷ [] }
      ∷ [];
  next_security_id = 2;
  next_otp_id = 2;
}

waiting-IsNumbered : IsNumbered waiting
waiting-IsNumbered = record {
  securities = record { below = (omega arith, tt); distinct = (tt, tt) };
  otps = record { below = (omega arith, tt); distinct = (tt, tt) };
}

verified : (verify_account_security plain (env_at 200 4) 7 given [] [] waiting).0 ≡ ok tt
unfolding verify_account_security find_user get_by_user_id get_otp unlock mark_phone_as_verified
    update_security delete_otp create_user_event trim_space
verified = refl

abbrev after : List (Env × Call)
after = (env_at 210 5, verify 7 given [] []) ∷ (env_at 220 6, request 8 (pos 5) []) ∷ []

unlock_once_example :
    let n =
      serve_all plain after
        (verify_account_security plain (env_at 200 4) 7 given [] [] waiting).1 in
    ((s : AccountSecurity) × (t : AccountSecurity) × (get_by_user_id 7 waiting ≡ some s)
      × (get_by_user_id 7 n ≡ some t)
      × (t.unlocked ≡ true)
      × (t.until ≡ some (200 + s.length)))
    × ((e : SecurityError) × (verify_account_security plain (env_at 230 7) 7 given [] [] n
          ≡ (err e, n)))
unlock_once_example =
    unlock_once plain (env_at 200 4) (env_at 230 7) 7 given [] [] given [] [] after waiting
      waiting-IsNumbered verified (inr (refl, tt), (omega arith, tt))

user_found : find_user 7 start ≡ some (record { id = 7; phone = none; is_phone_verified = false })
unfolding find_user
user_found = refl

-- The telephone number is missing, but the account is locked.
request_account_security_locks_example :
    let n = (request_account_security plain (env_at 100 23456) 7 (pos 60) [] start).1 in
    (s : AccountSecurity) × (get_by_user_id 7 n ≡ some s) × (s.unlocked ≡ false) × (s.length ≡ 3600)
request_account_security_locks_example =
    request_account_security_locks plain (env_at 100 23456) 7 (pos 60) [] start _ start-IsNumbered
      user_found refl

verify_marks_phone_example :
    let k0 = (request_account_security plain (env_at 100 23456) 7 (pos 5) phone7 start).1 in
    let n = (update_profile 7 phone8 k0).1 in
    let (r, k) = verify_account_security plain (env_at 200 4) 7 given [] [] n in
    (r ≡ ok tt)
    × ((u : User) × (find_user 7 k ≡ some u)
        × (u.phone ≡ some phone8)
        × (u.is_phone_verified ≡ true))
    × (k.messages ≡ k0.messages)
verify_marks_phone_example =
    verify_marks_phone plain (env_at 100 23456) (env_at 200 4) 7 (pos 5) phone7 given [] [] 48
      (57 ∷ 51 ∷ 53 ∷ 49 ∷ 49 ∷ 49 ∷ 50 ∷ 50 ∷ 51 ∷ 51 ∷ []) start plain-IsSound start-IsNumbered
      requested given_code
