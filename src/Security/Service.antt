-- ===== src/Security/Service.antt =====
-- services/auth-service/internal/service: RequestAccountSecurity and VerifyAccountSecurity of
-- auth_service.go, and UpdateProfile of user_service.go as far as it writes the telephone number.
use microservice_metarang.Prelude.{
  ℕ, ◌+◌, ◌*◌, Bool, true, false, not, ◌&&◌, ◌||◌, Option, none, some, [], ◌∷◌, ◌==◌, if◌then◌else◌,
}
use microservice_metarang.Prelude.Int.{ℤ, pos, pos_part, ltb_ℤ}
use microservice_metarang.Prelude.Action.{pure, gets, or_fail, fail_if, modify, ◌>>=◌, ◌>>◌}
use microservice_metarang.Identity.Rules.{Text, is_digits}
use microservice_metarang.Security.Tables.{
  User, AccountSecurity, Otp, Accounts, Env, Bcrypt, invalid_unlock_duration, user_not_found,
  phone_required, invalid_phone_format, phone_already_taken, no_client, not_dispatched,
  invalid_otp_code, not_found, already_unlocked, Step, trim_space, generate_otp_code, same_text,
}
use microservice_metarang.Security.Repository.{
  find_user, update_phone, mark_phone_as_verified, is_phone_taken, get_by_user_id, create_security,
  update_security, get_otp, upsert_otp, delete_otp, create_user_event, send_otp,
}

abbrev pub is_empty : Text → Bool
is_empty [] = true
is_empty (c ∷ cs) = false

-- `^09\d{9}$`
unfoldable pub is_iran_mobile : Text → Bool
is_iran_mobile [] = false
is_iran_mobile (a ∷ []) = false
is_iran_mobile (a ∷ b ∷ rest) = a == 48 && (b == 57 && is_digits 9 rest)

-- The empty text for a number that is not valid.
abbrev pub phone_text : Option Text → Text
phone_text none = []
phone_text (some p) = trim_space p

abbrev pub has_verified_phone : User → Bool
has_verified_phone u = not (is_empty (phone_text u.phone)) && u.is_phone_verified

-- The row of the user is locked, whether it is new or not.
abbrev pub locked_row : ℕ → ℕ → ℕ → AccountSecurity
locked_row id user seconds = record {
  id = id;
  user_id = user;
  unlocked = false;
  until = none;
  length = seconds;
}

abbrev pub lock_found : ℕ → ℕ → Option AccountSecurity → Accounts → Accounts
lock_found user seconds none m = create_security (locked_row m.next_security_id user seconds) m
lock_found user seconds (some s) m = update_security (locked_row s.id s.user_id seconds) m

abbrev pub id_found : Option AccountSecurity → Accounts → ℕ
id_found none m = m.next_security_id
id_found (some s) m = s.id

-- Answers the id of the row.
unfoldable pub lock_account : ℕ → ℕ → Step ℕ
lock_account user seconds = do
  s ← gets (get_by_user_id user)
  id ← gets (id_found s)
  modify (lock_found user seconds s)
  pure id

abbrev pub check_taken : User → Text → Step (Unit {0})
check_taken u phone = do
  taken ← gets (is_phone_taken phone u.id)
  fail_if (not (same_text phone (phone_text u.phone)) && taken) phone_already_taken

abbrev pub store_phone : User → Text → Step Text
store_phone u phone = do modify (update_phone u.id (some phone)); pure (trim_space phone)

-- The number that the code goes to: that of the user if it is verified, else the given one.
abbrev pub choose_phone : User → Text → Bool → Step Text
choose_phone u phone true = pure (phone_text u.phone)
choose_phone u phone false = do
  fail_if (is_empty (trim_space phone)) phone_required
  fail_if (not (is_iran_mobile (trim_space phone))) invalid_phone_format
  check_taken u (trim_space phone)
  store_phone u (trim_space phone)

unfoldable pub dispatch_otp : Env → Text → Text → Step (Unit {0})
dispatch_otp env phone code = do
  fail_if (is_empty (trim_space phone)) phone_required
  fail_if (not env.has_client) no_client
  fail_if (not env.is_delivered) not_dispatched
  modify (send_otp (record { phone = trim_space phone; code = code }))

abbrev pub send_code : Bcrypt → Env → User → ℕ → Text → Step (Unit {0})
send_code b env u security phone = do
  modify (upsert_otp u.id security (b.generate env.salt (generate_otp_code env.random)))
  dispatch_otp env phone (generate_otp_code env.random)

unfoldable pub request_account_security : Bcrypt → Env → ℕ → ℤ → Text → Step (Unit {0})
request_account_security b env user minutes phone = do
  fail_if (ltb_ℤ minutes (pos 5) || ltb_ℤ (pos 60) minutes) invalid_unlock_duration
  u ← or_fail (← gets (find_user user)) user_not_found
  id ← lock_account user (pos_part minutes * 60)
  number ← choose_phone u phone (has_verified_phone u)
  send_code b env u id number

abbrev pub verify_phone : User → Accounts → Accounts
verify_phone u m = if u.is_phone_verified then m else mark_phone_as_verified u.id m

-- The row is unlocked for its length, the code is deleted and the event recorded.
unfoldable pub unlock : Env → User → AccountSecurity → Otp → Text → Text → Accounts → Accounts
unlock env u s o ip device m =
    create_user_event (record { user_id = u.id; ip = trim_space ip; device = trim_space device })
      (delete_otp o.id (
        update_security (record s { unlocked = true; until = some (env.now + s.length) })
          (verify_phone u m)))

unfoldable pub verify_account_security : Bcrypt → Env → ℕ → Text → Text → Text → Step (Unit {0})
verify_account_security b env user code ip device = do
  fail_if (not (is_digits 6 (trim_space code))) invalid_otp_code
  u ← or_fail (← gets (find_user user)) user_not_found
  s ← or_fail (← gets (get_by_user_id user)) not_found
  fail_if s.unlocked already_unlocked
  o ← or_fail (← gets (get_otp s.id)) not_found
  fail_if (not (b.compare o.code (trim_space code))) invalid_otp_code
  modify (unlock env u s o ip device)

-- An empty number is stored as NULL.
abbrev pub stored_phone : Text → Option Text
stored_phone [] = none
stored_phone (c ∷ cs) = some (c ∷ cs)

unfoldable pub update_profile : ℕ → Text → Step (Unit {0})
update_profile user phone = do
  u ← or_fail (← gets (find_user user)) user_not_found
  modify (update_phone u.id (stored_phone phone))
