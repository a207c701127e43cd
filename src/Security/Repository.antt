-- ===== src/Security/Repository.antt =====
-- services/auth-service/internal/repository: the statements of account_security_repository.go, and
-- those of user_repository.go on telephone numbers. Each answers; a failing database is not modelled.
use microservice_metarang.Prelude.{
  ℕ, suc, Bool, true, false, not, ◌&&◌, Option, none, some, [], ◌∷◌, ◌++◌, ◌==◌,
}
use microservice_metarang.Prelude.Rows.{first, change, remove, is_some}
use microservice_metarang.Identity.Rules.{Text}
use microservice_metarang.Security.Tables.{
  User, AccountSecurity, Otp, UserEvent, Message, Accounts, same_text,
}

abbrev pub has_user_id : ℕ → User → Bool
has_user_id id u = u.id == id

unfoldable pub find_user : ℕ → Accounts → Option User
find_user id m = first (has_user_id id) m.users

unfoldable pub update_phone : ℕ → Option Text → Accounts → Accounts
update_phone id phone m = record m {
  users = change (has_user_id id) (λ u. record u { phone = phone }) m.users;
}

unfoldable pub mark_phone_as_verified : ℕ → Accounts → Accounts
mark_phone_as_verified id m = record m {
  users = change (has_user_id id) (λ u. record u { is_phone_verified = true }) m.users;
}

abbrev is_phone : Text → Option Text → Bool
is_phone p none = false
is_phone p (some q) = same_text q p

unfoldable pub is_phone_taken : Text → ℕ → Accounts → Bool
is_phone_taken phone id m =
    is_some (first (λ u. is_phone phone u.phone && not (u.id == id)) m.users)

abbrev pub is_security_of : ℕ → AccountSecurity → Bool
is_security_of user s = s.user_id == user

unfoldable pub get_by_user_id : ℕ → Accounts → Option AccountSecurity
get_by_user_id user m = first (is_security_of user) m.securities

-- The new row has the id `next_security_id`.
unfoldable pub create_security : AccountSecurity → Accounts → Accounts
create_security s m = record m {
  securities = m.securities ++ s ∷ [];
  next_security_id = suc m.next_security_id;
}

unfoldable pub update_security : AccountSecurity → Accounts → Accounts
update_security s m = record m {
  securities =
      change (λ t. t.id == s.id)
        (λ t. record t { unlocked = s.unlocked; until = s.until; length = s.length }) m.securities;
}

abbrev pub is_otp_of : ℕ → Otp → Bool
is_otp_of security o = o.verifiable_id == security

unfoldable pub get_otp : ℕ → Accounts → Option Otp
get_otp security m = first (is_otp_of security) m.otps

abbrev pub write_otp : ℕ → ℕ → Text → Accounts → Option Otp → Accounts
write_otp user security code m none = record m {
  otps =
      m.otps
      ++ record { id = m.next_otp_id; user_id = user; verifiable_id = security; code = code } ∷ [];
  next_otp_id = suc m.next_otp_id;
}
write_otp user security code m (some old) = record m {
  otps = change (λ o. o.id == old.id) (λ o. record o { code = code }) m.otps;
}

unfoldable pub upsert_otp : ℕ → ℕ → Text → Accounts → Accounts
upsert_otp user security code m = write_otp user security code m (get_otp security m)

unfoldable pub delete_otp : ℕ → Accounts → Accounts
delete_otp id m = record m { otps = remove (λ o. o.id == id) m.otps }

-- Of activity_repository.go.
unfoldable pub create_user_event : UserEvent → Accounts → Accounts
create_user_event e m = record m { events = m.events ++ e ∷ [] }

-- SendOTP of the notification service, which lies behind a gRPC client.
unfoldable pub send_otp : Message → Accounts → Accounts
send_otp x m = record m { messages = m.messages ++ x ∷ [] }
