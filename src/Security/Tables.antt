-- ===== src/Security/Tables.antt =====
-- services/auth-service/internal/models/user.go: the rows that account security reads and writes,
-- what a call finds in its surroundings, and the one-time codes. Times are seconds. The columns
-- `last_activity`, `created_at` and `updated_at` are left out, and of the table `otps` the rows of
-- other kinds.
use microservice_metarang.Prelude.{
  ℕ, zero, suc, ◌+◌, ◌/◌, ◌%◌, ◌^◌, ◌≡◌, Bool, true, false, ◌&&◌, ◌||◌, Option, List, [], ◌∷◌, ◌==◌,
  if◌then◌else◌,
}
use microservice_metarang.Prelude.Action.{Action}
use microservice_metarang.Identity.Rules.{Text, within}

pub record User : Type 0 where
  pub id : ℕ
  pub phone : Option Text
  pub is_phone_verified : Bool

-- `until` is the end of the unlocked time, `length` how long it is to be.
pub record AccountSecurity : Type 0 where
  pub id : ℕ
  pub user_id : ℕ
  pub unlocked : Bool
  pub until : Option ℕ
  pub length : ℕ

pub record Otp : Type 0 where
  pub id : ℕ
  pub user_id : ℕ
  pub verifiable_id : ℕ
  pub code : Text

pub record UserEvent : Type 0 where
  pub user_id : ℕ
  pub ip : Text
  pub device : Text

-- A code that the notification service was asked to send to a number.
pub record Message : Type 0 where
  pub phone : Text
  pub code : Text

pub record Accounts : Type 0 where
  pub users : List User
  pub securities : List AccountSecurity
  pub otps : List Otp
  pub events : List UserEvent
  pub messages : List Message
  pub next_security_id : ℕ
  pub next_otp_id : ℕ

-- The clock, the random numbers for the code and for the salt of its hash, and whether there is a
-- notification service and it accepts the message.
pub record Env : Type 0 where
  pub now : ℕ
  pub random : ℕ
  pub salt : ℕ
  pub has_client : Bool
  pub is_delivered : Bool

-- golang.org/x/crypto/bcrypt: GenerateFromPassword and CompareHashAndPassword.
pub record Bcrypt : Type 0 where
  pub generate : ℕ → Text → Text
  pub compare : Text → Text → Bool

-- What its documentation promises: a hash matches the password that it was made from, and no other.
pub record IsSound (b : Bcrypt) : Type 0 where
  pub matches : (salt : ℕ) (code : Text) → b.compare (b.generate salt code) code ≡ true
  pub matches_only :
      (salt : ℕ) (code given : Text) → b.compare (b.generate salt code) given ≡ true → given ≡ code

pub data SecurityError : Type 0 where
  invalid_unlock_duration user_not_found phone_required invalid_phone_format phone_already_taken :
      SecurityError
  no_client not_dispatched invalid_otp_code not_found already_unlocked : SecurityError

abbrev pub Step : Type 0 → Type 0
Step A = Action Accounts SecurityError A

-- `unicode.IsSpace`
abbrev pub is_space : ℕ → Bool
is_space c =
    within 9 13 c
    || (c == 32
        || (c == 133
            || (c == 160
                || (c == 5760
                    || (within 8192 8202 c
                        || (c == 8232
                            || (c == 8233 || (c == 8239 || (c == 8287 || c == 12288)))))))))

unfoldable pub trim_left : Text → Text
trim_left [] = []
trim_left (c ∷ cs) = if is_space c then trim_left cs else c ∷ cs

abbrev before : ℕ → Text → Text
before c [] = if is_space c then [] else c ∷ []
before c (d ∷ ds) = c ∷ d ∷ ds

unfoldable pub trim_right : Text → Text
trim_right [] = []
trim_right (c ∷ cs) = before c (trim_right cs)

-- `strings.TrimSpace`
unfoldable pub trim_space : Text → Text
unfolding trim_left trim_right
trim_space s = trim_right (trim_left s)

-- The last `k` decimal digits.
abbrev pub decimal : ℕ → ℕ → Text
decimal zero n = []
decimal (suc k) n = (48 + n / 10 ^ k % 10) ∷ decimal k n

-- `rand.Int` gives a number below 900000; `%06d` of a number with six digits.
unfoldable pub generate_otp_code : ℕ → Text
generate_otp_code random = decimal 6 (random % 900000 + 100000)

abbrev pub same_text : Text → Text → Bool
same_text [] [] = true
same_text [] (d ∷ ds) = false
same_text (c ∷ cs) [] = false
same_text (c ∷ cs) (d ∷ ds) = c == d && same_text cs ds
