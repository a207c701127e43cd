-- ===== src/Security/Calls.antt =====
-- services/auth-service/internal/service: calls that leave an account waiting for its code.
use microservice_metarang.Prelude.{
  ℕ, ◌*◌, Bool, true, false, ◌||◌, Option, none, some, List, [], ◌∷◌, ◌≡◌, ◌≢◌, refl, ◌∙◌, inl, inr,
  Bool-cases, Option-cases,
}
use microservice_metarang.Prelude.Int.{ℤ, pos, pos_part, ltb_ℤ}
use microservice_metarang.Prelude.Action.{bind_keeps}
use microservice_metarang.Identity.Rules.{Text, is_digits}
use microservice_metarang.Security.Tables.{
  User, AccountSecurity, Otp, UserEvent, Message, Accounts, Env, Bcrypt, trim_space,
  generate_otp_code, same_text,
}
use microservice_metarang.Security.Repository.{
  find_user, update_phone, mark_phone_as_verified, is_phone_taken, get_by_user_id, create_security,
  update_security, get_otp, write_otp, upsert_otp, delete_otp, create_user_event, send_otp,
}
use microservice_metarang.Security.Service.{
  is_empty, is_iran_mobile, phone_text, has_verified_phone, lock_found, id_found, lock_account,
  check_taken, store_phone, choose_phone, dispatch_otp, send_code, request_account_security,
  verify_phone, unlock, verify_account_security, stored_phone, update_profile,
}

-- What the statements for other accounts than the one with this row keep.
pub record IsClosed (user id : ℕ) (P : Accounts → Type 0) : Type 0 where
  pub apart :
      (v : ℕ) (m : Accounts) (s : AccountSecurity)
      → P m
      → get_by_user_id v m ≡ some s
      → v ≢ user
      → s.id ≢ id
  pub fresh : (m : Accounts) → P m → m.next_security_id ≢ id
  pub stores : (v : ℕ) (p : Option Text) (m : Accounts) → P m → P (update_phone v p m)
  pub marks : (v : ℕ) (m : Accounts) → P m → P (mark_phone_as_verified v m)
  pub creates :
      (s : AccountSecurity) (m : Accounts)
      → P m
      → s.id ≡ m.next_security_id
      → P (create_security s m)
  pub updates : (s : AccountSecurity) (m : Accounts) → P m → s.id ≢ id → P (update_security s m)
  pub writes :
      (v k : ℕ) (c : Text) (m : Accounts)
      → P m
      → k ≢ id
      → (p : Option Otp) → get_otp k m ≡ p
      → P (write_otp v k c m p)
  pub deletes :
      (k : ℕ) (o : Otp) (m : Accounts) → P m → k ≢ id → get_otp k m ≡ some o → P (delete_otp o.id m)
  pub records : (e : UserEvent) (m : Accounts) → P m → P (create_user_event e m)
  pub sends : (x : Message) (m : Accounts) → P m → P (send_otp x m)

-- What every store of a telephone number keeps, the choice of the number keeps.
module _ (P : Accounts → Type 0)
    (stores : (v : ℕ) (p : Option Text) (m : Accounts) → P m → P (update_phone v p m)) where
  check_keeps : (u : User) (phone : Text) (m : Accounts) → P m → P (check_taken u phone m).1
  check_keeps u phone m h = elim (Bool-cases (same_text phone (phone_text u.phone))) [
    | inl e ↦ rw e h
    | inr e ↦
        rw e (elim (Bool-cases (is_phone_taken phone u.id m)) [ inl f ↦ rw f h | inr f ↦ rw f h ])
  ]

  pub choose_keeps :
      (u : User) (phone : Text) (t : Bool) (m : Accounts) → P m → P (choose_phone u phone t m).1
  choose_keeps u phone true m h = h
  choose_keeps u phone false m h = elim (Bool-cases (is_empty (trim_space phone))) [
    | inl e ↦ rw e h
    | inr e ↦ rw e (elim (Bool-cases (is_iran_mobile (trim_space phone))) [
      | inr f ↦ rw f h
      | inl f ↦ rw f (
          bind_keeps (check_taken u (trim_space phone)) (λ x. store_phone u (trim_space phone)) P m
            (check_keeps u (trim_space phone) m h)
            (λ x n k. stores u.id (some (trim_space phone)) n k))
    ])
  ]

-- What every message keeps, sending the code keeps.
module _ (P : Accounts → Type 0)
    (sends : (x : Message) (m : Accounts) → P m → P (send_otp x m)) where
  pub dispatch_keeps :
      (env : Env) (phone c : Text) (m : Accounts) → P m → P (dispatch_otp env phone c m).1
  unfolding dispatch_otp
  dispatch_keeps env phone c m h = elim (Bool-cases (is_empty (trim_space phone))) [
    | inl e ↦ rw e h
    | inr e ↦ rw e (elim (Bool-cases env.has_client) [
      | inr f ↦ rw f h
      | inl f ↦
          rw f (elim (Bool-cases env.is_delivered) [ inr g ↦ rw g h | inl g ↦ rw g (sends _ m h) ])
    ])
  ]

module _ (b : Bcrypt) (user id : ℕ) (P : Accounts → Type 0) (c : IsClosed user id P) where
  lock_keeps :
      (v sec : ℕ) (m : Accounts)
      → P m
      → v ≢ user
      → (p : Option AccountSecurity) → get_by_user_id v m ≡ p
      → P (lock_found v sec p m) × (id_found p m ≢ id)
  unfolding get_by_user_id
  lock_keeps v sec m h ne none e = (c.creates _ m h refl, c.fresh m h)
  lock_keeps v sec m h ne (some t) e =
      let a : t.id ≢ id = c.apart v m t h e ne in (c.updates _ m h a, a)

  send_keeps :
      (env : Env) (u : User) (k : ℕ) (phone : Text) (m : Accounts)
      → k ≢ id
      → P m
      → P (send_code b env u k phone m).1
  unfolding upsert_otp
  send_keeps env u k phone m ne h =
      dispatch_keeps P c.sends env phone (generate_otp_code env.random) _
        (c.writes u.id k _ m h ne (get_otp k m) refl)

  -- A request of another user.
  pub request_keeps :
      (env : Env) (v : ℕ) (minutes : ℤ) (phone : Text) (m : Accounts)
      → v ≢ user
      → P m
      → P (request_account_security b env v minutes phone m).1
  unfolding request_account_security lock_account
  request_keeps env v minutes phone m ne h =
      elim (Bool-cases (ltb_ℤ minutes (pos 5) || ltb_ℤ (pos 60) minutes)) [
        | inl e ↦ rw e h
        | inr e ↦ rw e (elim (Option-cases (find_user v m)) [
          | inl f ↦ rw f h
          | inr (u, f) ↦
              let l = lock_keeps v (pos_part minutes * 60) m h ne (get_by_user_id v m) refl in
              rw f (
                bind_keeps (choose_phone u phone (has_verified_phone u)) (send_code b env u _) P
                  (lock_found v (pos_part minutes * 60) (get_by_user_id v m) m)
                  (choose_keeps P c.stores u phone (has_verified_phone u) _ l.0)
                  (λ number n k. send_keeps env u _ number n l.1 k))
        ])
      ]

  pub verify_phone_keeps : (u : User) (m : Accounts) → P m → P (verify_phone u m)
  verify_phone_keeps u m h = elim (Bool-cases u.is_phone_verified) [
    | inl e ↦ rw e h
    | inr e ↦ rw e (c.marks u.id m h)
  ]

  get_otp-verify_phone :
      (k : ℕ) (u : User) (m : Accounts) → get_otp k (verify_phone u m) ≡ get_otp k m
  unfolding get_otp mark_phone_as_verified
  get_otp-verify_phone k u m = elim (Bool-cases u.is_phone_verified) [
    | inl e ↦ rw e refl
    | inr e ↦ rw e refl
  ]

  get_otp-update_security :
      (k : ℕ) (s : AccountSecurity) (m : Accounts) → get_otp k (update_security s m) ≡ get_otp k m
  unfolding get_otp update_security
  get_otp-update_security k s m = refl

  unlock_keeps :
      (env : Env) (v : ℕ) (u : User) (s : AccountSecurity) (o : Otp) (ip device : Text)
      (m : Accounts)
      → v ≢ user
      → get_by_user_id v m ≡ some s
      → get_otp s.id m ≡ some o
      → P m
      → P (unlock env u s o ip device m)
  unfolding unlock
  unlock_keeps env v u s o ip device m ne e f h =
      let a : s.id ≢ id = c.apart v m s h e ne in
      c.records _ _ (
        c.deletes s.id o _ (c.updates _ _ (verify_phone_keeps u m h) a) a
          (get_otp-update_security s.id _ _ ∙ get_otp-verify_phone s.id u m ∙ f))

  -- A verification for another user.
  pub verify_keeps :
      (env : Env) (v : ℕ) (given ip device : Text) (m : Accounts)
      → v ≢ user
      → P m
      → P (verify_account_security b env v given ip device m).1
  unfolding verify_account_security unlock
  verify_keeps env v given ip device m ne h = elim (Bool-cases (is_digits 6 (trim_space given))) [
    | inr d ↦ rw d h
    | inl d ↦ rw d (elim (Option-cases (find_user v m)) [
      | inl f ↦ rw f h
      | inr (u, f) ↦ rw f (elim (Option-cases (get_by_user_id v m)) [
        | inl e ↦ rw e h
        | inr (s, e) ↦ rw e (elim (Bool-cases s.unlocked) [
          | inl l ↦ rw l h
          | inr l ↦ rw l (elim (Option-cases (get_otp s.id m)) [
            | inl g ↦ rw g h
            | inr (o, g) ↦ rw g (elim (Bool-cases (b.compare o.code (trim_space given))) [
              | inr d ↦ rw d h
              | inl d ↦ rw d (unlock_keeps env v u s o ip device m ne e g h)
            ])
          ])
        ])
      ])
    ])
  ]

  -- A change of anybody's telephone number.
  pub profile_keeps : (v : ℕ) (phone : Text) (m : Accounts) → P m → P (update_profile v phone m).1
  unfolding update_profile
  profile_keeps v phone m h = elim (Option-cases (find_user v m)) [
    | inl f ↦ rw f h
    | inr (u, f) ↦ rw f (c.stores u.id (stored_phone phone) m h)
  ]

-- A call of a user; each one meets surroundings of its own.
pub data Call : Type 0 where
  request : ℕ → ℤ → Text → Call
  verify : ℕ → Text → Text → Text → Call
  profile : ℕ → Text → Call

abbrev pub serve : Bcrypt → Env → Call → Accounts → Accounts
serve b env (request v minutes phone) m = (request_account_security b env v minutes phone m).1
serve b env (verify v given ip device) m = (verify_account_security b env v given ip device m).1
serve b env (profile v phone) m = (update_profile v phone m).1

abbrev pub serve_all : Bcrypt → List (Env × Call) → Accounts → Accounts
serve_all b [] m = m
serve_all b ((env, c) ∷ cs) m = serve_all b cs (serve b env c m)
