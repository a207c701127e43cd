-- ===== src/Security/Locking.antt =====
-- RequestAccountSecurity of services/auth-service/internal/service/auth_service.go: the account is
-- locked before anything else happens.
use microservice_metarang.Prelude.{
  ℕ, ◌*◌, Bool, true, false, not, ◌||◌, Option, none, some, ◌≡◌, ◌≢◌, refl, sym, ap, ◌∙◌, inl, inr,
  arith, ◌==◌, ==_iff, ==_refl, if◌then◌else◌, Bool-cases,
}
use microservice_metarang.Prelude.Int.{ℤ, pos, pos_part, ltb_ℤ}
use microservice_metarang.Prelude.Rows.{change}
use microservice_metarang.Prelude.Keys.{
  first-change_of, first-append_of, first-append_new, first_passes, Below-first, Distinct-first,
  IsKeyed, IsKeyed-append, IsKeyed-change, IsKeyed-remove,
}
use microservice_metarang.Prelude.Action.{bind_keeps, ◌>>=◌}
use microservice_metarang.Identity.Rules.{Text}
use microservice_metarang.Security.Tables.{
  User, AccountSecurity, Otp, UserEvent, Message, Accounts, Env, Bcrypt,
}
use microservice_metarang.Security.Repository.{
  has_user_id, find_user, update_phone, get_by_user_id, is_security_of, create_security,
  update_security, write_otp, upsert_otp, delete_otp, create_user_event, mark_phone_as_verified,
  send_otp,
}
use microservice_metarang.Security.Service.{
  has_verified_phone, lock_found, id_found, lock_account, choose_phone, send_code,
  request_account_security,
}
use microservice_metarang.Security.Calls.{IsClosed, choose_keeps, dispatch_keeps}

-- The ids of a table are distinct and below the next one.
pub record IsNumbered (m : Accounts) : Type 0 where
  pub securities : IsKeyed (λ (s : AccountSecurity). s.id) m.next_security_id m.securities
  pub otps : IsKeyed (λ (o : Otp). o.id) m.next_otp_id m.otps

abbrev pub Locked : ℕ → AccountSecurity → Type 0
Locked seconds s = (s.unlocked ≡ false) × (s.length ≡ seconds)

-- The user is known and has a row, of which this holds.
pub record Stands (Q : AccountSecurity → Type 0) (user id : ℕ) (m : Accounts) : Type 0 where
  pub u : User
  pub s : AccountSecurity
  pub known : find_user user m ≡ some u
  pub found : get_by_user_id user m ≡ some s
  pub same_id : s.id ≡ id
  pub holds : Q s
  pub numbered : IsNumbered m

module _ (Q : AccountSecurity → Type 0) (user id : ℕ) where
  users-Stands :
      (t : User → Bool) (f : User → User) (m : Accounts)
      → ((x : User) → (f x).id ≡ x.id)
      → Stands Q user id m
      → Stands Q user id (record m { users = change t f m.users })
  unfolding find_user get_by_user_id
  users-Stands t f m e h = record {
    u = if t h.u then f h.u else h.u;
    s = h.s;
    known = first-change_of (has_user_id user) t f m.users h.u (λ x. rw (e x) refl) h.known;
    found = h.found;
    same_id = h.same_id;
    holds = h.holds;
    numbered = record { securities = h.numbered.securities; otps = h.numbered.otps };
  }

  sent-Stands : (x : Message) (m : Accounts) → Stands Q user id m → Stands Q user id (send_otp x m)
  unfolding find_user get_by_user_id send_otp
  sent-Stands x m h = record {
    u = h.u;
    s = h.s;
    known = h.known;
    found = h.found;
    same_id = h.same_id;
    holds = h.holds;
    numbered = record { securities = h.numbered.securities; otps = h.numbered.otps };
  }

  event-Stands :
      (x : UserEvent) (m : Accounts) → Stands Q user id m → Stands Q user id (create_user_event x m)
  unfolding find_user get_by_user_id create_user_event
  event-Stands x m h = record {
    u = h.u;
    s = h.s;
    known = h.known;
    found = h.found;
    same_id = h.same_id;
    holds = h.holds;
    numbered = record { securities = h.numbered.securities; otps = h.numbered.otps };
  }

  write_otp-IsNumbered :
      (v k : ℕ) (c : Text) (m : Accounts) (p : Option Otp)
      → IsNumbered m
      → IsNumbered (write_otp v k c m p)
  write_otp-IsNumbered v k c m none n = record {
    securities = n.securities;
    otps = IsKeyed-append _ _ m.otps _ n.otps refl;
  }
  write_otp-IsNumbered v k c m (some p) n = record {
    securities = n.securities;
    otps = IsKeyed-change _ _ _ _ m.otps (λ x. refl) n.otps;
  }

  write_otp-rows :
      (v k : ℕ) (c : Text) (m : Accounts) (p : Option Otp)
      → (find_user user (write_otp v k c m p) ≡ find_user user m)
        × (get_by_user_id user (write_otp v k c m p) ≡ get_by_user_id user m)
  unfolding find_user get_by_user_id
  write_otp-rows v k c m none = (refl, refl)
  write_otp-rows v k c m (some p) = (refl, refl)

  pub write-Stands :
      (v k : ℕ) (c : Text) (m : Accounts) (p : Option Otp)
      → Stands Q user id m
      → Stands Q user id (write_otp v k c m p)
  write-Stands v k c m p h =
      let e = write_otp-rows v k c m p in
      record {
        u = h.u;
        s = h.s;
        known = e.0 ∙ h.known;
        found = e.1 ∙ h.found;
        same_id = h.same_id;
        holds = h.holds;
        numbered = write_otp-IsNumbered v k c m p h.numbered;
      }

  update-Stands :
      (t : AccountSecurity) (m : Accounts)
      → Stands Q user id m
      → t.id ≢ id
      → Stands Q user id (update_security t m)
  unfolding find_user get_by_user_id update_security
  update-Stands t m h ne =
      let e : (h.s.id == t.id) ≡ false = ground (arith, ne, h.same_id) in
      record {
        u = h.u;
        s = h.s;
        known = h.known;
        found =
            first-change_of (is_security_of user) (λ a. a.id == t.id) _ m.securities h.s (λ x. refl)
              h.found
            ∙ rw e refl;
        same_id = h.same_id;
        holds = h.holds;
        numbered = record {
          securities = IsKeyed-change _ _ _ _ m.securities (λ x. refl) h.numbered.securities;
          otps = h.numbered.otps;
        };
      }

  create-Stands :
      (t : AccountSecurity) (m : Accounts)
      → Stands Q user id m
      → t.id ≡ m.next_security_id
      → Stands Q user id (create_security t m)
  unfolding find_user get_by_user_id create_security
  create-Stands t m h e = record {
    u = h.u;
    s = h.s;
    known = h.known;
    found = first-append_of (is_security_of user) m.securities t h.s h.found;
    same_id = h.same_id;
    holds = h.holds;
    numbered = record {
      securities = IsKeyed-append _ _ m.securities t h.numbered.securities e;
      otps = h.numbered.otps;
    };
  }

  pub delete-Stands :
      (k : ℕ) (m : Accounts) → Stands Q user id m → Stands Q user id (delete_otp k m)
  unfolding find_user get_by_user_id delete_otp
  delete-Stands k m h = record {
    u = h.u;
    s = h.s;
    known = h.known;
    found = h.found;
    same_id = h.same_id;
    holds = h.holds;
    numbered = record {
      securities = h.numbered.securities;
      otps = IsKeyed-remove _ _ _ m.otps h.numbered.otps;
    };
  }

  apart_row :
      (v : ℕ) (m : Accounts) (t : AccountSecurity)
      → Stands Q user id m
      → get_by_user_id v m ≡ some t
      → v ≢ user
      → t.id ≢ id
  unfolding get_by_user_id
  apart_row v m t h e ne k =
      let a =
        Distinct-first (λ (s : AccountSecurity). s.id) (is_security_of v) (is_security_of user)
          m.securities t h.s h.numbered.securities.distinct e h.found (k ∙ sym h.same_id) in
      ne (
        sym ((==_iff _ _).0 (first_passes (is_security_of v) m.securities t e))
        ∙ ap (λ (s : AccountSecurity). s.user_id) a
        ∙ (==_iff _ _).0 (first_passes (is_security_of user) m.securities h.s h.found))

  fresh_row : (m : Accounts) → Stands Q user id m → m.next_security_id ≢ id
  unfolding get_by_user_id
  fresh_row m h k = ground (
    arith,
    k,
    h.same_id,
    Below-first (λ (s : AccountSecurity). s.id) m.next_security_id (is_security_of user)
        m.securities h.s h.numbered.securities.below h.found,
  )

  pub Stands-IsClosed : IsClosed user id (Stands Q user id)
  unfolding update_phone mark_phone_as_verified
  Stands-IsClosed = record {
    apart = λ v m s h e ne. apart_row v m s h e ne;
    fresh = fresh_row;
    stores = λ v p m h. users-Stands (has_user_id v) _ m (λ x. refl) h;
    marks = λ v m h. users-Stands (has_user_id v) _ m (λ x. refl) h;
    creates = create-Stands;
    updates = update-Stands;
    writes = λ v k c m h ne p e. write-Stands v k c m p h;
    deletes = λ k o m h ne e. delete-Stands o.id m h;
    records = event-Stands;
    sends = sent-Stands;
  }

-- The row that a request begins with.
pub lock_found-Stands :
    (user seconds : ℕ) (u : User) (m : Accounts)
    → IsNumbered m
    → find_user user m ≡ some u
    → (p : Option AccountSecurity) → get_by_user_id user m ≡ p
    → Stands (Locked seconds) user (id_found p m) (lock_found user seconds p m)
unfolding find_user get_by_user_id create_security update_security
lock_found-Stands user seconds u m n f none e = record {
  u = u;
  s = _;
  known = f;
  found = first-append_new (is_security_of user) m.securities _ e (==_refl user);
  same_id = refl;
  holds = (refl, refl);
  numbered = record {
    securities = IsKeyed-append _ _ m.securities _ n.securities refl;
    otps = n.otps;
  };
}
lock_found-Stands user seconds u m n f (some s) e = record {
  u = u;
  s = record s { unlocked = false; until = none; length = seconds };
  known = f;
  found =
      first-change_of (is_security_of user) (λ t. t.id == s.id) _ m.securities s (λ x. refl) e
      ∙ rw (==_refl s.id) refl;
  same_id = refl;
  holds = (refl, refl);
  numbered = record {
    securities = IsKeyed-change _ _ _ _ m.securities (λ x. refl) n.securities;
    otps = n.otps;
  };
}

module _ (b : Bcrypt) (env : Env) (user : ℕ) (minutes : ℤ) (phone : Text) where
  abbrev permitted : Bool
  permitted = not (ltb_ℤ minutes (pos 5) || ltb_ℤ (pos 60) minutes)

  -- What stands after the row has been locked stands after the rest of the request.
  rest-Stands :
      (u : User) (id : ℕ) (t : Bool) (m : Accounts)
      → Stands (Locked (pos_part minutes * 60)) user id m
      → Stands
          (Locked (pos_part minutes * 60))
          user
          id
          ((choose_phone u phone t >>= send_code b env u id) m).1
  unfolding upsert_otp
  rest-Stands u id t m h =
      let P = Stands (Locked (pos_part minutes * 60)) user id in
      let c = Stands-IsClosed (Locked (pos_part minutes * 60)) user id in
      bind_keeps (choose_phone u phone t) (send_code b env u id) P m
        (choose_keeps P c.stores u phone t m h)
        (λ number n k.
          dispatch_keeps P c.sends env number _ _ (write-Stands _ user id u.id id _ n _ k))

  -- Every request of a known user for a permitted time locks the account and sets the time, also one
  -- that fails.
  pub request_account_security_locks :
      (m : Accounts) (u : User)
      → IsNumbered m
      → find_user user m ≡ some u
      → permitted ≡ true
      → let n = (request_account_security b env user minutes phone m).1 in
        (s : AccountSecurity) × (get_by_user_id user n ≡ some s)
        × (s.unlocked ≡ false)
        × (s.length ≡ pos_part minutes * 60)
  unfolding request_account_security lock_account
  request_account_security_locks m u n f p =
      elim (Bool-cases (ltb_ℤ minutes (pos 5) || ltb_ℤ (pos 60) minutes)) [
        | inl e ↦ absurd (ground (arith, e, p))
        | inr e ↦
            let l =
              lock_found-Stands user (pos_part minutes * 60) u m n f (get_by_user_id user m) refl in
            let k = rest-Stands u _ (has_verified_phone u) _ l in
            rw (e, f) (k.s, k.found, k.holds.0, k.holds.1)
      ]
