-- ===== src/Security/Waiting.antt =====
-- services/auth-service/internal/service/auth_service.go: an account that waits for its code, under
-- the calls that do not concern it.
use microservice_metarang.Prelude.{
  ℕ, false, Option, none, some, ◌≡◌, ◌≢◌, refl, sym, ap, ◌∙◌, inl, inr, ◌==◌, ==_iff, Bool-cases,
}
use microservice_metarang.Prelude.Keys.{
  first-change_of, first-remove_of, first-append_of, first_passes, Distinct-first,
}
use microservice_metarang.Identity.Rules.{Text}
use microservice_metarang.Security.Tables.{Otp, Accounts, Bcrypt}
use microservice_metarang.Security.Repository.{
  update_phone, mark_phone_as_verified, create_security, update_security, is_otp_of, get_otp,
  write_otp, delete_otp, create_user_event, send_otp,
}
use microservice_metarang.Security.Calls.{IsClosed}
use microservice_metarang.Security.Locking.{Locked, Stands, Stands-IsClosed}

-- The account of a user is locked, and the code on record for it is the hash of this one.
pub record Waits (b : Bcrypt) (user seconds : ℕ) (code : Text) (id : ℕ) (m : Accounts)
    : Type 0 where
  pub row : Stands (Locked seconds) user id m
  pub o : Otp
  pub salt : ℕ
  pub asked : get_otp id m ≡ some o
  pub hashed : o.code ≡ b.generate salt code

module _ (b : Bcrypt) (user seconds : ℕ) (code : Text) (id : ℕ) where
  abbrev Kept : Accounts → Type 0
  Kept = Waits b user seconds code id

  -- A statement that leaves the row standing and the code on record.
  same_otp :
      (m n : Accounts)
      → (h : Kept m) → Stands (Locked seconds) user id n
      → get_otp id n ≡ some h.o
      → Kept n
  same_otp m n h r e = record { row = r; o = h.o; salt = h.salt; asked = e; hashed = h.hashed }

  otp_apart :
      (k : ℕ) (m : Accounts) (p : Otp) (h : Kept m)
      → get_otp k m ≡ some p
      → k ≢ id
      → (h.o.id == p.id) ≡ false
  unfolding get_otp
  otp_apart k m p w e ne = elim (Bool-cases (w.o.id == p.id)) [
    | inr f ↦ f
    | inl t ↦
        let a =
          Distinct-first (λ (o : Otp). o.id) (is_otp_of k) (is_otp_of id) m.otps p w.o
            w.row.numbered.otps.distinct e w.asked (sym ((==_iff _ _).0 t)) in
        absurd (
          ne (
            sym ((==_iff _ _).0 (first_passes (is_otp_of k) m.otps p e))
            ∙ ap (λ (o : Otp). o.verifiable_id) a
            ∙ (==_iff _ _).0 (first_passes (is_otp_of id) m.otps w.o w.asked)))
  ]

  asked-write_otp :
      (v k : ℕ) (c : Text) (m : Accounts) (h : Kept m)
      → k ≢ id
      → (p : Option Otp) → get_otp k m ≡ p
      → get_otp id (write_otp v k c m p) ≡ some h.o
  unfolding get_otp
  asked-write_otp v k c m h ne none e = first-append_of (is_otp_of id) m.otps _ h.o h.asked
  asked-write_otp v k c m h ne (some p) e =
      first-change_of (is_otp_of id) (λ a. a.id == p.id) _ m.otps h.o (λ x. refl) h.asked
      ∙ rw (otp_apart k m p h e ne) refl

  asked-delete_otp :
      (k : ℕ) (p : Otp) (m : Accounts) (h : Kept m)
      → k ≢ id
      → get_otp k m ≡ some p
      → get_otp id (delete_otp p.id m) ≡ some h.o
  unfolding get_otp delete_otp
  asked-delete_otp k p m h ne e =
      first-remove_of (is_otp_of id) (λ a. a.id == p.id) m.otps h.o h.asked (otp_apart k m p h e ne)

  pub Waits-IsClosed : IsClosed user id Kept
  unfolding update_phone mark_phone_as_verified create_security update_security create_user_event
      send_otp get_otp
  Waits-IsClosed =
      let c = Stands-IsClosed (Locked seconds) user id in
      record {
        apart = λ v m s h e ne. c.apart v m s h.row e ne;
        fresh = λ m h. c.fresh m h.row;
        stores = λ v p m h. same_otp m _ h (c.stores v p m h.row) h.asked;
        marks = λ v m h. same_otp m _ h (c.marks v m h.row) h.asked;
        creates = λ s m h e. same_otp m _ h (c.creates s m h.row e) h.asked;
        updates = λ s m h ne. same_otp m _ h (c.updates s m h.row ne) h.asked;
        writes = λ v k t m h ne p e.
            same_otp m _ h (c.writes v k t m h.row ne p e) (asked-write_otp v k t m h ne p e);
        deletes = λ k o m h ne e.
            same_otp m _ h (c.deletes k o m h.row ne e) (asked-delete_otp k o m h ne e);
        records = λ x m h. same_otp m _ h (c.records x m h.row) h.asked;
        sends = λ x m h. same_otp m _ h (c.sends x m h.row) h.asked;
      }
