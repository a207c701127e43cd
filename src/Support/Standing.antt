-- ===== src/Support/Standing.antt =====
-- services/support-service/internal/repository/ticket_repository.go: the statements that leave a ticket
-- and the answers to it alone.
use Prim.Native.String.{String}
use microservice_metarang.Prelude.{
  ℕ, Bool, false, some, List, [], ◌∷◌, ◌++◌, ◌≡◌, refl, ap, ◌∙◌, arith, ◌==◌,
}
use microservice_metarang.Prelude.Rows.{first, select, change}
use microservice_metarang.Prelude.Keys.{first-change_of, first_passes}
use microservice_metarang.Support.Tickets.{
  Status, Ticket, TicketResponse, Tickets, row, responses_to, update, update_status,
  create_response,
}

-- The ticket and the answers to it.
abbrev pub Stands : ℕ → Ticket → List TicketResponse → Tickets → Type 0
Stands id t rs m = (row id m ≡ some t) × (responses_to id m ≡ rs)

select-append_other :
    {A : Type 0} (p : A → Bool) (l : List A) (x : A)
    → p x ≡ false
    → select p (l ++ x ∷ []) ≡ select p l
select-append_other p [] x h = rw h refl
select-append_other p (a ∷ l) x h = ground (arith, select-append_other p l x h)

module _ (id : ℕ) (t : Ticket) (rs : List TicketResponse) where
  row-change :
      (j : ℕ) (f : Ticket → Ticket) (l : List Ticket)
      → ((x : Ticket) → (f x).id ≡ x.id)
      → (j == id) ≡ false
      → first (λ x. x.id == id) l ≡ some t
      → first (λ x. x.id == id) (change (λ x. x.id == j) f l) ≡ some t
  row-change j f l h n e =
      first-change_of (λ (x : Ticket). x.id == id) (λ x. x.id == j) f l t
        (λ x. ap (λ i. i == id) (h x)) e
      ∙ ground (arith, n, first_passes (λ (x : Ticket). x.id == id) l t e)

  pub update-Stands :
      (j : ℕ) (title content attachment : String) (s : Status) (m : Tickets)
      → (j == id) ≡ false
      → Stands id t rs m
      → Stands id t rs (update j title content attachment s m)
  unfolding update
  update-Stands j title content attachment s m n h =
      (row-change j _ m.tickets (λ x. refl) n h.0, h.1)

  pub update_status-Stands :
      (j : ℕ) (s : Status) (m : Tickets)
      → (j == id) ≡ false
      → Stands id t rs m
      → Stands id t rs (update_status j s m)
  unfolding update_status
  update_status-Stands j s m n h = (row-change j _ m.tickets (λ x. refl) n h.0, h.1)

  pub create_response-Stands :
      (r : TicketResponse) (m : Tickets)
      → (r.ticket_id == id) ≡ false
      → Stands id t rs m
      → Stands id t rs (create_response r m)
  unfolding create_response
  create_response-Stands r m n h =
      (h.0, select-append_other (λ (x : TicketResponse). x.ticket_id == id) m.responses _ n ∙ h.1)
