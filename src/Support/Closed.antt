-- ===== src/Support/Closed.antt =====
-- services/support-service/internal/service/ticket_service.go: what happens to a closed ticket.
use Prim.Native.String.{String}
use microservice_metarang.Prelude.{
  ℕ, Bool, true, false, Option, some, List, [], ◌∷◌, ◌≡◌, refl, ap, ◌∙◌, ◌⊎◌, inl, inr, arith, ◌==◌,
  ==_iff, Bool-cases, Option-cases, All,
}
use microservice_metarang.Prelude.Keys.{first-append_of}
use microservice_metarang.Prelude.Action.{bind_ok, bind_err, ◌>>◌}
use microservice_metarang.Support.Tickets.{
  Ticket, TicketResponse, Tickets, Env, Step, TicketWithRelations, is_closed, create, row,
  responses_to, joined, get_by_id, update, update_status, create_response, Purpose, is_permitted,
  check_authorization, create_ticket, update_ticket, add_response, close_ticket, respond, close,
  change_text, new, answered, closed, update_checked, add_checked, close_checked, ticket_not_found,
  not_permitted,
}
use microservice_metarang.Support.Standing.{
  Stands, update-Stands, update_status-Stands, create_response-Stands,
}

-- A call; each one meets surroundings of its own.
pub data Call : Type 0 where
  creates : ℕ → String → String → String → Option ℕ → Option String → Call
  updates responds : ℕ → ℕ → String → String → String → Call
  closes : ℕ → ℕ → Call

abbrev pub serve : Env → Call → Tickets → Tickets
serve env (creates user title content attachment receiver department) m =
    (create_ticket env user title content attachment receiver department m).1
serve env (updates id user title content attachment) m =
    (update_ticket env id user title content attachment m).1
serve env (responds id user response attachment name) m =
    (add_response env id user response attachment name m).1
serve env (closes id user) m = (close_ticket env id user m).1

abbrev pub serve_all : List (Env × Call) → Tickets → Tickets
serve_all [] m = m
serve_all ((env, c) ∷ cs) m = serve_all cs (serve env c m)

abbrev pub is_update_of : ℕ → Call → Bool
is_update_of id (updates j user title content attachment) = j == id
is_update_of id other_call = false

-- A caller who is refused changes nothing; the others come to the rest of the call.
authorized :
    {A : Type 0} (id user : ℕ) (p : Purpose) (k : Step A) (m : Tickets)
    → (((check_authorization id user p >> k) m).1 ≡ m)
      ⊎ ((check_authorization id user p >> k) m ≡ k m)
authorized id user p k m = elim (Option-cases (row id m)) [
  | inl e ↦ inl (
      ap (λ x. x.1)
        (bind_err (check_authorization id user p) (λ _. k) m m ticket_not_found
          (unfold check_authorization in rw e refl)))
  | inr (t, e) ↦ elim (Bool-cases (is_permitted p user t)) [
    | inr n ↦ inl (
        ap (λ x. x.1)
          (bind_err (check_authorization id user p) (λ _. k) m m not_permitted
            (unfold check_authorization in rw (e, n) refl)))
    | inl n ↦ inr (
        bind_ok (check_authorization id user p) (λ _. k) m m tt
          (unfold check_authorization in rw (e, n) refl))
  ]
]

-- A call on an open ticket leaves one state, and every other call leaves the tables alone.
abbrev Outcome : ℕ → Tickets → Tickets → Tickets → Type 0
Outcome id m n k =
    (k ≡ m) ⊎ ((t : Ticket) × (row id m ≡ some t) × (is_closed t.status ≡ false) × (k ≡ n))

joined_ticket :
    (env : Env) (rs : List TicketResponse) (t : Ticket) (x : TicketWithRelations)
    → joined env rs t ≡ some x
    → t ≡ x.0
joined_ticket env rs t x e = ground (arith, e)

found_row :
    (env : Env) (id : ℕ) (m : Tickets) (x : TicketWithRelations)
    → get_by_id env id m ≡ some x
    → row id m ≡ some x.0
unfolding get_by_id
found_row env id m x e = elim (Option-cases (row id m)) [
  | inl n ↦ absurd (ground (arith, rw (n, get_by_id) at e))
  | inr (t, n) ↦ n ∙ ap some (joined_ticket env (responses_to id m) t x (rw (n, get_by_id) at e))
]

add_checked-Outcome :
    (env : Env) (id user : ℕ) (response attachment name : String) (m : Tickets)
    → Outcome id m
        (update_status id answered (
          create_response
            record {
              id = 0;
              ticket_id = id;
              response = response;
              attachment = attachment;
              responser_name = name;
              responser_id = user;
            }
            m))
        (add_checked env id user response attachment name m).1
add_checked-Outcome env id user response attachment name m =
    elim (Option-cases (get_by_id env id m)) [
      | inl e ↦ inl (rw e refl)
      | inr (x, e) ↦ elim (Bool-cases (is_closed x.0.status)) [
        | inl c ↦ inl (rw (e, c) refl)
        | inr c ↦ inr (x.0, found_row env id m x e, c, rw (e, c) refl)
      ]
    ]

close_checked-Outcome :
    (env : Env) (id : ℕ) (m : Tickets)
    → Outcome id m (update_status id closed m) (close_checked env id m).1
close_checked-Outcome env id m = elim (Option-cases (get_by_id env id m)) [
  | inl e ↦ inl (rw e refl)
  | inr (x, e) ↦ elim (Bool-cases (is_closed x.0.status)) [
    | inl c ↦ inl (rw (e, c) refl)
    | inr c ↦ inr (x.0, found_row env id m x e, c, rw (e, c) refl)
  ]
]

update_checked-state :
    (env : Env) (id : ℕ) (title content attachment : String) (m : Tickets)
    → ((update_checked env id title content attachment m).1 ≡ m)
      ⊎ ((update_checked env id title content attachment m).1
          ≡ update id title content attachment new m)
update_checked-state env id title content attachment m = elim (Option-cases (get_by_id env id m)) [
  | inl e ↦ inl (rw e refl)
  | inr (t, e) ↦ inr (rw e refl)
]

-- What an outcome keeps of a closed ticket.
Outcome-Stands :
    (id j : ℕ) (t : Ticket) (rs : List TicketResponse) (m n k : Tickets)
    → is_closed t.status ≡ true
    → Stands id t rs m
    → Outcome j m n k
    → ((j == id) ≡ false → Stands id t rs n)
    → Stands id t rs k
Outcome-Stands id j t rs m n k c h (inl e) f = rw e h
Outcome-Stands id j t rs m n k c h (inr (t', e, o, g)) f = rw g (
    f (elim (Bool-cases (j == id)) [
      | inr x ↦ x
      | inl x ↦ absurd (ground (arith, (==_iff j id).0 x, e, h.0, o, c))
    ]))

-- A call keeps what its part after the check keeps.
authorized-Stands :
    {A : Type 0} (j user : ℕ) (p : Purpose) (k : Step A) (id : ℕ) (t : Ticket)
    (rs : List TicketResponse) (m : Tickets)
    → Stands id t rs m
    → Stands id t rs (k m).1
    → Stands id t rs ((check_authorization j user p >> k) m).1
authorized-Stands j user p k id t rs m h g = elim (authorized j user p k m) [
  | inl e ↦ rw e h
  | inr e ↦ rw e g
]

serve-Stands :
    (env : Env) (call : Call) (id : ℕ) (t : Ticket) (rs : List TicketResponse) (m : Tickets)
    → is_closed t.status ≡ true
    → is_update_of id call ≡ false
    → Stands id t rs m
    → Stands id t rs (serve env call m)
unfolding create_ticket create update_ticket add_response close_ticket
serve-Stands env (creates user title content attachment receiver department) id t rs m c u h =
    (first-append_of (λ (x : Ticket). x.id == id) m.tickets _ t h.0, h.1)
serve-Stands env (updates j user title content attachment) id t rs m c u h =
    authorized-Stands j user change_text (update_checked env j title content attachment) id t rs m h
      (elim (update_checked-state env j title content attachment m) [
        | inl f ↦ rw f h
        | inr f ↦ rw f (update-Stands id t rs j title content attachment new m u h)
      ])
serve-Stands env (responds j user response attachment name) id t rs m c u h =
    authorized-Stands j user respond (add_checked env j user response attachment name) id t rs m h (
      Outcome-Stands id j t rs m _ _ c h (add_checked-Outcome env j user response attachment name m)
        (λ n. update_status-Stands id t rs j answered _ n (create_response-Stands id t rs _ m n h)))
serve-Stands env (closes j user) id t rs m c u h =
    authorized-Stands j user close (close_checked env j) id t rs m h (
      Outcome-Stands id j t rs m _ _ c h (close_checked-Outcome env j m)
        (λ n. update_status-Stands id t rs j closed m n h))

-- A closed ticket stays as it is, with the answers to it, under all calls but updates of it.
pub closed_stays :
    (cs : List (Env × Call)) (id : ℕ) (t : Ticket) (m : Tickets)
    → row id m ≡ some t
    → is_closed t.status ≡ true
    → All (λ (c : Env × Call). is_update_of id c.1 ≡ false) cs
    → (row id (serve_all cs m) ≡ some t) × (responses_to id (serve_all cs m) ≡ responses_to id m)
closed_stays cs id t m e c u = run cs m u (e, refl)
  where
    run :
        (cs : List (Env × Call)) (n : Tickets)
        → All (λ (c : Env × Call). is_update_of id c.1 ≡ false) cs
        → Stands id t (responses_to id m) n
        → Stands id t (responses_to id m) (serve_all cs n)
    run [] n u h = h
    run ((env, call) ∷ cs) n u h =
        run cs (serve env call n) u.1 (serve-Stands env call id t (responses_to id m) n c u.0 h)
