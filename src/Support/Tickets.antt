-- ===== src/Support/Tickets.antt =====
-- services/support-service: the rows of internal/models/ticket.go, the statements of
-- internal/repository/ticket_repository.go and the calls of internal/service/ticket_service.go. The
-- notifications, which are sent on the side, and the names and photos of the users are left out.
use Prim.Native.String.{String}
use microservice_metarang.Prelude.{
  ℕ, suc, ◌+◌, Bool, true, false, not, ◌||◌, Option, none, some, List, [], ◌∷◌, ◌++◌, ◌==◌,
  if◌then◌else◌,
}
use microservice_metarang.Prelude.Rows.{first, select, change}
use microservice_metarang.Prelude.Action.{Action, gets, or_fail, fail_if, modify, ◌>>=◌, ◌>>◌}

pub data Status : Type 0 where
  new answered resolved unresolved tracking closed : Status

pub record Ticket : Type 0 where
  pub id : ℕ
  pub title : String
  pub content : String
  pub attachment : String
  pub status : Status
  pub department : Option String
  pub importance : ℕ
  pub code : ℕ
  pub user_id : ℕ
  pub receiver_id : Option ℕ

pub record TicketResponse : Type 0 where
  pub id : ℕ
  pub ticket_id : ℕ
  pub response : String
  pub attachment : String
  pub responser_name : String
  pub responser_id : ℕ

pub record Tickets : Type 0 where
  pub tickets : List Ticket
  pub responses : List TicketResponse
  pub next_id : ℕ
  pub next_response_id : ℕ

-- A number below 900,000 that is drawn, and the rows of `users`.
pub record Env : Type 0 where
  pub random : ℕ
  pub has_user : ℕ → Bool

-- `nil_ticket` is the nil pointer that stops the call.
pub data Refusal : Type 0 where
  ticket_not_found not_permitted already_closed nil_ticket : Refusal

abbrev pub Step : Type 0 → Type 0
Step A = Action Tickets Refusal A

abbrev pub TicketWithRelations : Type 0
TicketWithRelations = Ticket × List TicketResponse

abbrev pub is_closed : Status → Bool
is_closed closed = true
is_closed other_status = false

unfoldable pub create : Ticket → Tickets → Tickets
create t m = record m {
  tickets = m.tickets ++ record t { id = m.next_id } ∷ [];
  next_id = suc m.next_id;
}

abbrev pub row : ℕ → Tickets → Option Ticket
row id m = first (λ t. t.id == id) m.tickets

abbrev pub responses_to : ℕ → Tickets → List TicketResponse
responses_to id m = select (λ r. r.ticket_id == id) m.responses

abbrev pub joined : Env → List TicketResponse → Ticket → Option TicketWithRelations
joined env rs t = if env.has_user t.user_id then some (t, rs) else none

-- The id is the key of the table; the join with `users` drops a ticket without a sender.
unfoldable pub get_by_id : Env → ℕ → Tickets → Option TicketWithRelations
get_by_id env id m = elim (row id m) [ none ↦ none | some t ↦ joined env (responses_to id m) t ]

unfoldable pub update : ℕ → String → String → String → Status → Tickets → Tickets
update id title content attachment s m = record m {
  tickets =
      change (λ t. t.id == id)
        (λ t. record t { title = title; content = content; attachment = attachment; status = s })
        m.tickets;
}

unfoldable pub update_status : ℕ → Status → Tickets → Tickets
update_status id s m = record m {
  tickets = change (λ t. t.id == id) (λ t. record t { status = s }) m.tickets;
}

unfoldable pub create_response : TicketResponse → Tickets → Tickets
create_response r m = record m {
  responses = m.responses ++ record r { id = m.next_response_id } ∷ [];
  next_response_id = suc m.next_response_id;
}

-- No receiver is read as 0.
abbrev pub is_receiver : ℕ → Option ℕ → Bool
is_receiver user none = 0 == user
is_receiver user (some r) = r == user

pub data Purpose : Type 0 where
  view change_text respond close : Purpose

abbrev pub is_permitted : Purpose → ℕ → Ticket → Bool
is_permitted view user t = t.user_id == user || is_receiver user t.receiver_id
is_permitted change_text user t = t.user_id == user
is_permitted respond user t = t.user_id == user || is_receiver user t.receiver_id
is_permitted close user t = t.user_id == user

unfoldable pub check_authorization : ℕ → ℕ → Purpose → Step (Unit {0})
check_authorization id user p = do
  t ← or_fail (← gets (row id)) ticket_not_found
  fail_if (not (is_permitted p user t)) not_permitted

unfoldable pub create_ticket :
    Env
    → ℕ
    → String
    → String
    → String
    → Option ℕ
    → Option String
    → Step (Option TicketWithRelations)
create_ticket env user title content attachment receiver department = do
  id ← gets (λ m. m.next_id)
  modify (
      create record {
        id = 0;
        title = title;
        content = content;
        attachment = attachment;
        status = new;
        department = department;
        importance = 0;
        code = env.random + 100000;
        user_id = user;
        receiver_id = receiver;
      })
  gets (get_by_id env id)

-- The calls after the check of the caller.
abbrev pub update_checked : Env → ℕ → String → String → String → Step (Option TicketWithRelations)
update_checked env id title content attachment = do
  or_fail (← gets (get_by_id env id)) nil_ticket
  modify (update id title content attachment new)
  gets (get_by_id env id)

abbrev pub add_checked : Env → ℕ → ℕ → String → String → String → Step (Option TicketWithRelations)
add_checked env id user response attachment user_name = do
  t ← or_fail (← gets (get_by_id env id)) nil_ticket
  fail_if (is_closed t.0.status) already_closed
  modify (
      create_response record {
        id = 0;
        ticket_id = id;
        response = response;
        attachment = attachment;
        responser_name = user_name;
        responser_id = user;
      })
  modify (update_status id answered)
  gets (get_by_id env id)

abbrev pub close_checked : Env → ℕ → Step (Option TicketWithRelations)
close_checked env id = do
  t ← or_fail (← gets (get_by_id env id)) nil_ticket
  fail_if (is_closed t.0.status) already_closed
  modify (update_status id closed)
  gets (get_by_id env id)

unfoldable pub update_ticket :
    Env → ℕ → ℕ → String → String → String → Step (Option TicketWithRelations)
update_ticket env id user title content attachment =
    check_authorization id user change_text >> update_checked env id title content attachment

unfoldable pub add_response :
    Env → ℕ → ℕ → String → String → String → Step (Option TicketWithRelations)
add_response env id user response attachment user_name =
    check_authorization id user respond >> add_checked env id user response attachment user_name

unfoldable pub close_ticket : Env → ℕ → ℕ → Step (Option TicketWithRelations)
close_ticket env id user = check_authorization id user close >> close_checked env id
