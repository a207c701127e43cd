-- ===== src/Support/Tests.antt =====
-- Runs of the tickets, and the theorem at inputs that meet its hypotheses.
use microservice_metarang.Prelude.{true, none, some, [], ◌∷◌, ◌≡◌, refl}
use microservice_metarang.Prelude.Action.{err}
use microservice_metarang.Support.Tickets.{
  Ticket, TicketResponse, Tickets, Env, new, closed, already_closed, not_permitted, row,
  responses_to, get_by_id, update, check_authorization, add_response, update_ticket,
}
use microservice_metarang.Support.Closed.{
  serve_all, creates, updates, responds, closes, closed_stays,
}

abbrev env : Env
env = record { random = 5; has_user = λ u. true }

abbrev ended : Ticket
ended = record {
  id = 1;
  title = "a";
  content = "b";
  attachment = "";
  status = closed;
  department = none;
  importance = 0;
  code = 100005;
  user_id = 7;
  receiver_id = some 8;
}

abbrev answer : TicketResponse
answer = record {
  id = 1;
  ticket_id = 1;
  response = "c";
  attachment = "";
  responser_name = "User_8";
  responser_id = 8;
}

abbrev desk : Tickets
desk = record { tickets = ended ∷ []; responses = answer ∷ []; next_id = 2; next_response_id = 2 }

answer_refused : (add_response env 1 8 "d" "" "User_8" desk).0 ≡ err already_closed
unfolding add_response check_authorization get_by_id
answer_refused = refl

stranger_refused : (add_response env 1 9 "d" "" "User_9" desk).0 ≡ err not_permitted
unfolding add_response check_authorization
stranger_refused = refl

-- The sender opens a closed ticket again by an update of its text.
reopened :
    row 1 (update_ticket env 1 7 "e" "b" "" desk).1
    ≡ some (record ended { title = "e"; status = new })
unfolding update_ticket check_authorization get_by_id update
reopened = refl

closed_stays_example :
    let n =
      serve_all
        ((env, responds 1 8 "d" "" "User_8")
          ∷ (env, creates 9 "x" "y" "" (some 7) none)
          ∷ (env, responds 2 7 "z" "" "User_7")
          ∷ (env, updates 2 9 "u" "v" "")
          ∷ (env, closes 1 7)
          ∷ [])
        desk in
    (row 1 n ≡ some ended) × (responses_to 1 n ≡ answer ∷ [])
closed_stays_example =
    closed_stays
      ((env, responds 1 8 "d" "" "User_8")
        ∷ (env, creates 9 "x" "y" "" (some 7) none)
        ∷ (env, responds 2 7 "z" "" "User_7")
        ∷ (env, updates 2 9 "u" "v" "")
        ∷ (env, closes 1 7)
        ∷ [])
      1 ended desk refl refl (refl, (refl, (refl, (refl, (refl, tt)))))
