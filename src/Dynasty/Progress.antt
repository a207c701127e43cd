-- ===== src/Dynasty/Progress.antt =====
-- services/dynasty-service/internal/service/join_request_service_enhanced.go: a request that waits can
-- be accepted.
use microservice_metarang.Prelude.{ℕ, true, some, Option, ◌≡◌, ap, ◌∙◌, arith}
use microservice_metarang.Prelude.Rows.{is_some}
use microservice_metarang.Prelude.Action.{Result, ok}
use microservice_metarang.Dynasty.Tables.{accepted, JoinRequest, Registry, Env, Refusal}
use microservice_metarang.Dynasty.Repository.{get_join_request_by_id, get_dynasty_by_user_id}
use microservice_metarang.Dynasty.Policy.{can_accept}
use microservice_metarang.Dynasty.Enhanced.{accept_join_request}
use microservice_metarang.Dynasty.Statuses.{status_of, accept-status}
use microservice_metarang.Dynasty.Joining.{accept_found}
use microservice_metarang.Dynasty.Founding.{IsOrderly, dynasty-family}

-- If no user has two dynasties and every dynasty has a family, a pending request of a user with a
-- dynasty can be accepted by its receiver: the call succeeds, and the request is accepted.
pub accept_join_request_succeeds :
    (env : Env) (id user : ℕ) (m : Registry) (r : JoinRequest)
    → IsOrderly m
    → get_join_request_by_id id m ≡ some r
    → can_accept user r ≡ true
    → is_some (get_dynasty_by_user_id r.from_user m) ≡ true
    → let (x, n) = accept_join_request env id user m in
      ((a : Option JoinRequest) × (x ≡ ok a)) × (status_of id n ≡ some accepted)
accept_join_request_succeeds env id user m r h g t e =
    let (d, f, k, l) = dynasty-family r.from_user m h e in
    (
      (
        _,
        ap (λ (p : Result Refusal (Option JoinRequest) × Registry). p.0)
            (accept_found env id user m r g d f t k l),
      ),
      accept-status env id id user m ∙ rw (g, t) (ground arith),
    )
