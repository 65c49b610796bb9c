-- ===== src/Http/Watch.antt =====
-- internal/api/middleware/prometheus.go and request_logger.go: what they record of a request.
use go_event_ticket_reservat.Prelude.{
  ℕ, String, ◌≡◌, refl, ◌==◌, ◌⊎◌, inl, inr, leb, if◌then◌else◌, List, true,
}
use go_event_ticket_reservat.Prelude.Text.{decimal}
use go_event_ticket_reservat.World.Rows.{World}
use go_event_ticket_reservat.Http.{http_error, other_error, Reply, returned, failed}
use go_event_ticket_reservat.Http.Rules.{Says, Refused, one_of}
use go_event_ticket_reservat.Http.Routes.{
  Request, Response, Server, dispatch, serve, sent, handle_error,
}
use go_event_ticket_reservat.Http.Status.{success, success_lem, refusals, dispatch-Answers}

-- c.Response().Status after the handler: that of the response that it wrote, or the status that the
-- framework starts with.
unfoldable pub response_status : ℕ → Reply Response → ℕ
response_status initial (returned r) = r.status
response_status initial (failed e) = initial

-- The labels of HTTPRequestsTotal
pub record HttpCount : Type 0 where
  pub method : String
  pub path : String
  pub status_code : String

abbrev counted_status : ℕ → Reply Response → ℕ
counted_status initial (failed (http_error code message)) = code
counted_status initial r = response_status initial r

-- PrometheusMiddleware: the count that it raises. Durations are left out.
unfoldable pub prometheus : ℕ → String → String → String → Reply Response → HttpCount
unfolding response_status
prometheus initial method route url_path r = record {
  method = method;
  path = if route == "" then url_path else route;
  status_code = decimal (counted_status initial r);
}

pub data Level : Type 0 where
  info warn error : Level

-- The level, the message and the status of the entry that RequestLogger writes; its other fields
-- repeat the request.
pub record Entry : Type 0 where
  pub level : Level
  pub message : String
  pub status : ℕ

abbrev by_status : ℕ → Entry
by_status code =
    if leb 500 code
    then record { level = error; message = "server error"; status = code }
    else if leb 400 code
    then record { level = warn; message = "client error"; status = code }
    else record { level = info; message = "request completed"; status = code }

-- RequestLogger
unfoldable pub request_logger : ℕ → Reply Response → Entry
unfolding response_status
request_logger initial (failed e) = record {
  level = error;
  message = "request failed";
  status = response_status initial (failed e);
}
request_logger initial (returned r) = by_status (response_status initial (returned r))

counted_lem :
    (codes : List ℕ) (code initial : ℕ) (U : Type 0) (r : Reply Response)
    → Says (λ a. a.status ≡ code) (λ e. Refused codes e × U) r
    → counted_status initial r ≡ (sent r).status
unfolding response_status sent handle_error
counted_lem codes code initial U (returned a) h = refl
counted_lem codes code initial U (failed (http_error k message)) h = refl
counted_lem codes code initial U (failed (other_error message)) (h, u) = absurd h

-- The status that PrometheusMiddleware counts is the one that the client gets, for each route.
pub prometheus-serve :
    (v : Server) (q : Request) (w : World) (initial : ℕ) (method route url_path : String)
    → (prometheus initial method route url_path (dispatch v q w).0).status_code
      ≡ decimal (serve v q w).0.status
unfolding prometheus serve
prometheus-serve v q w initial method route url_path =
    rw
      (counted_lem (refusals q) (success q) initial _ (dispatch v q w).0
        ((dispatch-Answers v q).run w))
      refl

logged_lem :
    (codes : List ℕ) (code initial : ℕ) (U : Type 0) (r : Reply Response)
    → (code ≡ 200) ⊎ (code ≡ 201) ⊎ (code ≡ 204)
    → Says (λ a. a.status ≡ code) (λ e. Refused codes e × U) r
    → (((sent r).status ≡ code)
        × (request_logger initial r
            ≡ record { level = info; message = "request completed"; status = code }))
      ⊎ ((one_of codes (sent r).status ≡ true)
          × (request_logger initial r
              ≡ record { level = error; message = "request failed"; status = initial }))
unfolding request_logger response_status sent handle_error
logged_lem codes code initial U (returned a) fine h = inl (
  h,
  elim fine [
    | inl e ↦ rw (h, e) refl
    | inr (inl e) ↦ rw (h, e) refl
    | inr (inr e) ↦ rw (h, e) refl
  ],
)
logged_lem codes code initial U (failed (http_error k message)) fine (h, u) = inr (h, refl)
logged_lem codes code initial U (failed (other_error message)) fine (h, u) = absurd h

-- RequestLogger logs a request of a route that succeeds as "request completed" with its status, and
-- one that is refused as "request failed" with the status that the framework starts with, whatever
-- the client gets: it never logs "client error".
pub request_logger-serve :
    (v : Server) (q : Request) (w : World) (initial : ℕ)
    → (((serve v q w).0.status ≡ success q)
        × (request_logger initial (dispatch v q w).0
            ≡ record { level = info; message = "request completed"; status = success q }))
      ⊎ ((one_of (refusals q) (serve v q w).0.status ≡ true)
          × (request_logger initial (dispatch v q w).0
              ≡ record { level = error; message = "request failed"; status = initial }))
unfolding serve
request_logger-serve v q w initial =
    logged_lem (refusals q) (success q) initial _ (dispatch v q w).0 (success_lem q)
      ((dispatch-Answers v q).run w)
