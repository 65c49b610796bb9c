-- ===== src/Http/Routes.antt =====
-- The routes of cmd/api/main.go under /api/v1, and internal/api/error_handler.go.
use go_event_ticket_reservat.Prelude.{ℕ, String, Option, List}
use go_event_ticket_reservat.Prelude.Int.{ℤ}
use go_event_ticket_reservat.World.Rows.{World}
use go_event_ticket_reservat.Application.SeatService.{SeatService}
use go_event_ticket_reservat.Application.ReservationService.{ReservationService}
use go_event_ticket_reservat.Http.{
  Context, HttpError, http_error, other_error, Reply, returned, failed, Handler, done, ◌>>=◌,
}
use go_event_ticket_reservat.Http.Validator.{Packages}
use go_event_ticket_reservat.Http.Events
use go_event_ticket_reservat.Http.Events.{CreateEventRequest, EventResponse}
use go_event_ticket_reservat.Http.Health
use go_event_ticket_reservat.Http.Health.{HealthResponse}
use go_event_ticket_reservat.Http.Seats
use go_event_ticket_reservat.Http.Seats.{CreateSeatRequest, CreateBulkSeatsRequest, SeatResponse}
use go_event_ticket_reservat.Http.Reservations
use go_event_ticket_reservat.Http.Reservations.{CreateReservationRequest, ReservationResponse}

-- ErrorResponse; its details are never filled.
pub record ErrorResponse : Type 0 where
  pub error : String
  pub code : ℕ

pub data Body : Type 0 where
  event_body : EventResponse → Body
  event_list : List EventResponse → Body
  seat_body : SeatResponse → Body
  seat_list : List SeatResponse → Body
  reservation_body : ReservationResponse → Body
  reservation_list : List ReservationResponse → Body
  count_body : ℤ → Body
  health_body : HealthResponse → Body
  error_body : ErrorResponse → Body
  no_body : Body

pub record Response : Type 0 where
  pub status : ℕ
  pub body : Body

-- A request by its route. Of the body there is what Bind makes of it, or nothing where it fails.
pub data Request : Type 0 where
  get_health : Request
  post_event : Option CreateEventRequest → Request
  get_events get_event delete_event : Context → Request
  put_event : Context → Option CreateEventRequest → Request
  get_seats get_seat get_seat_count : Context → Request
  post_seat : Context → Option CreateSeatRequest → Request
  post_seats : Context → Option CreateBulkSeatsRequest → Request
  post_reservation : Context → Option CreateReservationRequest → Request
  get_reservations get_reservation confirm_reservation cancel_reservation : Context → Request

pub record Server : Type 0 where
  pub packages : Packages
  pub seats : SeatService
  pub reservations : ReservationService

-- c.JSON(code, body)
abbrev pub respond : {A : Type 0} → (A → Body) → ℕ × A → Response
respond f (code, a) = record { status = code; body = f a }

abbrev pub json : {A : Type 0} → Handler (ℕ × A) → (A → Body) → Handler Response
json h f = h >>= λ a. done (respond f a)

unfoldable pub dispatch : Server → Request → Handler Response
dispatch v get_health = json (Health.check v.packages) health_body
dispatch v (post_event b) = json (Events.create v.packages b) event_body
dispatch v (get_events c) = json (Events.list v.packages c) event_list
dispatch v (get_event c) = json (Events.get_by_id v.packages c) event_body
dispatch v (put_event c b) = json (Events.update v.packages c b) event_body
dispatch v (delete_event c) = json (Events.delete v.packages c) (λ _. no_body)
dispatch v (get_seats c) = json (Seats.get_by_event v.packages c) seat_list
dispatch v (post_seat c b) = json (Seats.create v.packages c b) seat_body
dispatch v (post_seats c b) = json (Seats.create_bulk v.packages c b) seat_list
dispatch v (get_seat_count c) = json (Seats.count_available v.packages v.seats c) count_body
dispatch v (get_seat c) = json (Seats.get_by_id v.packages c) seat_body
dispatch v (post_reservation c b) =
    json (Reservations.create v.packages v.reservations c b) reservation_body
dispatch v (get_reservations c) =
    json (Reservations.get_user_reservations v.packages c) reservation_list
dispatch v (get_reservation c) = json (Reservations.get_by_id v.packages c) reservation_body
dispatch v (confirm_reservation c) = json (Reservations.confirm v.packages c) reservation_body
dispatch v (cancel_reservation c) =
    json (Reservations.cancel v.packages v.reservations c) reservation_body

abbrev error_response : ℕ → String → Response
error_response code message = record {
  status = code;
  body = error_body (record { error = message; code = code });
}

-- CustomHTTPErrorHandler, for a response that is not written yet
unfoldable pub handle_error : HttpError → Response
handle_error (http_error code message) = error_response code message
handle_error (other_error message) = error_response 500 "内部サーバーエラー"

-- What the client gets
unfoldable pub sent : Reply Response → Response
unfolding handle_error
sent (returned r) = r
sent (failed e) = handle_error e

unfoldable pub serve : Server → Request → World → Response × World
unfolding dispatch sent
serve v q w = let (r, w') = dispatch v q w in (sent r, w')
