-- ===== src/Tests/Web.antt =====
-- Requests over HTTP, at concrete inputs.
use go_event_ticket_reservat.Prelude.{
  String, ◌≡◌, refl, sym, subst, ◌⊎◌, ◌↔◌, List, [], ◌∷◌, true, false, some, none, ◌==◌, Bool,
  Option, if◌then◌else◌,
}
use go_event_ticket_reservat.Prelude.Int.{pos, ◌+ℤ◌}
use go_event_ticket_reservat.Prelude.Text.{decimal, sort_strings, join}
use go_event_ticket_reservat.Prelude.Tables.{sort_by}
use go_event_ticket_reservat.Domain.Seat
use go_event_ticket_reservat.Domain.Seat.{Seat}
use go_event_ticket_reservat.Domain.Reservation
use go_event_ticket_reservat.Domain.Reservation.{Reservation}
use go_event_ticket_reservat.Domain.Event
use go_event_ticket_reservat.Errors.{is_reservation_not_found, is_no_rows, is_lock_not_acquired}
use go_event_ticket_reservat.World.Rows.{World}
use go_event_ticket_reservat.World.Exec.{
  pure, raise, lift, attempt, map_error, wrapping, deferred, sample, ◌>>=◌, time_now, require,
  query, exec_db, exec_tx, send, count,
}
use go_event_ticket_reservat.Postgres.Tx.{begin, commit, rollback, unwrap_tx}
use go_event_ticket_reservat.Postgres.Events
use go_event_ticket_reservat.Postgres.Seats
use go_event_ticket_reservat.Postgres.Reservations
use go_event_ticket_reservat.Redis.Cache
use go_event_ticket_reservat.Redis.Lock.{
  acquire_lock, acquire_rounds, acquire_lock_with_retry, release,
}
use go_event_ticket_reservat.Booking.{Books}
use go_event_ticket_reservat.Application.ReservationService.{
  create_reservation, create_new, create_checked, unless_existing, with_lock, store_reservation,
  check_seats, build_seat_lock_key, invalidate_seat_cache,
}
use go_event_ticket_reservat.Application.EventService.{create_event}
use go_event_ticket_reservat.Application.SeatService.{create_bulk_seats, new_seats, seat_number}
use go_event_ticket_reservat.Http
use go_event_ticket_reservat.Http.{Context, returned}
use go_event_ticket_reservat.Http.Validator
use go_event_ticket_reservat.Http.Validator.{Packages, Validates, passes, Field}
use go_event_ticket_reservat.Http.Routes.{
  Request, Server, serve, dispatch, post_event, post_seats, post_reservation,
}
use go_event_ticket_reservat.Http.Events as WebEvents
use go_event_ticket_reservat.Http.Seats as WebSeats
use go_event_ticket_reservat.Http.Reservations as WebReservations
use go_event_ticket_reservat.Http.Rules.{one_of}
use go_event_ticket_reservat.Http.Status.{success, refusals, Undone, IsError, serve-Status}
use go_event_ticket_reservat.Http.Safety.{serve_all, serve_all-no_double_booking}
use go_event_ticket_reservat.Http.Seating.{Made, create_bulk-Made}
use go_event_ticket_reservat.Http.Watch.{
  prometheus, prometheus-serve, request_logger, info, error, request_logger-serve,
}
use go_event_ticket_reservat.Tests

abbrev refusal : Bool → Option String
refusal true = none
refusal false = some "invalid"

-- Packages that do what the hypotheses say
abbrev packages : Packages
packages = record {
  atoi = λ s. none;
  parse_time = λ s. if s == "start" then some 1000000 else some 2000000;
  format_time = decimal;
  foreign = λ e. "driver";
  validate_struct = λ fs. refusal (passes fs);
}

refusal_lem : (b : Bool) → (refusal b ≡ none) ↔ (b ≡ true)
refusal_lem true = (λ e. refl, λ e. refl)
refusal_lem false = (λ e. cc, λ e. cc)

packages-Validates : Validates packages
packages-Validates fs = refusal_lem (passes fs)

abbrev server : Server
server = record {
  packages = packages;
  seats = record { cache = true };
  reservations = Tests.service;
}

abbrev context : Context
context = record {
  header = λ k. if k == "X-User-ID" then "u" else "";
  param = λ k. "1.0";
  query = λ k. "";
}

abbrev many : WebSeats.CreateBulkSeatsRequest
many = record { prefix = "A"; count = pos 2; price = pos 50 }

abbrev requests : List Request
requests =
    post_event (
      some (record {
        name = "live";
        description = "";
        venue = "hall";
        start_at = "start";
        end_at = "end";
        total_seats = pos 2;
      }))
    ∷ post_seats context (some many)
    ∷ post_reservation context
        (some (record { event_id = "1.0"; seat_ids = "5.0" ∷ []; idempotency_key = "k" }))
    ∷ []

serve_all-booked_db : (serve_all server requests Tests.start).db ≡ Tests.booked_db
unfolding serve_all serve dispatch Http.done Http.refuse Http.call Http.bind_or Http.◌>>=◌
    Validator.validate Events.create WebEvents.create WebEvents.parse_times WebSeats.create_bulk
    WebReservations.create pure raise lift attempt map_error wrapping deferred sample ◌>>=◌ time_now
    require query exec_db exec_tx send count begin commit rollback unwrap_tx Events.get_by_id
    Events.insert_event Seats.create_bulk Seats.insert_seats Seats.insert_seat
    Seats.create_bulk_batch Seats.create_bulk_from Seats.get_by_event_id Seats.reserve_seats
    Reservations.create Reservations.insert_reservation Reservations.insert_links
    Reservations.insert_link Reservations.get_by_idempotency_key Reservations.get_seat_ids
    acquire_lock acquire_rounds acquire_lock_with_retry release Cache.invalidate
    invalidate_seat_cache create_reservation create_new create_checked unless_existing with_lock
    store_reservation check_seats build_seat_lock_key create_event create_bulk_seats new_seats
    seat_number decimal sort_by sort_strings join Seat.new_seat Seat.validate Event.new_event
    Event.validate Event.is_booking_open Reservation.new_reservation Reservation.validate
    is_reservation_not_found is_no_rows is_lock_not_acquired Events.to_entity ◌+ℤ◌
serve_all-booked_db = refl

served-Books : Books (serve_all server requests Tests.start).db "14.0" "5.0"
served-Books =
    subst (λ d. Books d "14.0" "5.0") (sym serve_all-booked_db)
      (record {
        row = Tests.booked_row;
        status = Seat.reserved;
        is_linked = refl;
        found = refl;
        active = refl;
      })

serve_all-no_double_booking_example : Tests.booked_id ≡ Tests.booked_id
serve_all-no_double_booking_example =
    serve_all-no_double_booking server requests Tests.start Tests.booked_id Tests.booked_id "5.0"
      refl served-Books served-Books

abbrev booked : World
booked = record Tests.start { db = Tests.booked_db; at = 20 }

abbrev asked : Request
asked =
    post_reservation context
      (some (record { event_id = "1.0"; seat_ids = "5.0" ∷ []; idempotency_key = "l" }))

serve-Status_example :
    ((serve server asked booked).0.status ≡ success asked)
    ⊎ ((one_of (refusals asked) (serve server asked booked).0.status ≡ true)
        × IsError (serve server asked booked).0
        × Undone asked booked.db (serve server asked booked).1.db)
serve-Status_example = serve-Status server asked booked

prometheus-serve_example :
    (prometheus 200 "POST" "/api/v1/reservations" "/api/v1/reservations"
      (dispatch server asked booked).0).status_code
    ≡ decimal (serve server asked booked).0.status
prometheus-serve_example =
    prometheus-serve server asked booked 200 "POST" "/api/v1/reservations" "/api/v1/reservations"

request_logger-serve_example :
    (((serve server asked booked).0.status ≡ success asked)
      × (request_logger 200 (dispatch server asked booked).0
          ≡ record { level = info; message = "request completed"; status = success asked }))
    ⊎ ((one_of (refusals asked) (serve server asked booked).0.status ≡ true)
        × (request_logger 200 (dispatch server asked booked).0
            ≡ record { level = error; message = "request failed"; status = 200 }))
request_logger-serve_example = request_logger-serve server asked booked 200

-- Two more seats of the event
abbrev seat_answer : String → String → WebSeats.SeatResponse
seat_answer id number = record {
  id = id;
  event_id = "1.0";
  seat_number = number;
  status = "available";
  price = pos 50;
  reserved_by = none;
}

abbrev more : WebSeats.CreateBulkSeatsRequest
more = record many { prefix = "B" }

seats_made :
    (WebSeats.create_bulk packages context (some more) booked).0
    ≡ returned (201, seat_answer "23.0" "B-1" ∷ seat_answer "23.1" "B-2" ∷ [])
unfolding Http.done Http.refuse Http.call Http.bind_or Http.◌>>=◌ Validator.validate
    WebSeats.create_bulk WebSeats.to_seat_response WebSeats.status_text pure raise lift map_error
    wrapping sample ◌>>=◌ time_now query exec_db Events.get_by_id Seats.create_bulk
    Seats.insert_seats Seats.insert_seat Seats.create_bulk_batch Seats.create_bulk_from
    create_bulk_seats new_seats seat_number decimal Seat.new_seat Seat.validate Events.to_entity
seats_made = refl

create_bulk-Made_example :
    (req : WebSeats.CreateBulkSeatsRequest) × (some more ≡ some req)
    × Made context req (seat_answer "23.0" "B-1" ∷ seat_answer "23.1" "B-2" ∷ [])
create_bulk-Made_example =
    create_bulk-Made packages context (some more) booked
      (seat_answer "23.0" "B-1" ∷ seat_answer "23.1" "B-2" ∷ []) packages-Validates seats_made
