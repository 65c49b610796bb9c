-- ===== src/Tests.antt =====
-- Runs at concrete inputs: an event with two seats, a reservation of one of them, its confirmation.
mod Bookings
mod Counts
mod Locks
mod Outcomes
mod Overlaps
mod Parts
mod Repeats
mod Settings
mod Startup
mod Web
use go_event_ticket_reservat.Prelude.{
  ◌*◌, ◌^◌, ◌++◌, subst, sym, String, ◌≡◌, refl, List, [], ◌∷◌, true, false, some, none,
}
use go_event_ticket_reservat.Prelude.Int.{pos, ◌+ℤ◌}
use go_event_ticket_reservat.Prelude.Text.{text_append, decimal, text_leb, sort_strings, join}
use go_event_ticket_reservat.Prelude.Tables.{sort_by}
use go_event_ticket_reservat.Domain.Seat
use go_event_ticket_reservat.Domain.Reservation
use go_event_ticket_reservat.Domain.Event
use go_event_ticket_reservat.Errors.{is_reservation_not_found, is_no_rows, is_lock_not_acquired}
use go_event_ticket_reservat.World.Rows.{Db, Env, World, ReservationRow}
use go_event_ticket_reservat.World.Exec.{
  pure, raise, lift, attempt, map_error, wrapping, deferred, sample, ◌>>=◌, time_now, require,
  query, exec_db, exec_tx, send, count,
}
use go_event_ticket_reservat.Postgres.Tx.{begin, commit, rollback, unwrap_tx}
use go_event_ticket_reservat.Postgres.Events
use go_event_ticket_reservat.Postgres.Seats
use go_event_ticket_reservat.Postgres.Reservations
use go_event_ticket_reservat.Redis.Cache
use go_event_ticket_reservat.Redis.Lock.{
  acquire_lock, acquire_rounds, acquire_lock_with_retry, release,
}
use go_event_ticket_reservat.Booking.{Consistent, Books}
use go_event_ticket_reservat.Application.ReservationService.{
  ReservationService, CreateReservationInput, create_reservation, create_new, create_checked,
  unless_existing, with_lock, store_reservation, check_seats, build_seat_lock_key,
  invalidate_seat_cache, cancel_reservation, store_cancelled,
}
use go_event_ticket_reservat.Application.EventService.{create_event}
use go_event_ticket_reservat.Application.SeatService.{create_bulk_seats, new_seats, seat_number}
use go_event_ticket_reservat.Application.History.{
  Call, run, run-Consistent, run-no_double_booking, empty_db, Consistent-empty,
}

abbrev env : Env
env = record {
  now = λ n. n * 10 ^ 3;
  db_now = λ n. n * 10 ^ 3;
  fails = λ n. false;
  uuid = λ n i. text_append (decimal n) (text_append "." (decimal i));
  collate = text_leb;
  reply_set_nx = λ n. some true;
  reply_get = λ n. some none;
  reply_eval = λ n. some (pos 1);
  reply_ack = λ n. true;
  cancelled = λ n. false;
}

abbrev start : World
start = record { env = env; at = 0; db = empty_db; tx = none; sent = []; metrics = none }

abbrev service : ReservationService
service = record { lock_manager = true; seat_cache = true }

abbrev booking : CreateReservationInput
booking = record { event_id = "1.0"; user_id = "u"; seat_ids = "5.0" ∷ []; idempotency_key = "k" }

abbrev again : CreateReservationInput
again = record { event_id = "1.0"; user_id = "v"; seat_ids = "5.0" ∷ []; idempotency_key = "l" }

abbrev calls : List Call
calls =
    Call.adds_event (record {
      name = "live";
      description = "";
      venue = "hall";
      start_at = 1000000;
      end_at = 2000000;
      total_seats = pos 2;
    })
    ∷ Call.adds_seats (record { event_id = "1.0"; prefix = "A"; count = pos 2; price = pos 50 })
    ∷ Call.creates booking
    ∷ []

abbrev booked_id : String
booked_id = "14.0"

abbrev booked_row : ReservationRow
booked_row = record {
  id = "14.0";
  event_id = "1.0";
  user_id = "u";
  status = Reservation.pending;
  idempotency_key = "k";
  total_amount = pos 50;
  expires_at = 900000012000;
  confirmed_at = none;
  created_at = 12000;
  updated_at = 12000;
}

abbrev booked_db : Db
booked_db = record {
  events =
      record {
        id = "1.0";
        name = "live";
        description = none;
        venue = some "hall";
        start_at = 1000000;
        end_at = 2000000;
        total_seats = pos 2;
        created_at = 0;
        updated_at = 0;
        version = 0;
      }
      ∷ [];
  seats =
      record {
        id = "5.0";
        event_id = "1.0";
        seat_number = "A-1";
        status = Seat.reserved;
        price = pos 50;
        reserved_by = some "14.0";
        reserved_at = some 16000;
        created_at = 3000;
        updated_at = 16000;
        version = 1;
      }
      ∷ record {
        id = "5.1";
        event_id = "1.0";
        seat_number = "A-2";
        status = Seat.available;
        price = pos 50;
        reserved_by = none;
        reserved_at = none;
        created_at = 4000;
        updated_at = 4000;
        version = 0;
      }
      ∷ [];
  reservations = booked_row ∷ [];
  reservation_seats = ("14.0", "5.0") ∷ [];
}

run-booked_db : (run service calls start).db ≡ booked_db
unfolding run pure raise lift attempt map_error wrapping deferred sample ◌>>=◌ time_now require
    query exec_db exec_tx send count begin commit rollback unwrap_tx Events.create Events.get_by_id
    Events.insert_event Seats.create_bulk Seats.insert_seats Seats.insert_seat
    Seats.create_bulk_batch Seats.create_bulk_from Seats.get_by_event_id Seats.reserve_seats
    Reservations.create Reservations.insert_reservation Reservations.insert_links
    Reservations.insert_link Reservations.get_by_idempotency_key Reservations.get_seat_ids
    acquire_lock acquire_rounds acquire_lock_with_retry release Cache.invalidate
    invalidate_seat_cache create_reservation create_new create_checked unless_existing with_lock
    store_reservation check_seats build_seat_lock_key create_event create_bulk_seats new_seats
    seat_number decimal sort_by sort_strings join Seat.new_seat Seat.validate Event.new_event
    Event.validate Event.is_booking_open Reservation.new_reservation Reservation.validate
    is_reservation_not_found is_no_rows is_lock_not_acquired Events.to_entity ◌+ℤ◌
run-booked_db = refl

booked-Books : Books (run service calls start).db "14.0" "5.0"
booked-Books =
    subst (λ d. Books d "14.0" "5.0") (sym run-booked_db)
      (record {
        row = booked_row;
        status = Seat.reserved;
        is_linked = refl;
        found = refl;
        active = refl;
      })

run-Consistent_example : Consistent (run service calls start).db
run-Consistent_example = run-Consistent service calls start Consistent-empty

run-no_double_booking_example : booked_id ≡ booked_id
run-no_double_booking_example =
    run-no_double_booking service calls start booked_id booked_id "5.0" refl booked-Books
      booked-Books

-- After that a cancellation of the reservation and another of the same seat
abbrev more_calls : List Call
more_calls = calls ++ Call.cancels "14.0" ∷ Call.creates again ∷ []

abbrev rebooked_db : Db
rebooked_db = record booked_db {
  seats =
      record {
        id = "5.0";
        event_id = "1.0";
        seat_number = "A-1";
        status = Seat.reserved;
        price = pos 50;
        reserved_by = some "36.0";
        reserved_at = some 38000;
        created_at = 3000;
        updated_at = 38000;
        version = 3;
      }
      ∷ record {
        id = "5.1";
        event_id = "1.0";
        seat_number = "A-2";
        status = Seat.available;
        price = pos 50;
        reserved_by = none;
        reserved_at = none;
        created_at = 4000;
        updated_at = 4000;
        version = 0;
      }
      ∷ [];
  reservations =
      record booked_row { status = Reservation.cancelled; updated_at = 22000 }
      ∷ record booked_row {
        id = "36.0";
        user_id = "v";
        idempotency_key = "l";
        expires_at = 900000034000;
        created_at = 34000;
        updated_at = 34000;
      }
      ∷ [];
  reservation_seats = ("14.0", "5.0") ∷ ("36.0", "5.0") ∷ [];
}

run-rebooked_db : (run service more_calls start).db ≡ rebooked_db
unfolding run pure raise lift attempt map_error wrapping deferred sample ◌>>=◌ time_now require
    query exec_db exec_tx send count begin commit rollback unwrap_tx Events.create Events.get_by_id
    Events.insert_event Seats.create_bulk Seats.insert_seats Seats.insert_seat
    Seats.create_bulk_batch Seats.create_bulk_from Seats.get_by_event_id Seats.reserve_seats
    Reservations.create Reservations.insert_reservation Reservations.insert_links
    Reservations.insert_link Reservations.get_by_idempotency_key Reservations.get_seat_ids
    acquire_lock acquire_rounds acquire_lock_with_retry release Cache.invalidate
    invalidate_seat_cache create_reservation create_new create_checked unless_existing with_lock
    store_reservation check_seats build_seat_lock_key create_event create_bulk_seats new_seats
    seat_number decimal sort_by sort_strings join Seat.new_seat Seat.validate Event.new_event
    Event.validate Event.is_booking_open Reservation.new_reservation Reservation.validate
    is_reservation_not_found is_no_rows is_lock_not_acquired Events.to_entity ◌+ℤ◌
    cancel_reservation store_cancelled Seats.release_seats Reservations.update
    Reservations.get_by_id Reservations.to_entity Reservation.cancel
run-rebooked_db = refl

rebooked-Consistent : Consistent rebooked_db
rebooked-Consistent =
    subst Consistent run-rebooked_db (run-Consistent service more_calls start Consistent-empty)

booked-Consistent : Consistent booked_db
booked-Consistent =
    subst Consistent run-booked_db (run-Consistent service calls start Consistent-empty)
