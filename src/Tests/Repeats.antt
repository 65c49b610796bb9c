-- ===== src/Tests/Repeats.antt =====
-- A request of CreateReservation that is sent again, at a concrete input.
use go_event_ticket_reservat.Prelude.{◌≡◌, refl, List, [], ◌∷◌, none}
use go_event_ticket_reservat.Prelude.Int.{pos, ◌+ℤ◌}
use go_event_ticket_reservat.Prelude.Text.{decimal, sort_strings, join}
use go_event_ticket_reservat.Prelude.Tables.{sort_by}
use go_event_ticket_reservat.Domain.Seat
use go_event_ticket_reservat.Domain.Seat.{Seat}
use go_event_ticket_reservat.Domain.Reservation
use go_event_ticket_reservat.Domain.Reservation.{Reservation}
use go_event_ticket_reservat.Domain.Event
use go_event_ticket_reservat.Errors.{ok, is_reservation_not_found, is_no_rows, is_lock_not_acquired}
use go_event_ticket_reservat.World.Rows.{World}
use go_event_ticket_reservat.World.Exec.{
  pure, raise, lift, attempt, map_error, wrapping, deferred, sample, ◌>>=◌, time_now, require,
  query, exec_db, exec_tx, send, count,
}
use go_event_ticket_reservat.Postgres.Tx.{begin, commit, rollback, unwrap_tx}
use go_event_ticket_reservat.Postgres.Events
use go_event_ticket_reservat.Postgres.Seats
use go_event_ticket_reservat.Postgres.Reservations
use go_event_ticket_reservat.Redis.Cache
use go_event_ticket_reservat.Redis.Lock.{
  acquire_lock, acquire_rounds, acquire_lock_with_retry, release,
}
use go_event_ticket_reservat.Application.ReservationService.{
  create_reservation, create_new, create_checked, unless_existing, with_lock, store_reservation,
  check_seats, build_seat_lock_key, invalidate_seat_cache,
}
use go_event_ticket_reservat.Application.ReservationService.Again.{Same, create_reservation-Again}
use go_event_ticket_reservat.Application.EventService.{create_event}
use go_event_ticket_reservat.Application.SeatService.{create_bulk_seats, new_seats, seat_number}
use go_event_ticket_reservat.Application.History.{Call, run, run-Consistent, Consistent-empty}
use go_event_ticket_reservat.Tests

-- The event and its seats, before the reservation
abbrev adding : List Call
adding =
    Call.adds_event (record {
      name = "live";
      description = "";
      venue = "hall";
      start_at = 1000000;
      end_at = 2000000;
      total_seats = pos 2;
    })
    ∷ Call.adds_seats (record { event_id = "1.0"; prefix = "A"; count = pos 2; price = pos 50 })
    ∷ []

abbrev offered : World
offered = run Tests.service adding Tests.start

abbrev made : Reservation
made = record {
  id = "14.0";
  event_id = "1.0";
  user_id = "u";
  seat_ids = "5.0" ∷ [];
  status = Reservation.pending;
  idempotency_key = "k";
  expires_at = 900000012000;
  confirmed_at = none;
  total_amount = pos 50;
  created_at = 12000;
  updated_at = 12000;
}

runs_once : (create_reservation Tests.service Tests.booking offered).0 ≡ ok made
unfolding run pure raise lift attempt map_error wrapping deferred sample ◌>>=◌ time_now require
    query exec_db exec_tx send count begin commit rollback unwrap_tx Events.create Events.get_by_id
    Events.insert_event Seats.create_bulk Seats.insert_seats Seats.insert_seat
    Seats.create_bulk_batch Seats.create_bulk_from Seats.get_by_event_id Seats.reserve_seats
    Reservations.create Reservations.insert_reservation Reservations.insert_links
    Reservations.insert_link Reservations.get_by_idempotency_key Reservations.get_seat_ids
    acquire_lock acquire_rounds acquire_lock_with_retry release Cache.invalidate
    invalidate_seat_cache create_reservation create_new create_checked unless_existing with_lock
    store_reservation check_seats build_seat_lock_key create_event create_bulk_seats new_seats
    seat_number decimal sort_by sort_strings join Seat.new_seat Seat.validate Event.new_event
    Event.validate Event.is_booking_open Reservation.new_reservation Reservation.validate
    is_reservation_not_found is_no_rows is_lock_not_acquired Events.to_entity ◌+ℤ◌
runs_once = refl

abbrev later : World
later = record Tests.start {
  db = (create_reservation Tests.service Tests.booking offered).1.db;
  at = 20;
}

create_reservation-Again_example :
    ((out : Reservation) × ((create_reservation Tests.service
          (record Tests.again { idempotency_key = "k" })
          later).0
        ≡ ok out)
      × Same made out)
    × ((create_reservation Tests.service (record Tests.again { idempotency_key = "k" }) later).1.db
        ≡ later.db)
create_reservation-Again_example =
    create_reservation-Again Tests.service Tests.booking
      (record Tests.again { idempotency_key = "k" }) offered later made
      (run-Consistent Tests.service adding Tests.start Consistent-empty) runs_once refl refl
      (λ n. refl)
