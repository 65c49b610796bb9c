-- ===== src/Tests/Outcomes.antt =====
-- The services at concrete inputs.
use go_event_ticket_reservat.Prelude.{◌≡◌, ◌≢◌, refl, [], ◌∷◌, none, eq_iff}
use go_event_ticket_reservat.Prelude.Int.{pos}
use go_event_ticket_reservat.Errors.{ok}
use go_event_ticket_reservat.Domain.Seat
use go_event_ticket_reservat.Domain.Reservation
use go_event_ticket_reservat.Domain.Reservation.{Reservation}
use go_event_ticket_reservat.World.Rows.{World}
use go_event_ticket_reservat.World.Logic.{Ends}
use go_event_ticket_reservat.World.Exec.{
  pure, lift, attempt, map_error, wrapping, deferred, ◌>>=◌, require, exec_tx, send, count,
}
use go_event_ticket_reservat.Postgres.Tx.{begin, commit, rollback, unwrap_tx}
use go_event_ticket_reservat.Postgres.Seats
use go_event_ticket_reservat.Postgres.Seats.{released_row}
use go_event_ticket_reservat.Postgres.Reservations
use go_event_ticket_reservat.Redis.Cache
use go_event_ticket_reservat.Booking.{Books}
use go_event_ticket_reservat.Application.ReservationService.{
  create_reservation, cancel_reservation, store_cancelled, invalidate_seat_cache,
}
use go_event_ticket_reservat.Application.ReservationService.Outcome.{
  Outcome, create_reservation-Outcome,
}
use go_event_ticket_reservat.Application.ReservationService.Ended.{
  Finished, names, cancel_reservation-Outcome,
}
use go_event_ticket_reservat.Application.ReservationService.Progress.{cancel_reservation-Succeeds}
use go_event_ticket_reservat.Application.ReservationService.Stale.{Freed, store_cancelled-Freed}
use go_event_ticket_reservat.Prelude.Tables.{count_where}
use go_event_ticket_reservat.Postgres.Reservations.{is_old_pending}
use go_event_ticket_reservat.Application.Cleaner.{ExpiredReservationCleaner, cleanup}
use go_event_ticket_reservat.Application.Cleaner.Progress.{Settled, cutoff_at, cleanup-Progress}
use go_event_ticket_reservat.Application.ReservationService.{cancel_expired_reservations}
use go_event_ticket_reservat.Tests

abbrev booked : World
booked = record Tests.start { db = Tests.booked_db; at = 20 }

create_reservation-Outcome_example :
    Ends
      (create_reservation Tests.service Tests.booking booked).0
      (create_reservation Tests.service Tests.booking booked).1
      (λ res w'. Outcome Tests.booking booked.db res w'.db)
      (λ w'. w'.db ≡ booked.db)
create_reservation-Outcome_example = create_reservation-Outcome Tests.booking Tests.service booked

cancel_reservation-Outcome_example :
    Ends
      (cancel_reservation Tests.service "14.0" booked).0
      (cancel_reservation Tests.service "14.0" booked).1
      (λ res w'.
        (res.status ≡ Reservation.cancelled)
        × Finished "14.0" names released_row booked.db res w'.db)
      (λ w'. w'.db ≡ booked.db)
cancel_reservation-Outcome_example = cancel_reservation-Outcome Tests.service "14.0" booked

-- The first reservation as it was read before it was cancelled, and cancelled in memory
abbrev stale : Reservation
stale = record {
  id = "14.0";
  event_id = "1.0";
  user_id = "u";
  seat_ids = "5.0" ∷ [];
  status = Reservation.cancelled;
  idempotency_key = "k";
  expires_at = 900000012000;
  confirmed_at = none;
  total_amount = pos 50;
  created_at = 12000;
  updated_at = 40000;
}

abbrev rebooked : World
rebooked = record Tests.start { db = Tests.rebooked_db; at = 42 }

rebooked-Books : Books Tests.rebooked_db "36.0" "5.0"
rebooked-Books = record {
  row = record Tests.booked_row {
    id = "36.0";
    user_id = "v";
    idempotency_key = "l";
    expires_at = 900000034000;
    created_at = 34000;
    updated_at = 34000;
  };
  status = Seat.reserved;
  is_linked = refl;
  found = refl;
  active = refl;
}

other : stale.id ≢ "36.0"
other e = let same = (eq_iff "14.0" "36.0").1 e in cc

stale_runs : (store_cancelled Tests.service stale rebooked).0 ≡ ok stale
unfolding store_cancelled pure attempt lift wrapping map_error deferred ◌>>=◌ require exec_tx send
    count begin commit rollback unwrap_tx Seats.release_seats Reservations.update Cache.invalidate
    invalidate_seat_cache
stale_runs = refl

store_cancelled-Freed_example :
    Books (store_cancelled Tests.service stale rebooked).1.db "36.0" "5.0"
    × Freed (store_cancelled Tests.service stale rebooked).1.db "5.0"
store_cancelled-Freed_example =
    store_cancelled-Freed Tests.service stale stale rebooked "36.0" "5.0" Tests.rebooked-Consistent
      rebooked-Books other refl stale_runs

cancel_reservation-Succeeds_example :
    (done : Reservation) × ((cancel_reservation Tests.service "14.0" booked).0 ≡ ok done)
    × (done.status ≡ Reservation.cancelled)
    × Finished "14.0" names released_row booked.db done
        (cancel_reservation Tests.service "14.0" booked).1.db
cancel_reservation-Succeeds_example =
    cancel_reservation-Succeeds Tests.service "14.0" booked Tests.booked_row (λ n. refl) refl refl

abbrev cleaner : ExpiredReservationCleaner
cleaner = record { interval = 60; expire_after = 5000 }

cleanup-Progress_example :
    ((cancel_expired_reservations 5000 booked).0
      ≡ ok (count_where (is_old_pending (cutoff_at 5000 booked)) booked.db.reservations))
    × (count_where (is_old_pending (cutoff_at 5000 booked)) (cleanup cleaner booked).db.reservations
        ≡ 0)
    × Settled (cutoff_at 5000 booked) booked.db (cleanup cleaner booked).db
cleanup-Progress_example = cleanup-Progress cleaner booked (λ n. refl) Tests.booked-Consistent
