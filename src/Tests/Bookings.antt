-- ===== src/Tests/Bookings.antt =====
-- A request that can be granted and a reservation that can be confirmed, at concrete inputs.
use go_event_ticket_reservat.Prelude.{String, ◌≡◌, refl, sym, subst, [], ◌∷◌, true, eq_iff, arith}
use go_event_ticket_reservat.Errors.{ok}
use go_event_ticket_reservat.Domain.Reservation.{Reservation}
use go_event_ticket_reservat.Prelude.Tables.{contains}
use go_event_ticket_reservat.World.Rows.{World}
use go_event_ticket_reservat.Application.ReservationService.{
  CreateReservationInput, create_reservation,
}
use go_event_ticket_reservat.Application.ReservationService.Outcome.{New}
use go_event_ticket_reservat.Application.ReservationService.Bookable.{Bookable, FreeSeat}
use go_event_ticket_reservat.Application.ReservationService.Granted.{create_reservation-Succeeds}
use go_event_ticket_reservat.Application.ReservationService.{confirm_reservation}
use go_event_ticket_reservat.Application.ReservationService.Ended.{Finished}
use go_event_ticket_reservat.Application.ReservationService.Confirming.{
  Confirmable, confirm_reservation-Succeeds,
}
use go_event_ticket_reservat.Postgres.Seats.{can_confirm, confirmed_row}
use go_event_ticket_reservat.Postgres.Reservations.{links_of}
use go_event_ticket_reservat.Prelude.{length}
use go_event_ticket_reservat.Prelude.Tables.{count_where}
use go_event_ticket_reservat.Domain.Reservation.{confirmed}
use go_event_ticket_reservat.Application.ReservationService.{build_seat_lock_key}
use go_event_ticket_reservat.Application.ReservationService.LockKey.{build_seat_lock_key-Permᴰ}
use mathlib.Core.List.{Permᴰ}
use go_event_ticket_reservat.Tests

-- The clock stands before the event, and the next id is a new one.
abbrev offered : World
offered = record Tests.start {
  db = Tests.booked_db;
  env = record Tests.env { now = λ n. 40; uuid = λ n i. "new" };
}

-- The seat that is free
abbrev request : CreateReservationInput
request = record Tests.again { seat_ids = "5.1" ∷ [] }

free_seat :
    (sid : String) → contains request.seat_ids sid ≡ true → FreeSeat offered.db request.event_id sid
free_seat sid asked =
    subst (FreeSeat offered.db request.event_id)
      (sym ((eq_iff sid "5.1").0 (ground (arith, asked)))) (_, refl, refl, refl)

can_book : Bookable Tests.service request offered.env offered.db
can_book = record {
  has_event = refl;
  has_user = refl;
  has_key = refl;
  row = _;
  found = refl;
  is_open = λ n. refl;
  new_key = refl;
  new_id = λ n. refl;
  first = "5.1";
  rest = [];
  seat_ids = refl;
  distinct = (refl, tt);
  free = free_seat;
  granted = λ has n. refl;
}

create_reservation-Succeeds_example :
    (res : Reservation) × ((create_reservation Tests.service request offered).0 ≡ ok res)
    × New request offered.db res (create_reservation Tests.service request offered).1.db
create_reservation-Succeeds_example =
    create_reservation-Succeeds Tests.service request offered (λ n. refl) Tests.booked-Consistent
      can_book

can_confirm_booked : Confirmable "14.0" offered.env offered.db
can_confirm_booked = record {
  row = Tests.booked_row;
  found = refl;
  is_pending = refl;
  in_time = λ n. refl;
  distinct = (refl, tt);
}

confirm_reservation-Succeeds_example :
    (done : Reservation) × ((confirm_reservation "14.0" offered).0 ≡ ok done)
    × (done.status ≡ confirmed)
    × Finished "14.0" can_confirm confirmed_row offered.db done
        (confirm_reservation "14.0" offered).1.db
    × (count_where (can_confirm (links_of "14.0" offered.db.reservation_seats)) offered.db.seats
        ≡ length (links_of "14.0" offered.db.reservation_seats))
confirm_reservation-Succeeds_example =
    confirm_reservation-Succeeds "14.0" offered (λ n. refl) Tests.booked-Consistent
      can_confirm_booked

build_seat_lock_key-Permᴰ_example :
    build_seat_lock_key ("5.1" ∷ "5.0" ∷ []) ≡ build_seat_lock_key ("5.0" ∷ "5.1" ∷ [])
build_seat_lock_key-Permᴰ_example =
    build_seat_lock_key-Permᴰ ("5.1" ∷ "5.0" ∷ []) ("5.0" ∷ "5.1" ∷ []) (Permᴰ.swap refl refl)
