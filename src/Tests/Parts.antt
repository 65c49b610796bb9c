-- ===== src/Tests/Parts.antt =====
-- The parts at concrete inputs.
use go_event_ticket_reservat.Prelude.{
  ◌*◌, ◌^◌, arith, ◌≤◌, ◌+◌, ◌<◌, ◌≡◌, refl, List, [], ◌∷◌, some, none, true, length, map, inl, ◌⊎◌,
}
use go_event_ticket_reservat.Prelude.Int.{pos, negsuc, leb_ℤ}
use go_event_ticket_reservat.Prelude.Tables.{count_where}
use go_event_ticket_reservat.Prelude.Text.{decimal}
use go_event_ticket_reservat.Errors.{Error, ok, err, reservation, reservation_expired}
use go_event_ticket_reservat.Domain.Event.{Event}
use go_event_ticket_reservat.Domain.Seat
use go_event_ticket_reservat.Domain.Seat.{Seat}
use go_event_ticket_reservat.Domain.Reservation
use go_event_ticket_reservat.Domain.Reservation.{Reservation, new_reservation}
use go_event_ticket_reservat.Domain.Reservation.Final.{
  Final, confirm-cancel-Final, new_reservation-Open,
}
use go_event_ticket_reservat.World.Rows.{World}
use go_event_ticket_reservat.World.Logic.{Ends}
use go_event_ticket_reservat.World.Exec.{
  pure, map_error, wrapping, sample, ◌>>=◌, time_now, require, exec_db, raise,
}
use go_event_ticket_reservat.Postgres.Events
use go_event_ticket_reservat.Postgres.Events.Version.{update-Once}
use go_event_ticket_reservat.Postgres.Seats
use go_event_ticket_reservat.Postgres.Seats.Bulk.{given, create_bulk-given}
use go_event_ticket_reservat.Postgres.Seats.Rounds.{create_bulk-Enough}
use go_event_ticket_reservat.Postgres.Seats.Entity.{moved, allowed, updates-Entity}
use go_event_ticket_reservat.Redis.Lock.{acquire_lock_with_retry}
use go_event_ticket_reservat.Redis.Lock.Rounds.{Set, acquire_lock_with_retry-Tried}
use go_event_ticket_reservat.Application.EventService.{clamp_limit, clamp_offset, list_events}
use go_event_ticket_reservat.Application.EventService.Page.{list_events-Page}
use go_event_ticket_reservat.Tests

abbrev booked : World
booked = record Tests.start { db = Tests.booked_db; at = 20 }

-- The seat that is reserved is named, and the free one.
updates-Entity_example :
    (Seats.update_reserved ("5.0" ∷ "5.1" ∷ []) "r" (λ n. "") 9 Tests.booked_db
      ≡ ok (
        count_where (allowed (Seat.reserve 9 "r") ("5.0" ∷ "5.1" ∷ [])) Tests.booked_db.seats,
        record Tests.booked_db {
          seats = map (moved (Seat.reserve 9 "r") ("5.0" ∷ "5.1" ∷ [])) Tests.booked_db.seats;
        },
      ))
    × (Seats.update_confirmed ("5.0" ∷ "5.1" ∷ []) (λ n. "") 9 Tests.booked_db
        ≡ ok (
          count_where (allowed (Seat.confirm 9) ("5.0" ∷ "5.1" ∷ [])) Tests.booked_db.seats,
          record Tests.booked_db {
            seats = map (moved (Seat.confirm 9) ("5.0" ∷ "5.1" ∷ [])) Tests.booked_db.seats;
          },
        ))
    × (Seats.update_released ("5.0" ∷ "5.1" ∷ []) (λ n. "") 9 Tests.booked_db
        ≡ ok (
          tt,
          record Tests.booked_db {
            seats =
                map (moved (λ s. ok (Seat.release 9 s)) ("5.0" ∷ "5.1" ∷ [])) Tests.booked_db.seats;
          },
        ))
updates-Entity_example = updates-Entity ("5.0" ∷ "5.1" ∷ []) "r" (λ n. "") 9 Tests.booked_db

abbrev asked : Reservation
asked = record {
  id = "a";
  event_id = "e";
  user_id = "u";
  seat_ids = "s" ∷ [];
  status = Reservation.pending;
  idempotency_key = "k";
  expires_at = 9;
  confirmed_at = none;
  total_amount = pos 50;
  created_at = 1;
  updated_at = 1;
}

abbrev agreed : Reservation
agreed = record asked { status = Reservation.confirmed; confirmed_at = some 6; updated_at = 6 }

agrees : Reservation.confirm 5 6 asked ≡ ok agreed
unfolding Reservation.confirm Reservation.is_expired
agrees = refl

confirm-cancel-Final_example : Final agreed
confirm-cancel-Final_example = confirm-cancel-Final 5 6 asked agreed (inl agrees)

new_reservation-Open_example :
    let r = new_reservation 1 "e" "u" "k" ("s" ∷ []) (pos 50) in
    ((2 ≤ 1 + 15 * 60 * 10 ^ 9)
        × (Reservation.confirm 2 3 r
            ≡ ok (record r {
              status = Reservation.confirmed;
              confirmed_at = some 3;
              updated_at = 3;
            }))
      ⊎ (1 + 15 * 60 * 10 ^ 9 < 2)
        × (Reservation.confirm 2 3 r ≡ err (reservation reservation_expired)))
    × (Reservation.cancel 3 r ≡ ok (record r { status = Reservation.cancelled; updated_at = 3 }))
new_reservation-Open_example = new_reservation-Open 1 2 3 "e" "u" "k" ("s" ∷ []) (pos 50)

abbrev live : Event
live = record {
  id = "1.0";
  name = "live";
  description = "";
  venue = "park";
  start_at = 1000400;
  end_at = 2000500;
  total_seats = pos 2;
  created_at = 0;
  updated_at = 0;
  version = 0;
}

updates : (Events.update live booked).0 ≡ ok (record live { version = 1 })
unfolding Events.update ◌>>=◌ wrapping map_error exec_db require pure raise time_now sample
updates = refl

abbrev late : Event
late = record live { name = "late" }

update-Once_example :
    ((x : Error) × ((Events.update late (Events.update live booked).1).0 ≡ err x))
    × ((Events.update late (Events.update live booked).1).1.db ≡ (Events.update live booked).1.db)
update-Once_example = update-Once live late (record live { version = 1 }) booked refl refl updates

list_events-Page_example :
    (leb_ℤ (pos 1) (clamp_limit (pos 500)) ≡ true)
    × (leb_ℤ (clamp_limit (pos 500)) (pos 100) ≡ true)
    × (leb_ℤ (pos 0) (clamp_offset (negsuc 0)) ≡ true)
    × ((es : List Event) × ((list_events (pos 500) (negsuc 0) booked).0 ≡ ok es)
        × (length es ≤ 100))
list_events-Page_example = list_events-Page (pos 500) (negsuc 0) booked refl

acquire_lock_with_retry-Tried_example :
    Ends
      (acquire_lock_with_retry "seats:a" 10 3 booked).0
      (acquire_lock_with_retry "seats:a" 10 3 booked).1
      (λ lock w'. Set "seats:a" 10 lock w' × (length w'.sent ≤ 3 + length booked.sent))
      (λ w'. length w'.sent ≤ 3 + length booked.sent)
acquire_lock_with_retry-Tried_example = acquire_lock_with_retry-Tried "seats:a" 10 3 booked

abbrev one_seat : Seat
one_seat = record {
  id = "";
  event_id = "1.0";
  seat_number = "B-1";
  status = Seat.available;
  price = pos 7;
  reserved_by = none;
  reserved_at = none;
  created_at = 1;
  updated_at = 1;
  version = 0;
}

abbrev two_seats : List Seat
two_seats = one_seat ∷ record one_seat { seat_number = "B-2" } ∷ []

abbrev stored_seats : List Seat
stored_seats =
    record one_seat { id = "20.0" } ∷ record one_seat { id = "20.1"; seat_number = "B-2" } ∷ []

stores : (Seats.create_bulk two_seats booked).0 ≡ ok stored_seats
unfolding Seats.create_bulk Seats.create_bulk_from Seats.create_bulk_batch Seats.insert_seats
    Seats.insert_seat ◌>>=◌ wrapping map_error exec_db pure decimal
stores = refl

create_bulk-given_example : given stored_seats ≡ given two_seats
create_bulk-given_example = create_bulk-given two_seats stored_seats booked stores

create_bulk-Enough_example : Seats.create_bulk_from 5 0 two_seats ≡ Seats.create_bulk two_seats
create_bulk-Enough_example = create_bulk-Enough 5 two_seats (omega arith)
