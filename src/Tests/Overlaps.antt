-- ===== src/Tests/Overlaps.antt =====
-- Calls of the reservation service that overlap, at concrete inputs.
use go_event_ticket_reservat.Prelude.{
  String, ◌≡◌, ◌≢◌, refl, [], ◌∷◌, none, some, eq_iff, true, arith,
}
use go_event_ticket_reservat.Prelude.Int.{pos}
use go_event_ticket_reservat.Errors.{ok}
use go_event_ticket_reservat.Domain.Seat
use go_event_ticket_reservat.Domain.Reservation
use go_event_ticket_reservat.Domain.Reservation.{Reservation}
use go_event_ticket_reservat.World.Rows.{World}
use go_event_ticket_reservat.Booking.{Consistent, Books, Held}
use go_event_ticket_reservat.Prelude.Tables.{contains}
use go_event_ticket_reservat.Application.ReservationService.{store_confirmed}
use go_event_ticket_reservat.Application.ReservationService.Stale.{
  Reserved, store_confirmed-Doubles,
}
use go_event_ticket_reservat.Application.Interleaving.{
  creating, transact, System, begins_create, commits, Reach, here, next,
}
use go_event_ticket_reservat.Application.Interleaving.Safety.{Reach-Consistent}
use go_event_ticket_reservat.Tests

abbrev booked : World
booked = record Tests.start { db = Tests.booked_db; at = 40 }

-- A second reservation, of the seat that is free
abbrev fresh : Reservation
fresh = record {
  id = "";
  event_id = "1.0";
  user_id = "v";
  seat_ids = "5.1" ∷ [];
  status = Reservation.pending;
  idempotency_key = "l";
  expires_at = 900000034000;
  confirmed_at = none;
  total_amount = pos 50;
  created_at = 34000;
  updated_at = 34000;
}

abbrev idle : System
idle = record { db = Tests.booked_db; flights = [] }

-- The two are begun before either is stored.
abbrev both : System
both = record {
  db = Tests.booked_db;
  flights = creating (record fresh { idempotency_key = "m" }) ∷ creating fresh ∷ [];
}

abbrev after : System
after = record {
  db = (transact Tests.service (creating fresh) booked).db;
  flights = creating (record fresh { idempotency_key = "m" }) ∷ [];
}

overlap : Reach Tests.service idle after
overlap =
    next
      (next (next here (begins_create idle fresh refl))
        (begins_create _ (record fresh { idempotency_key = "m" }) refl))
      (commits both (creating (record fresh { idempotency_key = "m" }) ∷ []) [] (creating fresh)
        booked refl refl tt)

Reach-Consistent_example :
    Consistent after.db
    × ((r₁ r₂ sid : String) → Books after.db r₁ sid → Books after.db r₂ sid → r₁ ≡ r₂)
Reach-Consistent_example =
    Reach-Consistent Tests.service Tests.booked_db after Tests.booked-Consistent overlap

-- The first reservation as it was read before it was cancelled, and confirmed in memory
abbrev stale : Reservation
stale = record fresh {
  id = "14.0";
  user_id = "u";
  seat_ids = "5.0" ∷ [];
  status = Reservation.confirmed;
  idempotency_key = "k";
  expires_at = 900000012000;
  confirmed_at = some 40000;
  created_at = 12000;
  updated_at = 40000;
}

abbrev rebooked : World
rebooked = record Tests.start { db = Tests.rebooked_db; at = 42 }

rebooked-Books : Books Tests.rebooked_db "36.0" "5.0"
rebooked-Books = record {
  row = record Tests.booked_row {
    id = "36.0";
    user_id = "v";
    idempotency_key = "l";
    expires_at = 900000034000;
    created_at = 34000;
    updated_at = 34000;
  };
  status = Seat.reserved;
  is_linked = refl;
  found = refl;
  active = refl;
}

other : stale.id ≢ "36.0"
other e = let same = (eq_iff "14.0" "36.0").1 e in cc

stale_Reserved : (k : String) → contains ("5.0" ∷ []) k ≡ true → Reserved Tests.rebooked_db k
stale_Reserved k h =
    let same : k ≡ "5.0" = ground (arith, eq_iff k "5.0") in rw same (_, refl, refl)

store_confirmed-Doubles_example :
    ((store_confirmed stale rebooked).0 ≡ ok stale)
    × Books (store_confirmed stale rebooked).1.db "14.0" "5.0"
    × Books (store_confirmed stale rebooked).1.db "36.0" "5.0"
    × Held (store_confirmed stale rebooked).1.db "5.0" "36.0" Seat.confirmed
store_confirmed-Doubles_example =
    store_confirmed-Doubles stale rebooked "36.0" "5.0" (λ n. refl) Tests.rebooked-Consistent refl
      refl refl (refl, tt) stale_Reserved rebooked-Books other
