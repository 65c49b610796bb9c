-- ===== src/Booking.antt =====
-- What the booking tables promise. An active reservation is one that is pending or confirmed; it
-- holds its seats.
pub mod Effects
pub mod Moves
pub mod Reserve
pub mod Finish
pub mod Catalogue
pub mod Pending
pub mod Named
use go_event_ticket_reservat.Prelude.{
  ℕ, ◌≤◌, String, ◌≡◌, ◌≢◌, sym, ap, ◌∙◌, inl, inr, Bool, true, false, Option, none, some, List, [],
  ◌∷◌, arith, eq_iff, is_some, ◌==◌, ◌||◌, ◌&&◌, Bool-cases,
}
use go_event_ticket_reservat.Prelude.Tables.{find_where, count_where, contains}
use go_event_ticket_reservat.Domain.Seat
use go_event_ticket_reservat.Domain.Seat.{Seat}
use go_event_ticket_reservat.Domain.Reservation.{Status, pending, confirmed, cancelled}
use go_event_ticket_reservat.World.Rows.{Db, ReservationRow}
use go_event_ticket_reservat.Postgres.Seats.{has_id}
use go_event_ticket_reservat.Postgres.Reservations.{row_has_id, row_has_key, is_link, links_of}

abbrev pub seat_at : Db → String → Option Seat
seat_at d sid = find_where (has_id sid) d.seats

abbrev pub reservation_at : Db → String → Option ReservationRow
reservation_at d rid = find_where (row_has_id rid) d.reservations

abbrev pub linked : Db → String → String → Bool
linked d rid sid = is_some (find_where (is_link rid sid) d.reservation_seats)

-- The status of the seats of a reservation, if it is active.
abbrev pub held_status : Status → Option Seat.Status
held_status pending = some Seat.reserved
held_status confirmed = some Seat.confirmed
held_status cancelled = none

abbrev pub Held : Db → String → String → Seat.Status → Type 0
Held d sid rid st =
    (s : Seat) × (seat_at d sid ≡ some s) × (s.status ≡ st) × (s.reserved_by ≡ some rid)

pub record Consistent (d : Db) : Type 0 where
  pub seats_unique : (k : String) → count_where (has_id k) d.seats ≤ 1
  pub rows_unique : (k : String) → count_where (row_has_id k) d.reservations ≤ 1
  pub keys_unique : (k : String) → count_where (row_has_key k) d.reservations ≤ 1
  pub links_known :
      (rid sid : String) → linked d rid sid ≡ true → is_some (reservation_at d rid) ≡ true
  pub held :
      (rid sid : String) (r : ReservationRow) (st : Seat.Status)
      → linked d rid sid ≡ true
      → reservation_at d rid ≡ some r
      → held_status r.status ≡ some st
      → Held d sid rid st

-- An active reservation and a seat of it.
pub record Books (d : Db) (rid sid : String) : Type 0 where
  pub row : ReservationRow
  pub status : Seat.Status
  pub is_linked : linked d rid sid ≡ true
  pub found : reservation_at d rid ≡ some row
  pub active : held_status row.status ≡ some status

pub Books-Held :
    {d : Db} {rid sid : String} → Consistent d → (b : Books d rid sid) → Held d sid rid b.status
Books-Held {d} {rid} {sid} c b = c.held rid sid b.row b.status b.is_linked b.found b.active

-- In a consistent database no seat belongs to two active reservations.
pub no_double_booking :
    (d : Db) (r₁ r₂ sid : String) → Consistent d → Books d r₁ sid → Books d r₂ sid → r₁ ≡ r₂
no_double_booking d r₁ r₂ sid c b₁ b₂ =
    let (s, at₁, _, by₁) = Books-Held c b₁ in
    let (t, at₂, _, by₂) = Books-Held c b₂ in cc (at₁, at₂, by₁, by₂)

-- The seats that are read for a reservation are those that are linked to it.
pub contains-links_of :
    (rid sid : String) (ls : List (String × String))
    → contains (links_of rid ls) sid ≡ is_some (find_where (is_link rid sid) ls)
contains-links_of rid sid [] = ground arith
contains-links_of rid sid ((r, s) ∷ ls) =
    ground (arith, contains-links_of rid sid ls, eq_iff sid s, eq_iff s sid)
