-- ===== src/Domain/Seat.antt =====
-- internal/domain/seat/entity.go
use go_event_ticket_reservat.Prelude.{
  ℕ, String, Bool, true, false, Option, none, some, ◌==◌, if◌then◌else◌,
}
use go_event_ticket_reservat.Prelude.Int.{ℤ, pos, ltb_ℤ}
use go_event_ticket_reservat.Errors.{
  SeatError, Result, ok, err, seat, seat_not_available, seat_not_reserved, seat_number_required,
  invalid_price,
}

pub data Status : Type 0 where
  available reserved confirmed : Status

-- s == t on the constants of `Status`
abbrev pub status_beq : Status → Status → Bool
status_beq available available = true
status_beq reserved reserved = true
status_beq confirmed confirmed = true
status_beq _ _ = false

pub record Seat : Type 0 where
  pub id : String
  pub event_id : String
  pub seat_number : String
  pub status : Status
  pub price : ℤ
  pub reserved_by : Option String
  pub reserved_at : Option ℕ
  pub created_at : ℕ
  pub updated_at : ℕ
  pub version : ℕ

unfoldable pub new_seat : ℕ → String → String → ℤ → Seat
new_seat now event_id seat_number price = record {
  id = "";
  event_id = event_id;
  seat_number = seat_number;
  status = available;
  price = price;
  reserved_by = none;
  reserved_at = none;
  created_at = now;
  updated_at = now;
  version = 0;
}

abbrev pub is_available : Seat → Bool
is_available s = status_beq s.status available

unfoldable pub reserve : ℕ → String → Seat → Result Seat
reserve now reservation_id s =
    if status_beq s.status available
    then ok (record s {
      status = reserved;
      reserved_by = some reservation_id;
      reserved_at = some now;
      updated_at = now;
    })
    else err (seat seat_not_available)

unfoldable pub confirm : ℕ → Seat → Result Seat
confirm now s =
    if status_beq s.status reserved
    then ok (record s { status = confirmed; updated_at = now })
    else err (seat seat_not_reserved)

unfoldable pub release : ℕ → Seat → Seat
release now s = record s {
  status = available;
  reserved_by = none;
  reserved_at = none;
  updated_at = now;
}

-- Validate
unfoldable pub validate : Seat → Result (Unit {0})
validate s =
    if s.event_id == ""
    then err (seat SeatError.event_id_required)
    else if s.seat_number == ""
    then err (seat seat_number_required)
    else if ltb_ℤ s.price (pos 0)
    then err (seat invalid_price)
    else ok tt
