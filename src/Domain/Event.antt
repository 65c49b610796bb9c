-- ===== src/Domain/Event.antt =====
-- internal/domain/event/entity.go
use go_event_ticket_reservat.Prelude.{ℕ, String, Bool, ltb, ◌==◌, if◌then◌else◌}
use go_event_ticket_reservat.Prelude.Int.{ℤ, pos, leb_ℤ}
use go_event_ticket_reservat.Errors.{
  Result, ok, err, event, event_name_required, invalid_total_seats, invalid_event_time,
}

pub record Event : Type 0 where
  pub id : String
  pub name : String
  pub description : String
  pub venue : String
  pub start_at : ℕ
  pub end_at : ℕ
  pub total_seats : ℤ
  pub created_at : ℕ
  pub updated_at : ℕ
  pub version : ℕ

unfoldable pub new_event : ℕ → String → String → String → ℕ → ℕ → ℤ → Event
new_event now name description venue start_at end_at total_seats = record {
  id = "";
  name = name;
  description = description;
  venue = venue;
  start_at = start_at;
  end_at = end_at;
  total_seats = total_seats;
  created_at = now;
  updated_at = now;
  version = 0;
}

-- Validate
unfoldable pub validate : Event → Result (Unit {0})
validate e =
    if e.name == ""
    then err (event event_name_required)
    else if leb_ℤ e.total_seats (pos 0)
    then err (event invalid_total_seats)
    else if ltb e.end_at e.start_at
    then err (event invalid_event_time)
    else ok tt

unfoldable pub is_booking_open : ℕ → Event → Bool
is_booking_open now e = ltb now e.start_at

unfoldable pub has_started : ℕ → Event → Bool
has_started now e = ltb e.start_at now

unfoldable pub has_ended : ℕ → Event → Bool
has_ended now e = ltb e.end_at now
