-- ===== src/Domain/Reservation.antt =====
-- internal/domain/reservation/entity.go
pub mod Final
use go_event_ticket_reservat.Prelude.{
  ℕ, ◌+◌, ◌*◌, ◌^◌, String, Bool, true, false, Option, none, some, List, ltb, nat_beq, length, ◌==◌,
  if◌then◌else◌,
}
use go_event_ticket_reservat.Prelude.Int.{ℤ}
use go_event_ticket_reservat.Errors.{
  ReservationError, Result, ok, err, reservation, reservation_not_pending, reservation_expired,
  reservation_already_cancelled, reservation_already_confirmed, user_id_required, seat_ids_required,
  idempotency_key_required,
}

pub data Status : Type 0 where
  pending confirmed cancelled : Status

-- s == t on the constants of `Status`
abbrev pub status_beq : Status → Status → Bool
status_beq pending pending = true
status_beq confirmed confirmed = true
status_beq cancelled cancelled = true
status_beq _ _ = false

pub record Reservation : Type 0 where
  pub id : String
  pub event_id : String
  pub user_id : String
  pub seat_ids : List String
  pub status : Status
  pub idempotency_key : String
  pub expires_at : ℕ
  pub confirmed_at : Option ℕ
  pub total_amount : ℤ
  pub created_at : ℕ
  pub updated_at : ℕ

-- ReservationExpiration: fifteen minutes, in nanoseconds
abbrev pub reservation_expiration : ℕ
reservation_expiration = 15 * 60 * 10 ^ 9

unfoldable pub new_reservation : ℕ → String → String → String → List String → ℤ → Reservation
new_reservation now event_id user_id idempotency_key seat_ids total_amount = record {
  id = "";
  event_id = event_id;
  user_id = user_id;
  seat_ids = seat_ids;
  status = pending;
  idempotency_key = idempotency_key;
  expires_at = now + reservation_expiration;
  confirmed_at = none;
  total_amount = total_amount;
  created_at = now;
  updated_at = now;
}

unfoldable pub is_expired : ℕ → Reservation → Bool
is_expired now r = ltb r.expires_at now

unfoldable pub is_pending : Reservation → Bool
is_pending r = status_beq r.status pending

-- Confirm reads the clock twice: in IsExpired and for the stamps.
unfoldable pub confirm : ℕ → ℕ → Reservation → Result Reservation
unfolding is_expired
confirm checked now r =
    if status_beq r.status pending
    then (if is_expired checked r
        then err (reservation reservation_expired)
        else ok (record r { status = confirmed; confirmed_at = some now; updated_at = now }))
    else err (reservation reservation_not_pending)

unfoldable pub cancel : ℕ → Reservation → Result Reservation
cancel now r =
    if status_beq r.status cancelled
    then err (reservation reservation_already_cancelled)
    else if status_beq r.status confirmed
    then err (reservation reservation_already_confirmed)
    else ok (record r { status = cancelled; updated_at = now })

-- Validate
unfoldable pub validate : Reservation → Result (Unit {0})
validate r =
    if r.event_id == ""
    then err (reservation ReservationError.event_id_required)
    else if r.user_id == ""
    then err (reservation user_id_required)
    else if nat_beq (length r.seat_ids) 0
    then err (reservation seat_ids_required)
    else if r.idempotency_key == ""
    then err (reservation idempotency_key_required)
    else ok tt
