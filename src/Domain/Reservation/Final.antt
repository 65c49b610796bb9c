-- ===== src/Domain/Reservation/Final.antt =====
-- Confirm and Cancel of internal/domain/reservation/entity.go: a reservation ends once.
use go_event_ticket_reservat.Prelude.{ℕ, ◌≡◌, ◌⊎◌, inl, inr, arith, ◌≤◌, ◌<◌, some}
use go_event_ticket_reservat.Errors.{
  Error, ok, err, reservation, reservation_not_pending, reservation_expired,
  reservation_already_cancelled, reservation_already_confirmed,
}
use go_event_ticket_reservat.Domain.Reservation.{
  Reservation, confirmed, cancelled, confirm, cancel, is_expired, new_reservation,
}
use go_event_ticket_reservat.Prelude.{String, List, ◌+◌, ◌*◌, ◌^◌, refl}
use go_event_ticket_reservat.Prelude.Int.{ℤ}

abbrev pub Final : Reservation → Type 0
Final r =
    (e : Error) × ((checked now : ℕ)
      → confirm checked now r ≡ err (reservation reservation_not_pending))
    × ((now : ℕ) → cancel now r ≡ err e)

-- After Confirm or Cancel of a reservation has succeeded, neither succeeds again, at any time.
pub confirm-cancel-Final :
    (checked now : ℕ) (r done : Reservation)
    → (confirm checked now r ≡ ok done) ⊎ (cancel now r ≡ ok done)
    → Final done
unfolding confirm cancel is_expired
confirm-cancel-Final checked now r done (inl e) =
    let is : done.status ≡ confirmed = ground arith in
    (reservation reservation_already_confirmed, (λ c n. ground arith), (λ n. ground arith))
confirm-cancel-Final checked now r done (inr e) =
    let is : done.status ≡ cancelled = ground arith in
    (reservation reservation_already_cancelled, (λ c n. ground arith), (λ n. ground arith))

-- A new reservation can be confirmed exactly up to fifteen minutes after its time, in nanoseconds,
-- and cancelled at any time.
pub new_reservation-Open :
    (now checked at : ℕ) (event_id user_id key : String) (seat_ids : List String) (total : ℤ)
    → let r = new_reservation now event_id user_id key seat_ids total in
      ((checked ≤ now + 15 * 60 * 10 ^ 9)
          × (confirm checked at r
              ≡ ok (record r { status = confirmed; confirmed_at = some at; updated_at = at }))
        ⊎ (now + 15 * 60 * 10 ^ 9 < checked)
          × (confirm checked at r ≡ err (reservation reservation_expired)))
      × (cancel at r ≡ ok (record r { status = cancelled; updated_at = at }))
unfolding new_reservation confirm cancel is_expired
new_reservation-Open now checked at event_id user_id key seat_ids total = (ground arith, refl)
