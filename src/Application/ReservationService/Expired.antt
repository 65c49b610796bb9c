-- ===== src/Application/ReservationService/Expired.antt =====
-- What one round of the loop of CancelExpiredReservations does.
use go_event_ticket_reservat.Prelude.{ℕ, ◌≡◌, sym, subst}
use go_event_ticket_reservat.Errors.{ok}
use go_event_ticket_reservat.Domain.Reservation
use go_event_ticket_reservat.Domain.Reservation.{Reservation, pending, confirmed, cancelled}
use go_event_ticket_reservat.World.Rows.{Db}
use go_event_ticket_reservat.World.Logic.{Reads-time_now, Reads-lift}
use go_event_ticket_reservat.Postgres.Tx.Settles.{Settles, Settles-mono, Settles-read, Lands-bind}
use go_event_ticket_reservat.Postgres.Tx.Plain.{Lands-commit_last, Settles-plain_transaction}
use go_event_ticket_reservat.Postgres.Seats.{released_row}
use go_event_ticket_reservat.Booking.Finish.{Moved}
use go_event_ticket_reservat.Booking.Moves.{
  Moved-then, Touched, Updated, release_seats-Does, update-Does,
}
use go_event_ticket_reservat.Application.ReservationService.{cancel_expired}
use go_event_ticket_reservat.Application.ReservationService.Ended.{names}

-- What a round of CancelExpiredReservations writes
pub record Expired (res : Reservation) (d d' : Db) : Type 0 where
  pub time : ℕ
  pub now : ℕ
  pub done : Reservation
  pub is_cancelled : Reservation.cancel time res ≡ ok done
  pub is_moved : Moved done (names done.seat_ids) (released_row now) d d'

pub cancel_expired-Settles :
    (res : Reservation) → Settles (cancel_expired res) (λ d _ d'. Expired res d d')
unfolding cancel_expired
cancel_expired-Settles res =
    Settles-mono _
      (λ d _ d' h. expired d d' h.0 h.2.0 h.2.1 h.2.2.1 h.2.2.3.1 h.2.2.2 h.2.2.3.2 h.2.2.3.3)
      (Settles-read _ _ Reads-time_now λ now. Settles-read _ _ (Reads-lift _) λ done.
        Settles-plain_transaction _ (
          Lands-bind _ _ (release_seats-Does done.seat_ids)
            λ _. Lands-bind _ _ (update-Does done) λ _. Lands-commit_last))
  where
    expired :
        (d d' : Db) (time : ℕ) (done : Reservation)
        → Reservation.cancel time res ≡ ok done
        → (d₁ d₂ : Db) → (now : ℕ) × Touched (names done.seat_ids) (released_row now) d d₁
        → Updated done d₁ d₂
        → d' ≡ d₂
        → Expired res d d'
    expired d d' time done e d₁ d₂ (now, t) u same = record {
      time = time;
      now = now;
      done = done;
      is_cancelled = e;
      is_moved =
          subst (λ k. Moved done (names done.seat_ids) (released_row now) d k) (sym same)
            (Moved-then done (names done.seat_ids) (released_row now) d d₁ d₂ t u);
    }
