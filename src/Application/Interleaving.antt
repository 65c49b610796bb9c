-- ===== src/Application/Interleaving.antt =====
-- Calls of internal/application/reservation_service.go that overlap. Each call reads first, outside
-- its transaction, and writes in one transaction; between the two others may run. Transactions run
-- one at a time. What a call has read may be of any age, and no lock holds it back.
pub mod Good
pub mod Safety
use go_event_ticket_reservat.Prelude.{ℕ, String, ◌≡◌, ◌≢◌, some, List, [], ◌∷◌, ◌++◌}
use go_event_ticket_reservat.Errors.{ok}
use go_event_ticket_reservat.Domain.Reservation
use go_event_ticket_reservat.Domain.Reservation.{Reservation, pending, cancelled}
use go_event_ticket_reservat.World.Rows.{Db, World, ReservationRow}
use go_event_ticket_reservat.Booking.{reservation_at}
use go_event_ticket_reservat.Application.ReservationService.{
  ReservationService, store_reservation, store_confirmed, store_cancelled, cancel_expired,
}
use go_event_ticket_reservat.Application.ReservationService.Finish.{Loaded}

-- A call between its reads and its transaction: CreateReservation with its new reservation,
-- ConfirmReservation and CancelReservation with the reservation as they changed it in memory, and a
-- round of CancelExpiredReservations with the reservation as it was read.
pub data Flight : Type 0 where
  creating confirming cancelling expiring : Reservation → Flight

unfoldable pub transact : ReservationService → Flight → World → World
transact s (creating r) w = (store_reservation s r r.seat_ids w).1
transact s (confirming r) w = (store_confirmed r w).1
transact s (cancelling r) w = (store_cancelled s r w).1
transact s (expiring r) w = (cancel_expired r w).1

pub record System : Type 0 where
  pub db : Db
  pub flights : List Flight

-- The status of the reservation's row now
abbrev pub RowIs : (Reservation.Status → Type 0) → Db → String → Type 0
RowIs P d id = (row : ReservationRow) → reservation_at d id ≡ some row → P row.status

-- Nobody has ended the reservation since it was read in a way that the transaction does not notice:
-- before a cancellation it is still pending, and before a confirmation it is not cancelled.
abbrev pub NotOvertaken : Db → Flight → Type 0
NotOvertaken d (creating r) = Unit
NotOvertaken d (confirming r) = RowIs (λ st. st ≢ cancelled) d r.id
NotOvertaken d (cancelling r) = RowIs (λ st. st ≡ pending) d r.id
NotOvertaken d (expiring r) = RowIs (λ st. st ≡ pending) d r.id

abbrev takes_off : Flight → System → System
takes_off f y = record y { flights = f ∷ y.flights }

pub data Step (s : ReservationService) : System → System → Type 0 where
  -- Its reads are left out: whatever they found, it has a new pending reservation.
  begins_create :
      (y : System) (r : Reservation) → r.status ≡ pending → Step s y (takes_off (creating r) y)
  begins_confirm :
      (y : System) (id : String) (checked now : ℕ) (res done : Reservation)
      → Loaded y.db id res
      → Reservation.confirm checked now res ≡ ok done
      → Step s y (takes_off (confirming done) y)
  begins_cancel :
      (y : System) (id : String) (now : ℕ) (res done : Reservation)
      → Loaded y.db id res
      → Reservation.cancel now res ≡ ok done
      → Step s y (takes_off (cancelling done) y)
  begins_expire :
      (y : System) (res : Reservation)
      → Loaded y.db res.id res
      → res.status ≡ pending
      → Step s y (takes_off (expiring res) y)
  -- The transaction of any call in flight, in any world with this database
  commits :
      (y : System) (before after : List Flight) (f : Flight) (w : World)
      → y.flights ≡ before ++ f ∷ after
      → w.db ≡ y.db
      → NotOvertaken y.db f
      → Step s y (record { db = (transact s f w).db; flights = before ++ after })

pub data Reach (s : ReservationService) (y : System) : System → Type 0 where
  here : Reach s y y
  next : {z u : System} → Reach s y z → Step s z u → Reach s y u
