-- ===== src/Application/History.antt =====
-- The calls that change the database, in any order, and what they keep together. The calls that only
-- read are left out: they change nothing.
use go_event_ticket_reservat.Prelude.{ℕ, zero, suc, arith, String, ◌≡◌, subst, sym, List, [], ◌∷◌}
use go_event_ticket_reservat.World.Rows.{Db, World}
use go_event_ticket_reservat.World.Exec.{Exec}
use go_event_ticket_reservat.World.Logic.{
  Keeps, Keeps-bind, Keeps-exec_db, Keeps-Reads, Keeps-wrapping, Keeps-if, IsRead, IsRead-pure,
  IsRead-lift, IsRead-wrapping, IsRead-require, IsRead-bind, Reads-time_now,
}
use go_event_ticket_reservat.Domain.Seat.{Seat}
use go_event_ticket_reservat.Postgres.Events
use go_event_ticket_reservat.Postgres.Seats
use go_event_ticket_reservat.Booking.{Consistent, Books, no_double_booking}
use go_event_ticket_reservat.Booking.Catalogue.{
  Consistent-same, insert_seat-Consistent, insert_seats-Consistent, delete_event-Consistent,
}
use go_event_ticket_reservat.Application.ReservationService.{
  ReservationService, CreateReservationInput, create_reservation, confirm_reservation,
  cancel_reservation, cancel_expired_reservations,
}
use go_event_ticket_reservat.Application.ReservationService.Create.{
  create_reservation-Consistent, get_event-IsRead,
}
use go_event_ticket_reservat.Application.ReservationService.Finish.{
  confirm_reservation-Consistent, cancel_reservation-Consistent,
}
use go_event_ticket_reservat.Application.ReservationService.Expiry.{
  cancel_expired_reservations-Consistent,
}
use go_event_ticket_reservat.Application.SeatService.{
  CreateSeatInput, CreateBulkSeatsInput, create_seat, create_bulk_seats, new_seats,
}
use go_event_ticket_reservat.Application.EventService
use go_event_ticket_reservat.Application.EventService.{CreateEventInput, UpdateEventInput}

pub data Call : Type 0 where
  creates : CreateReservationInput → Call
  confirms cancels : String → Call
  expires : ℕ → Call
  adds_seat : CreateSeatInput → Call
  adds_seats : CreateBulkSeatsInput → Call
  adds_event : CreateEventInput → Call
  edits_event : UpdateEventInput → Call
  removes_event : String → Call

-- One call, made to its end
unfoldable pub perform : ReservationService → Call → World → World
perform s (creates input) w = (create_reservation s input w).1
perform s (confirms id) w = (confirm_reservation id w).1
perform s (cancels id) w = (cancel_reservation s id w).1
perform s (expires expire_after) w = (cancel_expired_reservations expire_after w).1
perform s (adds_seat input) w = (create_seat input w).1
perform s (adds_seats input) w = (create_bulk_seats input w).1
perform s (adds_event input) w = (EventService.create_event input w).1
perform s (edits_event input) w = (EventService.update_event input w).1
perform s (removes_event id) w = (EventService.delete_event id w).1

unfoldable pub run : ReservationService → List Call → World → World
unfolding perform
run s [] w = w
run s (c ∷ cs) w = run s cs (perform s c w)

abbrev Kept : {A : Type 0} → Exec A → Type 0
Kept m = Keeps (λ d. Unit) Consistent m

create_seat-Consistent : (input : CreateSeatInput) → Kept (create_seat input)
unfolding create_seat Seats.create
create_seat-Consistent input =
    Keeps-bind _ _ (Keeps-Reads _ _ _ (IsRead-wrapping _ _ (get_event-IsRead _))) λ _.
      Keeps-bind _ _ (Keeps-Reads _ _ _ Reads-time_now) λ now.
        Keeps-bind _ _ (Keeps-Reads _ _ _ (IsRead-lift _)) λ _.
          Keeps-bind _ _
            (Keeps-exec_db _
              (λ fresh now d d' i c e. insert_seat-Consistent (fresh 0) i _ d d' c e))
            λ id. Keeps-Reads _ _ _ (IsRead-pure _)

new_seats-IsRead : (input : CreateBulkSeatsInput) (rounds i : ℕ) → IsRead (new_seats input rounds i)
unfolding new_seats
new_seats-IsRead input zero i = IsRead-pure []
new_seats-IsRead input (suc rounds) i = IsRead-bind _ _ Reads-time_now λ now.
    IsRead-bind _ _ (IsRead-lift _)
      λ _. IsRead-bind _ _ (new_seats-IsRead input rounds (suc i)) λ rest. IsRead-pure _

create_bulk_batch-Consistent : (seats : List Seat) → Kept (Seats.create_bulk_batch seats)
unfolding Seats.create_bulk_batch
create_bulk_batch-Consistent [] = Keeps-Reads _ _ _ (IsRead-pure [])
create_bulk_batch-Consistent (s ∷ ss) = Keeps-wrapping _ _ (
    Keeps-exec_db _ (λ fresh now d d' us c e. insert_seats-Consistent fresh (s ∷ ss) 0 d d' us c e))

create_bulk_from-Consistent :
    (rounds i : ℕ) (seats : List Seat) → Kept (Seats.create_bulk_from rounds i seats)
unfolding Seats.create_bulk_from
create_bulk_from-Consistent zero i seats = Keeps-Reads _ _ _ (IsRead-pure [])
create_bulk_from-Consistent (suc rounds) i seats =
    Keeps-if _ _ _
      (Keeps-bind _ _ (create_bulk_batch-Consistent _) λ batch.
        Keeps-bind _ _ (create_bulk_from-Consistent rounds _ seats)
          λ rest. Keeps-Reads _ _ _ (IsRead-pure _))
      (Keeps-Reads _ _ _ (IsRead-pure []))

create_bulk_seats-Consistent : (input : CreateBulkSeatsInput) → Kept (create_bulk_seats input)
unfolding create_bulk_seats Seats.create_bulk
create_bulk_seats-Consistent input =
    Keeps-bind _ _ (Keeps-Reads _ _ _ (IsRead-wrapping _ _ (get_event-IsRead _))) λ _.
      Keeps-bind _ _ (Keeps-Reads _ _ _ (new_seats-IsRead input _ 1))
        λ seats. create_bulk_from-Consistent _ 0 seats

create_event-Consistent : (input : CreateEventInput) → Kept (EventService.create_event input)
unfolding EventService.create_event Events.create Events.insert_event
create_event-Consistent input = Keeps-bind _ _ (Keeps-Reads _ _ _ Reads-time_now) λ now.
    Keeps-bind _ _ (Keeps-Reads _ _ _ (IsRead-wrapping _ _ (IsRead-lift _))) λ _.
      Keeps-wrapping _ _ (
        Keeps-bind _ _
          (Keeps-wrapping _ _ (
            Keeps-exec_db _ (λ fresh now d d' i c e.
              Consistent-same d d' (ground arith) (ground arith) (ground arith) c)))
          λ id. Keeps-Reads _ _ _ (IsRead-pure _))

update_event-Consistent : (input : UpdateEventInput) → Kept (EventService.update_event input)
unfolding EventService.update_event Events.update
update_event-Consistent input = Keeps-bind _ _ (Keeps-Reads _ _ _ (get_event-IsRead _)) λ ev.
    Keeps-bind _ _ (Keeps-Reads _ _ _ (IsRead-wrapping _ _ (IsRead-lift _))) λ _.
      Keeps-bind _ _ (Keeps-Reads _ _ _ Reads-time_now) λ now.
        Keeps-bind _ _
          (Keeps-wrapping _ _ (
            Keeps-exec_db _ (λ fresh at d d' n c e.
              Consistent-same d d' (ground arith) (ground arith) (ground arith) c)))
          λ rows.
            Keeps-bind _ _ (Keeps-Reads _ _ _ (IsRead-require _ _))
              λ _. Keeps-Reads _ _ _ (IsRead-pure _)

delete_event-Kept : (id : String) → Kept (EventService.delete_event id)
unfolding EventService.delete_event Events.delete
delete_event-Kept id =
    Keeps-bind _ _
      (Keeps-wrapping _ _
        (Keeps-exec_db _ (λ fresh now d d' n c e. delete_event-Consistent id fresh now n d d' c e)))
      λ rows. Keeps-Reads _ _ _ (IsRead-require _ _)

pub perform-Consistent :
    (s : ReservationService) (c : Call) (w : World)
    → Consistent w.db
    → Consistent (perform s c w).db
unfolding perform
perform-Consistent s (creates input) w h = (create_reservation-Consistent s input).run w tt h
perform-Consistent s (confirms id) w h = (confirm_reservation-Consistent id).run w tt h
perform-Consistent s (cancels id) w h = (cancel_reservation-Consistent s id).run w tt h
perform-Consistent s (expires expire_after) w h =
    (cancel_expired_reservations-Consistent expire_after).run w tt h
perform-Consistent s (adds_seat input) w h = (create_seat-Consistent input).run w tt h
perform-Consistent s (adds_seats input) w h = (create_bulk_seats-Consistent input).run w tt h
perform-Consistent s (adds_event input) w h = (create_event-Consistent input).run w tt h
perform-Consistent s (edits_event input) w h = (update_event-Consistent input).run w tt h
perform-Consistent s (removes_event id) w h = (delete_event-Kept id).run w tt h

-- Any calls, each made to its end before the next, whatever the clock, the drivers, Redis and the
-- id generator do, keep the tables consistent: the ids of seats and of reservations and the
-- idempotency keys stay unique, a link names a reservation that is there, and a pending or confirmed
-- reservation holds each of its seats, which has the matching status and names it.
pub run-Consistent :
    (s : ReservationService) (cs : List Call) (w : World)
    → Consistent w.db
    → Consistent (run s cs w).db
unfolding run
run-Consistent s [] w h = h
run-Consistent s (c ∷ cs) w h = run-Consistent s cs (perform s c w) (perform-Consistent s c w h)

abbrev pub empty_db : Db
empty_db = record { events = []; seats = []; reservations = []; reservation_seats = [] }

pub Consistent-empty : Consistent empty_db
Consistent-empty = record {
  seats_unique = λ k. omega arith;
  rows_unique = λ k. omega arith;
  keys_unique = λ k. omega arith;
  links_known = λ rid sid e. cc;
  held = λ rid sid r st e. cc;
}

-- From an empty database, after any calls, each made to its end before the next, no seat belongs to
-- two reservations that are pending or confirmed.
pub run-no_double_booking :
    (s : ReservationService) (cs : List Call) (w : World) (r₁ r₂ sid : String)
    → w.db ≡ empty_db
    → Books (run s cs w).db r₁ sid
    → Books (run s cs w).db r₂ sid
    → r₁ ≡ r₂
run-no_double_booking s cs w r₁ r₂ sid fresh =
    no_double_booking (run s cs w).db r₁ r₂ sid
      (run-Consistent s cs w (subst Consistent (sym fresh) Consistent-empty))
