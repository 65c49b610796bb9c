-- ===== src/Application/Failing.antt =====
-- The operations of internal/application that fail leave the database as it was.
use go_event_ticket_reservat.Prelude.{
  ◌≡◌, refl, String, ℕ, not, nat_beq, false, Option-cases, inl, inr, List, [], ◌∷◌, arith,
}
use go_event_ticket_reservat.Prelude.Int.{ℤ}
use go_event_ticket_reservat.Prelude.Tables.{count_where, update_where, find_where}
use go_event_ticket_reservat.Prelude.Tables.Laws.{find_none}
use go_event_ticket_reservat.Errors.{Result, ok, err}
use go_event_ticket_reservat.Domain.Event.{Event}
use go_event_ticket_reservat.World.Exec.{Exec}
use go_event_ticket_reservat.World.Logic.{
  IsRead, IsRead-pure, IsRead-lift, IsRead-query, IsRead-wrapping, IsRead-bind, IsRead-attempt,
  IsRead-if, Reads-time_now, read_rules,
}
use go_event_ticket_reservat.World.Rows.{Db, ReservationRow}
use go_event_ticket_reservat.Postgres.Tx.Settles.{Settles-after, Succeeds-pure}
use go_event_ticket_reservat.Postgres.Tx.Single.{
  AllOrNothing-Ends, Wrote, AllOrNothing-required, AllOrNothing, AllOrNothing-Settles,
  AllOrNothing-checked, Settles-exec_db, Settles-then, Settles-wrapping,
}
use go_event_ticket_reservat.Postgres.Events
use go_event_ticket_reservat.Postgres.Events.{is_version, updated_event, event_has_id}
use go_event_ticket_reservat.Postgres.Events.Version.{update_none}
use go_event_ticket_reservat.Postgres.Seats
use go_event_ticket_reservat.Postgres.Reservations
use go_event_ticket_reservat.Redis.Cache
use go_event_ticket_reservat.Application.EventService
use go_event_ticket_reservat.Application.EventService.{CreateEventInput, UpdateEventInput}
use go_event_ticket_reservat.Application.SeatService
use go_event_ticket_reservat.Application.SeatService.{SeatService, CreateSeatInput}
use go_event_ticket_reservat.Application.ReservationService
use go_event_ticket_reservat.Application.ReservationService.{
  ReservationService, CreateReservationInput,
}
use go_event_ticket_reservat.Application.ReservationService.Outcome.{create_reservation-Outcome}
use go_event_ticket_reservat.Application.ReservationService.Ended.{
  confirm_reservation-Outcome, cancel_reservation-Outcome,
}
use go_event_ticket_reservat.Application.ReservationService.Create.{get_event-IsRead}

pub create_event-AllOrNothing :
    (input : CreateEventInput) → AllOrNothing (EventService.create_event input)
unfolding EventService.create_event Events.create
create_event-AllOrNothing input = Settles-after _ _ Reads-time_now λ now.
    Settles-after _ _ (IsRead-wrapping _ _ (IsRead-lift _)) λ _. AllOrNothing-Settles _ (
      Settles-wrapping _ _
        (Settles-then _ _ _ (Settles-wrapping _ _ (Settles-exec_db _)) λ id. Succeeds-pure _))

pub create_seat-AllOrNothing :
    (input : CreateSeatInput) → AllOrNothing (SeatService.create_seat input)
unfolding SeatService.create_seat Seats.create
create_seat-AllOrNothing input = Settles-after _ _ (IsRead-wrapping _ _ (get_event-IsRead _)) λ _.
    Settles-after _ _ Reads-time_now λ now.
      Settles-after _ _ (IsRead-lift _)
        λ _. AllOrNothing-Settles _ (Settles-then _ _ _ (Settles-exec_db _) λ id. Succeeds-pure _)

-- An UPDATE that affects no row
unchanged :
    (ev : Event) (input : UpdateEventInput) (now n : ℕ) (d d' : Db)
    → Wrote (Events.update_event (EventService.assign input ev) now) d n d'
    → not (nat_beq n 0) ≡ false
    → d' ≡ d
unchanged ev input now n d d' (fresh, at, ran) none =
    let e = EventService.assign input ev in
    let rows : count_where (is_version e) d.events ≡ n = ground arith in
    let zero_rows : count_where (is_version e) d.events ≡ 0 = ground arith in
    let is : d' ≡ record d { events = update_where (is_version e) (updated_event e now) d.events } =
      ground arith in
    rw (is, update_none (is_version e) (updated_event e now) d.events zero_rows) refl

pub update_event-AllOrNothing :
    (input : UpdateEventInput) → AllOrNothing (EventService.update_event input)
unfolding EventService.update_event Events.update
update_event-AllOrNothing input = Settles-after _ _ (get_event-IsRead _) λ ev.
    Settles-after _ _ (IsRead-wrapping _ _ (IsRead-lift _)) λ _.
      Settles-after _ _ Reads-time_now λ now.
        AllOrNothing-checked _ _ _ _ _ (Settles-wrapping _ _ (Settles-exec_db _))
          (λ n d d' ran none. unchanged ev input now n d d' ran none) (Succeeds-pure _)

-- A DELETE that affects no row
undeleted :
    (id : String) (n : ℕ) (d d' : Db)
    → Wrote (Events.delete_event id) d n d'
    → not (nat_beq n 0) ≡ false
    → d' ≡ d
unfolding Events.delete_event
undeleted id n d d' (fresh, at, ran) none =
    elim (Option-cases (find_where (event_has_id id) d.events)) [
      | inl e ↦ ground (arith, e)
      | inr (row, e) ↦
          let zero_rows : count_where (event_has_id id) d.events ≡ 0 = ground (arith, e) in
          let gone = find_none (event_has_id id) d.events zero_rows in absurd cc
    ]

pub delete_event-AllOrNothing : (id : String) → AllOrNothing (EventService.delete_event id)
unfolding EventService.delete_event Events.delete
delete_event-AllOrNothing id =
    AllOrNothing-required _ _ _ (Settles-wrapping _ _ (Settles-exec_db _))
      (λ n d d' ran none. undeleted id n d d' ran none)

pub get_seats-IsRead : (id : String) → IsRead (SeatService.get_seats_by_event id)
unfolding SeatService.get_seats_by_event Seats.get_by_event_id
get_seats-IsRead id = IsRead-query _

pub get_available-IsRead : (id : String) → IsRead (SeatService.get_available_seats_by_event id)
unfolding SeatService.get_available_seats_by_event Seats.get_available_by_event_id
get_available-IsRead id = IsRead-query _

pub get_seat-IsRead : (id : String) → IsRead (SeatService.get_seat id)
unfolding SeatService.get_seat Seats.get_by_id
get_seat-IsRead id = search read_rules

pub count_and_cache-IsRead :
    (s : SeatService) (id : String) → IsRead (SeatService.count_and_cache s id)
unfolding SeatService.count_and_cache Seats.count_available_by_event_id Cache.set_available_count
count_and_cache-IsRead s id = IsRead-bind _ _ (IsRead-query _) λ n.
    IsRead-bind _ _
      (IsRead-if _ _ _ (IsRead-bind _ _ (IsRead-attempt _ (search read_rules)) λ _. IsRead-pure _)
        (IsRead-pure _))
      λ _. IsRead-pure _

unless_cached-IsRead :
    (r : Result ℤ) {m : Exec ℤ} → IsRead m → IsRead (SeatService.unless_cached r m)
unless_cached-IsRead (ok n) h = IsRead-pure n
unless_cached-IsRead (err e) h = h

pub count_available-IsRead :
    (s : SeatService) (id : String) → IsRead (SeatService.count_available_seats s id)
unfolding SeatService.count_available_seats Cache.get_available_count
count_available-IsRead s id =
    IsRead-if _ _ _
      (IsRead-bind _ _ (IsRead-attempt _ (search read_rules))
        λ cached. unless_cached-IsRead cached (count_and_cache-IsRead s id))
      (count_and_cache-IsRead s id)

pub list_events-IsRead : (limit offset : ℤ) → IsRead (EventService.list_events limit offset)
unfolding EventService.list_events Events.list
list_events-IsRead limit offset = search read_rules

with_seat_ids-IsRead : (rows : List ReservationRow) → IsRead (Reservations.with_seat_ids rows)
unfolding Reservations.with_seat_ids Reservations.get_seat_ids
with_seat_ids-IsRead [] = IsRead-pure []
with_seat_ids-IsRead (row ∷ rows) =
    IsRead-bind _ _ (IsRead-wrapping _ _ (IsRead-query _))
      λ ids. IsRead-bind _ _ (with_seat_ids-IsRead rows) λ rest. IsRead-pure _

pub get_user_reservations-IsRead :
    (id : String) (limit offset : ℤ)
    → IsRead (ReservationService.get_user_reservations id limit offset)
unfolding ReservationService.get_user_reservations Reservations.get_by_user_id
get_user_reservations-IsRead id limit offset =
    IsRead-bind _ _ (IsRead-wrapping _ _ (IsRead-query _)) with_seat_ids-IsRead

pub create_reservation-AllOrNothing :
    (s : ReservationService) (input : CreateReservationInput)
    → AllOrNothing (ReservationService.create_reservation s input)
create_reservation-AllOrNothing s input =
    AllOrNothing-Ends (ReservationService.create_reservation s input) _
      (create_reservation-Outcome input s)

pub confirm_reservation-AllOrNothing :
    (id : String) → AllOrNothing (ReservationService.confirm_reservation id)
confirm_reservation-AllOrNothing id =
    AllOrNothing-Ends (ReservationService.confirm_reservation id) _ (confirm_reservation-Outcome id)

pub cancel_reservation-AllOrNothing :
    (s : ReservationService) (id : String)
    → AllOrNothing (ReservationService.cancel_reservation s id)
cancel_reservation-AllOrNothing s id =
    AllOrNothing-Ends (ReservationService.cancel_reservation s id) _
      (cancel_reservation-Outcome s id)
