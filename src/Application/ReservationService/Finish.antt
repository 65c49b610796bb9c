-- ===== src/Application/ReservationService/Finish.antt =====
-- ConfirmReservation and CancelReservation of internal/application/reservation_service.go and
-- `Consistent`.
use go_event_ticket_reservat.Prelude.{ℕ, String, ◌≡◌, sym, ap, ◌∙◌, some, List, arith, eq_iff}
use go_event_ticket_reservat.Prelude.Tables.Laws.{find_passes}
use go_event_ticket_reservat.Errors.{ok}
use go_event_ticket_reservat.Domain.Reservation
use go_event_ticket_reservat.Domain.Reservation.{Reservation, pending, confirmed, cancelled}
use go_event_ticket_reservat.World.Rows.{Db, Env, ReservationRow}
use go_event_ticket_reservat.World.Logic.{
  Reads, Keeps, Reads-pure, Reads-lift, Reads-query, Reads-map_error, Reads-wrapping, Reads-mono,
  Keeps-Reads, Reads-time_now, Reads-count, Reads-then, Keeps-read, Keeps-own, Keeps-weaken,
  IsRead-bind, IsRead-pure,
}
use go_event_ticket_reservat.Postgres.Tx.Rules.{Safe-bind, Safe-commit, Keeps-transaction}
use go_event_ticket_reservat.Postgres.Seats.{row_or_none}
use go_event_ticket_reservat.Postgres.Reservations
use go_event_ticket_reservat.Postgres.Reservations.{row_has_id, links_of, to_entity}
use go_event_ticket_reservat.Booking.{Consistent, reservation_at}
use go_event_ticket_reservat.Booking.Finish.{
  ReadFrom-Names, ReadFrom, confirm-Consistent, release-Consistent,
}
use go_event_ticket_reservat.Booking.Moves.{
  Moved-then, confirm_seats-Does, release_seats-Does, update-Does,
}
use go_event_ticket_reservat.Application.ReservationService.{
  ReservationService, store_confirmed, confirm_reservation, store_cancelled, cancel_reservation,
}
use go_event_ticket_reservat.Application.ReservationService.Create.{invalidate_seat_cache-IsRead}

-- `res` is what GetByID returns for a row of `d`.
pub record Loaded (d : Db) (id : String) (res : Reservation) : Type 0 where
  pub row : ReservationRow
  pub found : reservation_at d id ≡ some row
  pub is : res ≡ to_entity row (links_of id d.reservation_seats)

pub get_seat_ids-Reads :
    (id : String)
    → Reads (Reservations.get_seat_ids id) (λ ids d. ids ≡ links_of id d.reservation_seats)
unfolding Reservations.get_seat_ids
get_seat_ids-Reads id = Reads-mono _ (λ a d h. ground arith) (Reads-wrapping _ _ (Reads-query _))

loaded :
    (id : String) (r : Reservation) (d : Db) (row : ReservationRow)
    → (e : Env) × (row_or_none (reservation_at d id) ≡ ok row)
    → (ids : List String) → ids ≡ links_of id d.reservation_seats
    → r ≡ to_entity row ids
    → Loaded d id r
loaded id r d row (_, e) ids links is = record {
  row = row;
  found = ground arith;
  is = rw (← links) is;
}

pub get_by_id-Reads : (id : String) → Reads (Reservations.get_by_id id) (λ r d. Loaded d id r)
unfolding Reservations.get_by_id
get_by_id-Reads id =
    Reads-mono _ (λ r d h. loaded id r d h.0 h.1 h.2.0 h.2.1 h.2.2)
      (Reads-then _ _ (Reads-map_error _ _ (Reads-query _))
        λ row. Reads-then _ _ (get_seat_ids-Reads id) λ ids. Reads-pure _)

pub Loaded-id : (d : Db) (id : String) (res : Reservation) → Loaded d id res → res.id ≡ id
unfolding to_entity
Loaded-id d id res l =
    ap (λ (k : Reservation). k.id) l.is
    ∙ (eq_iff l.row.id id).0 (find_passes (row_has_id id) d.reservations l.row l.found)

-- The reservation that was read, but for its status and stamps
pub ReadFrom-Loaded :
    (d : Db) (id : String) (res done : Reservation)
    → Loaded d id res
    → res.status ≡ pending
    → done.id ≡ res.id
    → done.seat_ids ≡ res.seat_ids
    → (row : ReservationRow) × ReadFrom d row done
unfolding to_entity
ReadFrom-Loaded d id res done l is same seats =
    let this : done.id ≡ id = same ∙ Loaded-id d id res l in
    (
      l.row,
      record {
        found = rw this l.found;
        is_pending = sym (ap (λ (k : Reservation). k.status) l.is) ∙ is;
        seat_ids = rw this (seats ∙ ap (λ (k : Reservation). k.seat_ids) l.is);
      },
    )

pub confirm_lem :
    (checked now : ℕ) (r done : Reservation)
    → Reservation.confirm checked now r ≡ ok done
    → (r.status ≡ pending)
      × (done.id ≡ r.id)
      × (done.seat_ids ≡ r.seat_ids)
      × (done.status ≡ confirmed)
unfolding Reservation.confirm
confirm_lem checked now r done e = (ground arith, ground arith, ground arith, ground arith)

pub cancel_lem :
    (now : ℕ) (r done : Reservation)
    → Reservation.cancel now r ≡ ok done
    → (r.status ≡ pending)
      × (done.id ≡ r.id)
      × (done.seat_ids ≡ r.seat_ids)
      × (done.status ≡ cancelled)
unfolding Reservation.cancel
cancel_lem now r done e = (ground arith, ground arith, ground arith, ground arith)

-- The transaction of ConfirmReservation, if the reservation was read from the same database
store_confirmed-Consistent :
    (res : Reservation)
    → Keeps
        (λ d. ((row : ReservationRow) × ReadFrom d row res) × (res.status ≡ confirmed))
        Consistent
        (store_confirmed res)
unfolding store_confirmed
store_confirmed-Consistent res = Keeps-own _ (
    Keeps-transaction _ Consistent _ _ (
      Safe-bind _ _ (confirm_seats-Does res.seat_ids) λ _ d h.
        Safe-bind _ _ (update-Does res) λ _ d₁ t.
          Safe-commit _ _ _ _
            (λ d' u.
              confirm-Consistent res h.0.0.0 t.now d d' h.1 (ReadFrom-Names d h.0.0.0 res h.0.0.1)
                h.0.0.1.is_pending (Moved-then res _ _ d d₁ d' t.touched u) h.0.1)
            (Keeps-Reads _ _ _ (IsRead-bind _ _ (Reads-count _) (λ _. IsRead-pure _)))))

confirmed_from :
    (d : Db) (id : String) (checked now : ℕ) (res done : Reservation)
    → Loaded d id res
    → Reservation.confirm checked now res ≡ ok done
    → ((row : ReservationRow) × ReadFrom d row done) × (done.status ≡ confirmed)
confirmed_from d id checked now res done l e =
    let (is, same, seats, after) = confirm_lem checked now res done e in
    (ReadFrom-Loaded d id res done l is same seats, after)

pub confirm_reservation-Consistent :
    (id : String) → Keeps (λ d. Unit) Consistent (confirm_reservation id)
unfolding confirm_reservation
confirm_reservation-Consistent id = Keeps-read _ _ (get_by_id-Reads id) λ res.
    Keeps-read _ _ Reads-time_now λ checked. Keeps-read _ _ Reads-time_now λ now.
      Keeps-read _ _ (Reads-lift _) λ done.
        Keeps-weaken _ (λ d h. confirmed_from d id checked now res done h.0.0.0.1 h.1)
          (store_confirmed-Consistent done)

-- The transaction of CancelReservation, if the reservation was read from the same database
store_cancelled-Consistent :
    (s : ReservationService) (res : Reservation)
    → Keeps
        (λ d. ((row : ReservationRow) × ReadFrom d row res) × (res.status ≡ cancelled))
        Consistent
        (store_cancelled s res)
unfolding store_cancelled
store_cancelled-Consistent s res = Keeps-own _ (
    Keeps-transaction _ Consistent _ _ (
      Safe-bind _ _ (release_seats-Does res.seat_ids) λ _ d h.
        Safe-bind _ _ (update-Does res) λ _ d₁ t.
          Safe-commit _ _ _ _
            (λ d' u.
              release-Consistent res h.0.0.0 t.0 d d' h.1 (ReadFrom-Names d h.0.0.0 res h.0.0.1)
                h.0.0.1.is_pending (Moved-then res _ _ d d₁ d' t.1 u) h.0.1)
            (Keeps-Reads _ _ _ (
              IsRead-bind _ _ (Reads-count _) λ _.
                IsRead-bind _ _ (invalidate_seat_cache-IsRead s res.event_id) λ _. IsRead-pure _))))

cancelled_from :
    (d : Db) (id : String) (now : ℕ) (res done : Reservation)
    → Loaded d id res
    → Reservation.cancel now res ≡ ok done
    → ((row : ReservationRow) × ReadFrom d row done) × (done.status ≡ cancelled)
cancelled_from d id now res done l e =
    let (is, same, seats, after) = cancel_lem now res done e in
    (ReadFrom-Loaded d id res done l is same seats, after)

pub cancel_reservation-Consistent :
    (s : ReservationService) (id : String) → Keeps (λ d. Unit) Consistent (cancel_reservation s id)
unfolding cancel_reservation
cancel_reservation-Consistent s id = Keeps-read _ _ (get_by_id-Reads id) λ res.
    Keeps-read _ _ Reads-time_now λ now. Keeps-read _ _ (Reads-lift _) λ done.
      Keeps-weaken _ (λ d h. cancelled_from d id now res done h.0.0.1 h.1)
        (store_cancelled-Consistent s done)
