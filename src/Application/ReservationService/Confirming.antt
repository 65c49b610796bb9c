-- ===== src/Application/ReservationService/Confirming.antt =====
-- ConfirmReservation of internal/application/reservation_service.go where the driver does not fail.
use go_event_ticket_reservat.Prelude.{
  ℕ, ◌≤◌, String, ◌≡◌, refl, sym, ap, subst, ◌∙◌, true, false, some, List, [], ◌∷◌, ltb, nat_beq,
  length, ◌==◌, arith,
}
use go_event_ticket_reservat.Prelude.Tables.{find_where, count_where, contains}
use go_event_ticket_reservat.Prelude.Tables.Found.{Distinct, count-contains}
use go_event_ticket_reservat.Errors.{Result, ok, err}
use go_event_ticket_reservat.Domain.Seat
use go_event_ticket_reservat.Domain.Seat.{Seat}
use go_event_ticket_reservat.Domain.Reservation
use go_event_ticket_reservat.Domain.Reservation.{Reservation, pending, confirmed}
use go_event_ticket_reservat.World.Rows.{Db, Env, World, ReservationRow}
use go_event_ticket_reservat.World.Logic.{Ends}
use go_event_ticket_reservat.World.Progress.{
  Working, Gone, Goes, Goes-pure, Goes-lift, Goes-map_error, Goes-wrapping, Goes-deferred,
  Goes-exec_tx, Goes-bind, Goes-clock, Goes-require, Goes-count, Goes-given, Goes-mono,
}
use go_event_ticket_reservat.Postgres.Tx.{begin, rollback}
use go_event_ticket_reservat.Postgres.Seats
use go_event_ticket_reservat.Postgres.Seats.{can_confirm, confirmed_row}
use go_event_ticket_reservat.Postgres.Reservations
use go_event_ticket_reservat.Postgres.Reservations.{row_has_id, to_entity, links_of}
use go_event_ticket_reservat.Booking.{Consistent, reservation_at, contains-links_of}
use go_event_ticket_reservat.Application.ReservationService.{store_confirmed, confirm_reservation}
use go_event_ticket_reservat.Application.ReservationService.Ended.{
  Finished, time_checked, confirm_reservation-Outcome,
}
use go_event_ticket_reservat.Application.ReservationService.Progress.{
  Known, Open, commit-Goes, unwrap_tx-Goes, update-Goes, own_id,
}
use go_event_ticket_reservat.Application.ReservationService.Granted.Steps.{At, read-Goes}

-- The reservation is there and pending, does not expire before any time the clock shows, and no seat
-- is linked to it twice.
pub record Confirmable (id : String) (e : Env) (d : Db) : Type 0 where
  pub row : ReservationRow
  pub found : reservation_at d id ≡ some row
  pub is_pending : row.status ≡ pending
  pub in_time : (n : ℕ) → ltb row.expires_at (e.now n) ≡ false
  pub distinct : Distinct (links_of id d.reservation_seats)

-- The transaction of ConfirmReservation, of a row that is there, in any status
module _ (id : String) (d : Db) (row : ReservationRow)
    (found : reservation_at d id ≡ some row) where
  confirm_seats-Goes :
      (sids : List String)
      → count_where (can_confirm sids) d.seats ≡ length sids
      → Goes (Open (λ d'. d' ≡ d)) (Seats.confirm_seats sids) (λ _. Open (Known id))
  unfolding Seats.confirm_seats
  confirm_seats-Goes [] all =
      Goes-pure tt (λ w (d', is_open, same). (d', is_open, (row, rw same found)))
  confirm_seats-Goes (k ∷ ks) all = Goes-bind _ _ _ (unwrap_tx-Goes (λ d'. d' ≡ d)) λ _.
      Goes-bind (λ rows. Open (λ d'. (nat_beq rows (length (k ∷ ks)) ≡ true) × Known id d')) _ _
        (Goes-wrapping _ _ (
          Goes-exec_tx _ (λ fresh now d' same.
            (_, _, refl, (rw (same, all) (ground arith), (row, rw same found))))))
        λ rows. Goes-require _ _ (λ w (d', is_open, (is, known)). (is, (d', is_open, known)))

  pub store_confirmed-Goes :
      (e : Env) (r : Reservation)
      → r.id ≡ id
      → count_where (can_confirm r.seat_ids) d.seats ≡ length r.seat_ids
      → Goes (At e d) (store_confirmed r) (λ out w. out ≡ r)
  unfolding store_confirmed rollback begin
  store_confirmed-Goes e r own all =
      Goes-bind (λ _. Open (λ d'. d' ≡ d)) _ _
        (Goes-wrapping _ _
          (record { run = λ w k (same, here). rw (k w.at) (k, (w.db, refl, here)) }))
        λ _.
          Goes-deferred {Q = λ a w. a ≡ r} _ _
            (Goes-bind _ _ _ (confirm_seats-Goes r.seat_ids all) λ _.
              Goes-bind _ _ _
                (subst (λ k. Goes (Open (Known k)) (Reservations.update r) (λ _. Open (λ d. Unit)))
                  own (update-Goes r))
                λ _.
                  Goes-bind _ _ _ (Goes-wrapping _ _ (commit-Goes (λ d. Unit)))
                    λ _. Goes-bind _ _ _ (Goes-count _) λ _. Goes-pure r (λ w p. refl))
            (λ a w k q. (k, q))

module _ (id : String) (e : Env) (d : Db) (c : Consistent d) (h : Confirmable id e d) where
  abbrev ids : List String
  ids = links_of id d.reservation_seats

  -- Its seats are reserved for it.
  reserved_seat :
      (k : String)
      → contains ids k ≡ true
      → (s : Seat) × (find_where (λ (s : Seat). s.id == k) d.seats ≡ some s)
        × (Seat.status_beq s.status Seat.reserved ≡ true)
  reserved_seat k is =
      let (s, at, status, by) =
        c.held id k h.row Seat.reserved (sym (contains-links_of id k d.reservation_seats) ∙ is)
          h.found (rw h.is_pending refl) in
      (s, at, rw status refl)

  full : count_where (can_confirm ids) d.seats ≡ length ids
  full =
      count-contains (λ (s : Seat). s.id) (λ s. Seat.status_beq s.status Seat.reserved) ids d.seats
        c.seats_unique h.distinct reserved_seat

  get_by_id-Goes :
      Goes (At e d) (Reservations.get_by_id id) (λ r w. (r ≡ to_entity h.row ids) × At e d w)
  unfolding Reservations.get_by_id Reservations.get_seat_ids
  get_by_id-Goes =
      Goes-bind (λ row w. (row ≡ h.row) × At e d w) _ _
        (Goes-map_error _ _ (read-Goes e d _ h.row (rw h.found refl)))
        λ row. Goes-given _ _ λ is.
          Goes-bind (λ sids w. (sids ≡ ids) × At e d w) _ _
            (Goes-wrapping _ _ (read-Goes e d _ ids refl))
            λ sids. Goes-pure _ (λ w (same, here). (rw (is, same) refl, here))

  abbrev now_confirmed : ℕ → Reservation → Reservation
  now_confirmed now r = record r { status = confirmed; confirmed_at = some now; updated_at = now }

  confirm_runs :
      (checked now : ℕ) (r : Reservation)
      → r ≡ to_entity h.row ids
      → ltb h.row.expires_at checked ≡ false
      → Reservation.confirm checked now r ≡ ok (now_confirmed now r)
  unfolding Reservation.confirm Reservation.is_expired to_entity
  confirm_runs checked now r is early = rw (is, h.is_pending, early) refl

  row_id : (r : Reservation) → r ≡ to_entity h.row ids → r.id ≡ id
  unfolding to_entity
  row_id r is = ap (λ (k : Reservation). k.id) is ∙ own_id id d h.row h.found

  row_seats : (r : Reservation) → r ≡ to_entity h.row ids → r.seat_ids ≡ ids
  unfolding to_entity
  row_seats r is = ap (λ (k : Reservation). k.seat_ids) is

  confirm_reservation-Goes : Goes (At e d) (confirm_reservation id) (λ _ w. Unit)
  unfolding confirm_reservation
  confirm_reservation-Goes = Goes-bind _ _ _ get_by_id-Goes λ r. Goes-given _ _ λ is.
      Goes-bind (λ checked w. (ltb h.row.expires_at checked ≡ false) × At e d w) _ _
        (Goes-clock (λ w (same, here). (rw same (h.in_time w.at), (same, here))))
        λ checked. Goes-given _ _ λ early.
          Goes-bind (λ _. At e d) _ _ (Goes-clock (λ w k. k))
            λ now.
              Goes-bind (λ done w. (done ≡ now_confirmed now r) × At e d w) _ _
                (Goes-lift _ (λ w k. (_, confirm_runs checked now r is early, (refl, k))))
                λ done. Goes-given _ _ λ made.
                  Goes-mono _ (λ a w q. tt)
                    (store_confirmed-Goes id d h.row h.found e done
                      (ap (λ (k : Reservation). k.id) made ∙ row_id r is)
                      (subst (λ ks. count_where (can_confirm ks) d.seats ≡ length ks)
                        (sym (ap (λ (k : Reservation). k.seat_ids) made ∙ row_seats r is)) full))

-- Where the driver does not fail, ConfirmReservation of a reservation in a consistent database that is
-- pending and not expired succeeds, if no seat is linked to it twice, which the key of
-- reservation_seats forbids: its row becomes confirmed, and its seats, which are all reserved.
pub confirm_reservation-Succeeds :
    (id : String) (w : World)
    → Working w
    → Consistent w.db
    → Confirmable id w.env w.db
    → (done : Reservation) × ((confirm_reservation id w).0 ≡ ok done)
      × (done.status ≡ confirmed)
      × Finished id can_confirm confirmed_row w.db done (confirm_reservation id w).1.db
      × (count_where (can_confirm (links_of id w.db.reservation_seats)) w.db.seats
          ≡ length (links_of id w.db.reservation_seats))
confirm_reservation-Succeeds id w works c h =
    succeeded (confirm_reservation id w).0 (confirm_reservation id w).1
      ((confirm_reservation-Goes id w.env w.db c h).run w works (refl, refl))
      (confirm_reservation-Outcome id w)
  where
    succeeded :
        (r : Result Reservation) (w' : World)
        → Gone r w' (λ _ w. Unit)
        → Ends r w'
            (λ res w'.
              (time_checked id w ≤ res.expires_at)
              × ((res.status ≡ confirmed) × Finished id can_confirm confirmed_row w.db res w'.db))
            (λ w'. w'.db ≡ w.db)
        → (done : Reservation) × (r ≡ ok done)
          × (done.status ≡ confirmed)
          × Finished id can_confirm confirmed_row w.db done w'.db
          × (count_where (can_confirm (links_of id w.db.reservation_seats)) w.db.seats
              ≡ length (links_of id w.db.reservation_seats))
    succeeded (err e) w' g k = absurd g
    succeeded (ok done) w' g (early, (is, finished)) =
        (done, refl, is, finished, full id w.env w.db c h)
