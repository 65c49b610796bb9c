-- ===== src/Application/Cleaner/Reading.antt =====
-- GetExpiredPending of internal/infrastructure/postgres/reservation_repository.go where the driver does
-- not fail.
use go_event_ticket_reservat.Prelude.{ℕ, ◌-◌, ◌≡◌, refl, ap, ◌∙◌, List, [], ◌∷◌}
use go_event_ticket_reservat.Prelude.Tables.{select_where}
use go_event_ticket_reservat.World.Rows.{Db, World, ReservationRow}
use go_event_ticket_reservat.World.Progress.{
  Goes, Goes-pure, Goes-wrapping, Goes-query, Goes-bind, Goes-clock, Goes-with, Goes-mono,
}
use go_event_ticket_reservat.Postgres.Timestamp.{timestamp}
use go_event_ticket_reservat.Postgres.Reservations
use go_event_ticket_reservat.Postgres.Reservations.{
  row_has_id, updated_row, is_old_pending, links_of, to_entity, with_seat_ids, get_expired_pending,
}
use go_event_ticket_reservat.Booking.Pending.{entities}

-- GetExpiredPending, from the world that it is called in
with_seat_ids-Goes :
    (d : Db) (rows : List ReservationRow)
    → Goes (λ w. w.db ≡ d) (with_seat_ids rows) (λ rs w. (rs ≡ entities d rows) × (w.db ≡ d))
unfolding with_seat_ids Reservations.get_seat_ids
with_seat_ids-Goes d [] = Goes-pure [] (λ w e. (refl, e))
with_seat_ids-Goes d (row ∷ rows) =
    Goes-bind (λ ids w. (ids ≡ links_of row.id d.reservation_seats) × (w.db ≡ d)) _ _
      (Goes-wrapping _ _ (
        Goes-query _
          (λ w e. (_, refl, (ap (λ (k : Db). links_of row.id k.reservation_seats) e, e)))))
      λ ids.
        Goes-bind _ _ _
          (Goes-with (ids ≡ links_of row.id d.reservation_seats) _ (with_seat_ids-Goes d rows))
          λ rest. Goes-pure _ (λ w (is, (more, e)). (rw (is, more) refl, e))

pub get_expired_pending-Goes :
    (expire_after : ℕ) (w : World)
    → Goes
        (λ v. v ≡ w)
        (get_expired_pending expire_after)
        (λ rs v.
          (rs
            ≡ entities w.db (
                select_where
                  (is_old_pending (timestamp (w.env.now w.at - expire_after)))
                  w.db.reservations))
          × (v.db ≡ w.db))
unfolding get_expired_pending
get_expired_pending-Goes expire_after w =
    Goes-bind (λ now v. (now ≡ w.env.now w.at) × (v.db ≡ w.db)) _ _
      (Goes-clock (λ v e. rw e (refl, refl)))
      λ now.
        Goes-bind
          (λ rows v.
            (rows
              ≡ select_where (is_old_pending (timestamp (w.env.now w.at - expire_after)))
                  w.db.reservations)
            × (v.db ≡ w.db))
          _ _ (Goes-wrapping _ _ (Goes-query _ (λ v (is, e). (_, refl, (rw (is, e) refl, e)))))
          λ rows.
            Goes-mono _ (λ rs v (is, (more, e)). (more ∙ ap (entities w.db) is, e))
              (Goes-with
                (rows
                  ≡ select_where (is_old_pending (timestamp (w.env.now w.at - expire_after)))
                      w.db.reservations)
                _ (with_seat_ids-Goes w.db rows))
