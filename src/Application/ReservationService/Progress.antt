-- ===== src/Application/ReservationService/Progress.antt =====
-- CancelReservation of internal/application/reservation_service.go where the driver does not fail.
use go_event_ticket_reservat.Prelude.{
  ℕ, String, ◌≡◌, refl, sym, subst, Bool-cases, inl, inr, true, some, List, [], ◌∷◌, not, nat_beq,
  arith, eq_iff,
}
use go_event_ticket_reservat.Prelude.Tables.{count_where}
use go_event_ticket_reservat.Prelude.Tables.Laws.{find_none, find_passes}
use go_event_ticket_reservat.Errors.{Result, ok, err}
use go_event_ticket_reservat.Domain.Reservation
use go_event_ticket_reservat.Domain.Reservation.{Reservation, pending, cancelled}
use go_event_ticket_reservat.World.Rows.{Db, World, ReservationRow}
use go_event_ticket_reservat.World.Exec.{pure, attempt, lift, send, ◌>>=◌}
use go_event_ticket_reservat.World.Progress.{
  Working, Gone, Goes, Goes-pure, Goes-lift, Goes-map_error, Goes-wrapping, Goes-deferred,
  Goes-query, Goes-exec_tx, Goes-bind, Goes-time_now, Goes-require, Goes-count,
}
use go_event_ticket_reservat.Postgres.Tx.{begin, commit, rollback, unwrap_tx}
use go_event_ticket_reservat.Postgres.Seats
use go_event_ticket_reservat.Postgres.Reservations
use go_event_ticket_reservat.Postgres.Reservations.{row_has_id, to_entity}
use go_event_ticket_reservat.Redis.Cache
use go_event_ticket_reservat.Booking.{reservation_at}
use go_event_ticket_reservat.Application.ReservationService.{
  ReservationService, invalidate_seat_cache, store_cancelled, cancel_reservation,
}
use go_event_ticket_reservat.Application.ReservationService.Ended.{
  Finished, names, cancel_reservation-Outcome,
}
use go_event_ticket_reservat.World.Logic.{Ends}
use go_event_ticket_reservat.Postgres.Seats.{released_row}

-- The reservation has a row.
abbrev pub Known : String → Db → Type 0
Known id d = (row : ReservationRow) × (reservation_at d id ≡ some row)

abbrev pub Open : (Db → Type 0) → World → Type 0
Open P w = (d : Db) × (w.tx ≡ some d) × P d

pub begin-Goes : (P : Db → Type 0) → Goes (λ w. P w.db) begin (λ _. Open P)
unfolding begin
begin-Goes P = record { run = λ w k p. rw (k w.at) (k, (w.db, refl, p)) }

pub commit-Goes : (P : Db → Type 0) → Goes (Open P) commit (λ _ w. Unit)
unfolding commit
commit-Goes P = record { run = λ w k (d, is_open, p). rw (is_open, k w.at) (k, tt) }

pub unwrap_tx-Goes : (P : Db → Type 0) → Goes (Open P) unwrap_tx (λ _. Open P)
unfolding unwrap_tx
unwrap_tx-Goes P = record { run = λ w k (d, is_open, p). rw is_open (k, (d, refl, p)) }

pub release_seats-Goes :
    (id : String) (sids : List String)
    → Goes (Open (Known id)) (Seats.release_seats sids) (λ _. Open (Known id))
unfolding Seats.release_seats
release_seats-Goes id [] = Goes-pure tt (λ w p. p)
release_seats-Goes id (sid ∷ sids) =
    Goes-bind _ _ _ (unwrap_tx-Goes (Known id))
      λ _. Goes-exec_tx _ (λ fresh now d known. (tt, _, refl, known))

affected :
    (id : String) (d : Db)
    → Known id d
    → not (nat_beq (count_where (row_has_id id) d.reservations) 0) ≡ true
affected id d (row, e) =
    elim (Bool-cases (nat_beq (count_where (row_has_id id) d.reservations) 0)) [
      | inr b ↦ rw b refl
      | inl b ↦ let gone = find_none (row_has_id id) d.reservations (ground (arith, b)) in absurd cc
    ]

pub update-Goes :
    (r : Reservation) → Goes (Open (Known r.id)) (Reservations.update r) (λ _. Open (λ d. Unit))
unfolding Reservations.update
update-Goes r = Goes-bind _ _ _ (unwrap_tx-Goes (Known r.id)) λ _.
    Goes-bind (λ rows. Open (λ d. not (nat_beq rows 0) ≡ true)) _ _
      (Goes-wrapping _ _
        (Goes-exec_tx _ (λ fresh now d known. (_, _, refl, affected r.id d known))))
      λ rows. Goes-require _ _ (λ w (d, is_open, some_row). (some_row, (d, is_open, tt)))

pub invalidate-Goes :
    (s : ReservationService) (id : String)
    → Goes (λ w. Unit) (invalidate_seat_cache s id) (λ _ w. Unit)
unfolding invalidate_seat_cache Cache.invalidate pure attempt send lift ◌>>=◌
invalidate-Goes s id = elim (Bool-cases s.seat_cache) [
  | inl b ↦ rw b (record { run = λ w k p. (k, tt) })
  | inr b ↦ rw b (record { run = λ w k p. (k, tt) })
]

store_cancelled-Goes :
    (s : ReservationService) (r : Reservation)
    → Goes (λ w. Known r.id w.db) (store_cancelled s r) (λ _ w. Unit)
unfolding store_cancelled rollback
store_cancelled-Goes s r = Goes-bind _ _ _ (Goes-wrapping _ _ (begin-Goes (Known r.id))) λ _.
    Goes-deferred {Q = λ a w. Unit} _ _
      (Goes-bind _ _ _ (release_seats-Goes r.id r.seat_ids) λ _.
        Goes-bind _ _ _ (update-Goes r) λ _.
          Goes-bind _ _ _ (Goes-wrapping _ _ (commit-Goes (λ d. Unit))) λ _.
            Goes-bind _ _ _ (Goes-count _)
              λ _. Goes-bind _ _ _ (invalidate-Goes s r.event_id) λ _. Goes-pure r (λ w p. tt))
      (λ a w k q. (k, tt))

-- The reservation that is read is pending and has a row.
abbrev pub Pending : Reservation → World → Type 0
Pending r w = (r.status ≡ pending) × Known r.id w.db

pub own_id :
    (id : String) (d : Db) (row : ReservationRow) → reservation_at d id ≡ some row → row.id ≡ id
own_id id d row e = (eq_iff row.id id).0 (find_passes (row_has_id id) d.reservations row e)

get_by_id-Goes :
    (id : String)
    → Goes
        (λ w. (row : ReservationRow) × (reservation_at w.db id ≡ some row) × (row.status ≡ pending))
        (Reservations.get_by_id id)
        Pending
unfolding Reservations.get_by_id Reservations.get_seat_ids to_entity
get_by_id-Goes id =
    Goes-bind (λ row w. (row.status ≡ pending) × (reservation_at w.db id ≡ some row)) _ _
      (Goes-map_error _ _ (Goes-query _ (λ w (row, found, is). (row, rw found refl, (is, found)))))
      λ row.
        Goes-bind (λ ids w. (row.status ≡ pending) × (reservation_at w.db id ≡ some row)) _ _
          (Goes-wrapping _ _ (Goes-query _ (λ w known. (_, refl, known))))
          λ ids. Goes-pure _ (λ w (is, found). (
            is,
            (
              row,
              subst (λ k. reservation_at w.db k ≡ some row) (sym (own_id id w.db row found)) found,
            ),
          ))

pub cancel_runs :
    (now : ℕ) (r : Reservation)
    → r.status ≡ pending
    → Reservation.cancel now r ≡ ok (record r { status = cancelled; updated_at = now })
unfolding Reservation.cancel
cancel_runs now r is = rw is refl

cancel_reservation-Goes :
    (s : ReservationService) (id : String)
    → Goes
        (λ w. (row : ReservationRow) × (reservation_at w.db id ≡ some row) × (row.status ≡ pending))
        (cancel_reservation s id)
        (λ _ w. Unit)
unfolding cancel_reservation
cancel_reservation-Goes s id = Goes-bind _ _ _ (get_by_id-Goes id) λ r.
    Goes-bind (λ _. Pending r) _ _ (Goes-time_now (λ w n p. p))
      λ now.
        Goes-bind (λ done w. Known done.id w.db) _ _
          (Goes-lift _ (λ w p.
            (record r { status = cancelled; updated_at = now }, cancel_runs now r p.0, p.1)))
          λ done. store_cancelled-Goes s done

-- Where the driver does not fail, CancelReservation of a reservation that is pending succeeds: its row
-- becomes cancelled and all its seats available, whatever Redis does.
pub cancel_reservation-Succeeds :
    (s : ReservationService) (id : String) (w : World) (row : ReservationRow)
    → Working w
    → reservation_at w.db id ≡ some row
    → row.status ≡ pending
    → (done : Reservation) × ((cancel_reservation s id w).0 ≡ ok done)
      × (done.status ≡ cancelled)
      × Finished id names released_row w.db done (cancel_reservation s id w).1.db
cancel_reservation-Succeeds s id w row works found is =
    succeeded (cancel_reservation s id w).0 (cancel_reservation s id w).1
      ((cancel_reservation-Goes s id).run w works (row, found, is))
      (cancel_reservation-Outcome s id w)
  where
    succeeded :
        (r : Result Reservation) (w' : World)
        → Gone r w' (λ _ w. Unit)
        → Ends r w'
            (λ res w'. (res.status ≡ cancelled) × Finished id names released_row w.db res w'.db)
            (λ w'. w'.db ≡ w.db)
        → (done : Reservation) × (r ≡ ok done)
          × (done.status ≡ cancelled)
          × Finished id names released_row w.db done w'.db
    succeeded (ok done) w' g h = (done, refl, h.0, h.1)
    succeeded (err e) w' g h = absurd g
