-- ===== src/Application/ReservationService/Granted/Steps.antt =====
-- The statements of CreateReservation of internal/application/reservation_service.go where the driver
-- does not fail.
use go_event_ticket_reservat.Prelude.{
  ℕ, String, ◌≡◌, refl, sym, ap, subst, ◌∙◌, true, false, Bool-cases, inl, inr, none, some, List,
  [], ◌∷◌, ◌++◌, ◌==◌, eq_iff, length, is_some, nat_beq, arith,
}
use go_event_ticket_reservat.Prelude.Int.{ℤ, ◌+ℤ◌}
use go_event_ticket_reservat.Prelude.Tables.{find_where, count_where, contains}
use go_event_ticket_reservat.Prelude.Tables.Laws.{find-append}
use go_event_ticket_reservat.Prelude.Tables.Found.{Distinct}
use go_event_ticket_reservat.Errors.{Result, ok}
use go_event_ticket_reservat.Domain.Seat.{Seat, is_available}
use go_event_ticket_reservat.Domain.Reservation.{Reservation}
use go_event_ticket_reservat.World.Rows.{Db, Env, EventRow, World}
use go_event_ticket_reservat.World.Exec.{Statement, query, exec_tx}
use go_event_ticket_reservat.World.Progress.{
  Goes, Goes-pure, Goes-map_error, Goes-wrapping, Goes-deferred, Goes-query, Goes-exec_tx,
  Goes-bind, Goes-require, Goes-count,
}
use go_event_ticket_reservat.Postgres.Tx.{begin, rollback, unwrap_tx}
use go_event_ticket_reservat.Postgres.Seats
use go_event_ticket_reservat.Postgres.Seats.{can_reserve}
use go_event_ticket_reservat.Postgres.Reservations
use go_event_ticket_reservat.Postgres.Reservations.{
  row_has_id, row_has_key, is_link, insert_reservation, insert_link, insert_links,
}
use go_event_ticket_reservat.Booking.{Consistent}
use go_event_ticket_reservat.Application.ReservationService.{
  ReservationService, check_seats, lookup, store_reservation,
}
use go_event_ticket_reservat.Application.ReservationService.Progress.{
  Open, commit-Goes, unwrap_tx-Goes, invalidate-Goes,
}

-- The environment and the database are these.
abbrev pub At : Env → Db → World → Type 0
At e d w = (w.env ≡ e) × (w.db ≡ d)

abbrev TxAt : Env → Db → World → Type 0
TxAt e d w = (w.env ≡ e) × (w.tx ≡ some d)

module _ {A : Type 0} (e : Env) (d : Db) where
  pub read-Goes :
      (f : Env → Db → Result A) (a : A)
      → f e d ≡ ok a
      → Goes (At e d) (query f) (λ x w. (x ≡ a) × At e d w)
  read-Goes f a is = Goes-query f (λ w (same, here). (a, rw (same, here) is, (refl, (same, here))))

  insert-Goes :
      (f : Statement A) (P : A → Db → Type 0)
      → ((n : ℕ) → (a : A) × (d' : Db) × (f (e.uuid n) (e.db_now n) d ≡ ok (a, d')) × P a d')
      → Goes (TxAt e d) (exec_tx f) (λ a. Open (P a))
  unfolding exec_tx
  insert-Goes f P h = record {
    run = λ w k (same, is_open).
        let (a, d', is, p) = h w.at in
        rw (is_open, k w.at, same, is)
          ((subst (λ (v : Env). (n : ℕ) → v.fails n ≡ false) same k), (d', refl, p));
  }

-- The row of the reservation is there, and none of the seats is linked to it yet.
record Linkable (d : Db) (id : String) (sids : List String) (d' : Db) : Type 0 where
  row : is_some (find_where (row_has_id id) d'.reservations) ≡ true
  seats : d'.seats ≡ d.seats
  no_link :
      (sid : String)
      → contains sids sid ≡ true
      → find_where (is_link id sid) d'.reservation_seats ≡ none

unfoldable pub SeatsOf : Db → List String → Type 0
SeatsOf d sids =
    (sid : String)
    → contains sids sid ≡ true
    → is_some (find_where (λ (s : Seat). s.id == sid) d.seats) ≡ true

-- A link of another seat is as it was.
other_link :
    (id sid k : String) (ls : List (String × String))
    → (sid == k) ≡ false
    → find_where (is_link id k) ls ≡ none
    → find_where (is_link id k) (ls ++ (id, sid) ∷ []) ≡ none
other_link id sid k ls other gone = rw (find-append, gone) (ground (arith, eq_iff id id))

link-Linkable :
    (d : Db) (id sid : String) (sids : List String) (d' : Db)
    → contains sids sid ≡ false
    → is_some (find_where (λ (s : Seat). s.id == sid) d.seats) ≡ true
    → Linkable d id (sid ∷ sids) d'
    → (a : Unit {0}) × (d'' : Db) × (insert_link id sid d' ≡ ok (a, d'')) × Linkable d id sids d''
unfolding insert_link
link-Linkable d id sid sids d' new seat h = (
  tt,
  record d' { reservation_seats = d'.reservation_seats ++ (id, sid) ∷ [] },
  rw (h.no_link sid (ground (arith, eq_iff sid sid)), h.row, h.seats, seat) refl,
  record {
    row = h.row;
    seats = h.seats;
    no_link = λ k is.
        other_link id sid k d'.reservation_seats
          (elim (Bool-cases (sid == k)) [
            | inl e ↦
                let again = subst (λ z. contains sids z ≡ true) (sym ((eq_iff sid k).0 e)) is in
                absurd (cc (sym new ∙ again))
            | inr e ↦ e
          ])
          (h.no_link k (ground (arith, is)));
  },
)

insert_links-Goes :
    (d : Db) (id : String) (sids : List String)
    → Distinct sids
    → SeatsOf d sids
    → Goes (Open (Linkable d id sids)) (insert_links id sids) (λ _. Open (λ d'. d'.seats ≡ d.seats))
unfolding insert_links SeatsOf
insert_links-Goes d id [] distinct seats =
    Goes-pure tt (λ w (d', is_open, h). (d', is_open, h.seats))
insert_links-Goes d id (sid ∷ sids) (new, distinct) seats =
    Goes-bind (λ _. Open (Linkable d id sids)) _ _
      (Goes-wrapping _ _ (
        Goes-exec_tx _ (λ fresh now d' h.
          link-Linkable d id sid sids d' new (seats sid (ground (arith, eq_iff sid sid))) h)))
      λ _. insert_links-Goes d id sids distinct (λ k is. seats k (ground (arith, is)))

module _ (e : Env) (d : Db) (c : Consistent d) (r : Reservation)
    (new_id : (n : ℕ) → find_where (row_has_id (e.uuid n 0)) d.reservations ≡ none)
    (new_key : find_where (row_has_key r.idempotency_key) d.reservations ≡ none)
    (event : is_some (find_where (λ (v : EventRow). v.id == r.event_id) d.events) ≡ true)
    (distinct : Distinct r.seat_ids) (seats : SeatsOf d r.seat_ids) where
  no_old_link :
      (id sid : String)
      → find_where (row_has_id id) d.reservations ≡ none
      → find_where (is_link id sid) d.reservation_seats ≡ none
  no_old_link id sid new =
      elim (Bool-cases (is_some (find_where (is_link id sid) d.reservation_seats))) [
        | inl e ↦ absurd (cc (sym (ap is_some new) ∙ c.links_known id sid e))
        | inr e ↦ ground (arith, e)
      ]

  insert-Linkable :
      (n : ℕ)
      → (id : String) × (d' : Db) × (insert_reservation (e.uuid n 0) r d ≡ ok (id, d'))
        × Linkable d id r.seat_ids d'
  unfolding insert_reservation
  insert-Linkable n =
      let id = e.uuid n 0 in
      (
        id,
        record d { reservations = d.reservations ++ Reservations.reservation_row id r ∷ [] },
        rw (new_id n, new_key, event) refl,
        record {
          row = rw (find-append, new_id n) (ground (arith, eq_iff id id));
          seats = refl;
          no_link = λ sid is. no_old_link id sid (new_id n);
        },
      )

  pub create-Goes :
      Goes (TxAt e d) (Reservations.create r) (λ stored. Open (λ d'. d'.seats ≡ d.seats))
  unfolding Reservations.create unwrap_tx
  create-Goes =
      Goes-bind (λ _. TxAt e d) _ _
        (record { run = λ w k (same, is_open). rw is_open (k, (same, refl)) })
        λ _.
          Goes-bind _ _ _
            (Goes-map_error _ _ (
              insert-Goes e d (λ fresh now d. insert_reservation (fresh 0) r d)
                (λ id. Linkable d id r.seat_ids) insert-Linkable))
            λ id.
              Goes-bind _ _ _ (insert_links-Goes d id r.seat_ids distinct seats)
                λ _. Goes-pure _ (λ w h. h)

reserve_seats-Goes :
    (d : Db) (ids : List String) (id : String)
    → count_where (can_reserve ids) d.seats ≡ length ids
    → Goes (Open (λ d'. d'.seats ≡ d.seats)) (Seats.reserve_seats ids id) (λ _. Open (λ d'. Unit))
unfolding Seats.reserve_seats
reserve_seats-Goes d [] id full = Goes-pure tt (λ w (d', is_open, h). (d', is_open, tt))
reserve_seats-Goes d (k ∷ ks) id full =
    Goes-bind _ _ _ (unwrap_tx-Goes (λ d'. d'.seats ≡ d.seats)) λ _.
      Goes-bind (λ rows. Open (λ d'. nat_beq rows (length (k ∷ ks)) ≡ true)) _ _
        (Goes-wrapping _ _
          (Goes-exec_tx _ (λ fresh now d' h. (_, _, refl, rw (h, full) (ground arith)))))
        λ rows. Goes-require _ _ (λ w (d', is_open, is). (is, (d', is_open, tt)))

pub store_reservation-Goes :
    (s : ReservationService) (e : Env) (d : Db) (r : Reservation)
    → Goes (TxAt e d) (Reservations.create r) (λ stored. Open (λ d'. d'.seats ≡ d.seats))
    → count_where (can_reserve r.seat_ids) d.seats ≡ length r.seat_ids
    → Goes (At e d) (store_reservation s r r.seat_ids) (λ _ w. Unit)
unfolding store_reservation rollback begin
store_reservation-Goes s e d r creates full =
    Goes-bind (λ _. TxAt e d) _ _
      (Goes-wrapping _ _
        (record { run = λ w k (same, here). rw (k w.at) (k, (same, ap some here)) }))
      λ _.
        Goes-deferred {Q = λ a w. Unit} _ _
          (Goes-bind _ _ _ creates λ stored.
            Goes-bind _ _ _ (reserve_seats-Goes d r.seat_ids stored.id full) λ _.
              Goes-bind _ _ _ (Goes-wrapping _ _ (commit-Goes (λ d. Unit))) λ _.
                Goes-bind _ _ _ (Goes-count _) λ _.
                  Goes-bind _ _ _ (invalidate-Goes s stored.event_id)
                    λ _. Goes-pure stored (λ w p. tt))
          (λ a w k q. (k, tt))

pub check_seats-Goes :
    (e : Env) (d : Db) (m : List (String × Seat)) (ids : List String) (total : ℤ)
    → ((sid : String)
        → contains ids sid ≡ true
        → (s : Seat) × (lookup sid m ≡ some s) × (is_available s ≡ true))
    → Goes (At e d) (check_seats m ids total) (λ _. At e d)
unfolding check_seats
check_seats-Goes e d m [] total found = Goes-pure total (λ w h. h)
check_seats-Goes e d m (id ∷ ids) total found =
    let (s, is, free) = found id (ground (arith, eq_iff id id)) in
    Goes-bind (λ _. At e d) _ _ (rw (is, free) (Goes-pure s.price (λ w h. h)))
      λ price. check_seats-Goes e d m ids (total +ℤ price) (λ k h. found k (ground (arith, h)))
