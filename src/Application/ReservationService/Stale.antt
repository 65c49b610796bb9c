-- ===== src/Application/ReservationService/Stale.antt =====
-- CancelReservation and CancelExpiredReservations read the reservation before their transaction.
-- What its transaction does if others have changed the database since.
use go_event_ticket_reservat.Prelude.{
  Option-cases, arith, Bool, ℕ, ◌≡◌, ◌≢◌, refl, subst, sym, ap, length, ◌∙◌, String, some, none,
  true, false, eq_iff, Bool-cases, inl, inr,
}
use go_event_ticket_reservat.Prelude.Tables.{contains, count_where}
use go_event_ticket_reservat.Prelude.Tables.Found.{Distinct, count-contains}
use go_event_ticket_reservat.Prelude.Tables.Laws.{find-update, find_passes}
use go_event_ticket_reservat.Errors.{Result, ok, err}
use go_event_ticket_reservat.Domain.Seat
use go_event_ticket_reservat.Domain.Seat.{Seat}
use go_event_ticket_reservat.Domain.Reservation.{Reservation, confirmed}
use go_event_ticket_reservat.World.Rows.{Db, World}
use go_event_ticket_reservat.World.Progress.{Working, Gone}
use go_event_ticket_reservat.Postgres.Seats.{has_id, released_row, can_confirm, confirmed_row}
use go_event_ticket_reservat.Postgres.Reservations.{row_has_id, updated_row}
use go_event_ticket_reservat.Booking.{
  Consistent, Books, Held, Books-Held, seat_at, linked, reservation_at,
}
use go_event_ticket_reservat.Booking.Finish.{Moved}
use go_event_ticket_reservat.Application.ReservationService.{
  ReservationService, store_cancelled, store_confirmed,
}
use go_event_ticket_reservat.Application.ReservationService.Ended.{
  names, store_cancelled-Settles, store_confirmed-WroteAll, Ends-ok,
}
use go_event_ticket_reservat.Application.ReservationService.Confirming.{store_confirmed-Goes}

-- A seat that no reservation holds
pub Freed : Db → String → Type 0
Freed d sid =
    (t : Seat) × (seat_at d sid ≡ some t) × (t.status ≡ Seat.available) × (t.reserved_by ≡ none)

module _ (res : Reservation) (d d' : Db) (rid sid : String) (b : Books d rid sid) where
  freed :
      (now : ℕ) (s : Seat)
      → seat_at d sid ≡ some s
      → contains res.seat_ids sid ≡ true
      → Moved res (names res.seat_ids) (released_row now) d d'
      → seat_at d' sid ≡ some (released_row now s)
  freed now s at c m =
      let here : s.id ≡ sid = (eq_iff s.id sid).0 (find_passes (has_id sid) d.seats s at) in
      let named : names res.seat_ids s ≡ true =
        subst (λ k. contains res.seat_ids k ≡ true) (sym here) c in
      rw
        (
          m.seats,
          find-update (has_id sid) (names res.seat_ids) (released_row now) d.seats (λ t. refl),
          at,
          named,
        )
        refl

  spared : res.id ≢ rid → row_has_id res.id b.row ≡ false
  spared other =
      let here : b.row.id ≡ rid =
        (eq_iff b.row.id rid).0 (find_passes (row_has_id rid) d.reservations b.row b.found) in
      elim (Bool-cases (row_has_id res.id b.row)) [
        | inr e ↦ e
        | inl e ↦ absurd (other (sym ((eq_iff b.row.id res.id).0 e) ∙ here))
      ]

  kept :
      {touch : Seat → Bool} {f : Seat → Seat}
      → res.id ≢ rid
      → Moved res touch f d d'
      → Books d' rid sid
  kept other m = record {
    row = b.row;
    status = b.status;
    is_linked = rw m.links b.is_linked;
    found =
        rw
          (
            m.rows,
            find-update (row_has_id rid) (row_has_id res.id) (updated_row res) d.reservations
                (λ r. refl),
            b.found,
            spared other,
          )
          refl;
    active = b.active;
  }

-- A cancellation of a reservation that was read earlier, in a consistent database where another
-- active reservation holds one of its seats by now: if it succeeds, the seat is free though the
-- other reservation is still active. (The reservation that was read needs not be pending any more.)
pub store_cancelled-Freed :
    (s : ReservationService) (res done : Reservation) (w : World) (rid sid : String)
    → Consistent w.db
    → Books w.db rid sid
    → res.id ≢ rid
    → contains res.seat_ids sid ≡ true
    → (store_cancelled s res w).0 ≡ ok done
    → Books (store_cancelled s res w).1.db rid sid × Freed (store_cancelled s res w).1.db sid
unfolding Freed
store_cancelled-Freed s res done w rid sid c b other named ran =
    let (_, (now, m)) =
      Ends-ok _ (store_cancelled s res w).1 done _ _ ran ((store_cancelled-Settles s res).run w) in
    let (seat, at, _, _) = Books-Held c b in
    let after = (store_cancelled s res w).1.db in
    (
      kept res w.db after rid sid b other m,
      (released_row now seat, freed res w.db after rid sid b now seat at named m, refl, refl),
    )

Gone-ok : {A : Type 0} (r : Result A) (w : World) (a : A) → Gone r w (λ b _. b ≡ a) → r ≡ ok a
Gone-ok (ok b) w a g = ap ok g.1
Gone-ok (err e) w a g = absurd g

-- The reservation itself, once it is confirmed
confirmed-Books :
    (res : Reservation) (touch : Seat → Bool) (f : Seat → Seat) (d d' : Db) (sid : String)
    → Consistent d
    → linked d res.id sid ≡ true
    → res.status ≡ confirmed
    → Moved res touch f d d'
    → Books d' res.id sid
confirmed-Books res touch f d d' sid c lk done m = elim (Option-cases (reservation_at d res.id)) [
  | inl e ↦ absurd (ground (arith, c.links_known res.id sid lk, e))
  | inr (row, e) ↦
      let here = find_passes (row_has_id res.id) d.reservations row e in
      record {
        row = updated_row res row;
        status = Seat.confirmed;
        is_linked = rw m.links lk;
        found =
            rw
              (
                m.rows,
                find-update (row_has_id res.id) (row_has_id res.id) (updated_row res) d.reservations
                    (λ r. refl),
                e,
                here,
              )
              refl;
        active = rw done refl;
      }
]

module _ (res : Reservation) (d d' : Db) (rid sid : String) (b : Books d rid sid) where
  taken :
      (now : ℕ) (s : Seat)
      → seat_at d sid ≡ some s
      → s.status ≡ Seat.reserved
      → contains res.seat_ids sid ≡ true
      → Moved res (can_confirm res.seat_ids) (confirmed_row now) d d'
      → seat_at d' sid ≡ some (confirmed_row now s)
  taken now s at is c m =
      let here : s.id ≡ sid = (eq_iff s.id sid).0 (find_passes (has_id sid) d.seats s at) in
      let named : can_confirm res.seat_ids s ≡ true = rw (here, c, is) refl in
      rw
        (
          m.seats,
          find-update (has_id sid) (can_confirm res.seat_ids) (confirmed_row now) d.seats
              (λ t. refl),
          at,
          named,
        )
        refl

-- The seat is there and reserved, whoever has reserved it.
abbrev pub Reserved : Db → String → Type 0
Reserved d k = (s : Seat) × (seat_at d k ≡ some s) × (s.status ≡ Seat.reserved)

-- Where the driver does not fail, the transaction of a confirmation of a reservation that was read
-- earlier succeeds in a consistent database, if its seats are different and reserved by now by
-- anyone, also by another active reservation: then both reservations are active and have the seat,
-- and it is confirmed though it names the other.
pub store_confirmed-Doubles :
    (res : Reservation) (w : World) (rid sid : String)
    → Working w
    → Consistent w.db
    → res.status ≡ confirmed
    → linked w.db res.id sid ≡ true
    → contains res.seat_ids sid ≡ true
    → Distinct res.seat_ids
    → ((k : String) → contains res.seat_ids k ≡ true → Reserved w.db k)
    → Books w.db rid sid
    → res.id ≢ rid
    → ((store_confirmed res w).0 ≡ ok res)
      × Books (store_confirmed res w).1.db res.id sid
      × Books (store_confirmed res w).1.db rid sid
      × Held (store_confirmed res w).1.db sid rid Seat.confirmed
store_confirmed-Doubles res w rid sid works c is lk named distinct reserved b other =
    elim (Option-cases (reservation_at w.db res.id)) [
      | inl e ↦ absurd (ground (arith, c.links_known res.id sid lk, e))
      | inr (row, e) ↦
          let after = (store_confirmed res w).1.db in
          let full : count_where (can_confirm res.seat_ids) w.db.seats ≡ length res.seat_ids =
            count-contains (λ (s : Seat). s.id) (λ s. Seat.status_beq s.status Seat.reserved)
              res.seat_ids w.db.seats c.seats_unique distinct
              (λ k h. let (s, at, status) = reserved k h in (s, at, rw status refl)) in
          let ran : (store_confirmed res w).0 ≡ ok res = Gone-ok _ _ res (
            (store_confirmed-Goes res.id w.db row e w.env res refl full).run w works
              (refl, refl)) in
          let (_, (_, (now, m))) =
            Ends-ok _ (store_confirmed res w).1 res _ _ ran
              ((store_confirmed-WroteAll res).run w) in
          let (seat, at, status) = reserved sid named in
          let (seat', at', _, by) = Books-Held c b in
          (
            ran,
            confirmed-Books res _ _ w.db after sid c lk is m,
            kept res w.db after rid sid b other m,
            (
              confirmed_row now seat,
              taken res w.db after rid sid b now seat at status named m,
              refl,
              cc (at, at', by),
            ),
          )
    ]
