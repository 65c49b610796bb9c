-- ===== src/Application/ReservationService/Expiry.antt =====
-- CancelExpiredReservations of internal/application/reservation_service.go and `Consistent`.
use go_event_ticket_reservat.Prelude.{ℕ, ◌-◌, String, ◌≡◌, subst, sym, ◌∙◌, List, [], ◌∷◌}
use go_event_ticket_reservat.Prelude.Tables.{select_where, contains}
use go_event_ticket_reservat.Errors.{ok}
use go_event_ticket_reservat.Domain.Reservation
use go_event_ticket_reservat.Domain.Reservation.{Reservation, pending, cancelled}
use go_event_ticket_reservat.World.Rows.{Db, ReservationRow}
use go_event_ticket_reservat.World.Exec.{pure, attempt, ◌>>=◌}
use go_event_ticket_reservat.World.Logic.{
  Reads, Keeps, Reads-pure, Reads-lift, Reads-query, Reads-wrapping, Reads-mono, Reads-time_now,
  Reads-then, Keeps-read, Keeps-own, Keeps-weaken,
}
use go_event_ticket_reservat.Postgres.Timestamp.{timestamp}
use go_event_ticket_reservat.Postgres.Tx.Rules.{
  Safe-bind, Safe-commit_last, Keeps-plain_transaction,
}
use go_event_ticket_reservat.Postgres.Seats.{released_row}
use go_event_ticket_reservat.Postgres.Reservations.{
  links_of, to_entity, is_old_pending, with_seat_ids, get_expired_pending,
}
use go_event_ticket_reservat.Booking.{Consistent}
use go_event_ticket_reservat.Booking.Finish.{ReadFrom-Names, release-Consistent}
use go_event_ticket_reservat.Booking.Moves.{
  Touched, Updated, Moved-then, release_seats-Does, update-Does,
}
use go_event_ticket_reservat.Booking.Pending.{
  Ready, Apart, AllReady, AllReady-moved, entities, AllReady-expired,
}
use go_event_ticket_reservat.Application.ReservationService.{
  cancel_expired, cancel_each, cancel_expired_reservations,
}
use go_event_ticket_reservat.Application.ReservationService.Finish.{get_seat_ids-Reads, cancel_lem}

entity_cons :
    (d : Db) (row : ReservationRow) (rows : List ReservationRow) (rs : List Reservation)
    (ids : List String) (rest : List Reservation)
    → ids ≡ links_of row.id d.reservation_seats
    → rest ≡ entities d rows
    → rs ≡ to_entity row ids ∷ rest
    → rs ≡ entities d (row ∷ rows)
entity_cons d row rows rs ids rest links more is = rw (← links, ← more) is

with_seat_ids-Reads :
    (rows : List ReservationRow) → Reads (with_seat_ids rows) (λ rs d. rs ≡ entities d rows)
unfolding with_seat_ids
with_seat_ids-Reads [] = Reads-pure []
with_seat_ids-Reads (row ∷ rows) =
    Reads-mono _ (λ rs d h. entity_cons d row rows rs h.0 h.2.0 h.1 h.2.1 h.2.2)
      (Reads-then _ _ (get_seat_ids-Reads row.id)
        λ ids. Reads-then _ _ (with_seat_ids-Reads rows) λ rest. Reads-pure _)

-- What is kept while the reservations `rest` are still to be cancelled
abbrev pub Waiting : List Reservation → Db → Type 0
Waiting rest d = Consistent d × AllReady d rest

cancelled_from :
    (d : Db) (now : ℕ) (res done : Reservation)
    → Ready d res
    → Reservation.cancel now res ≡ ok done
    → Ready d done
cancelled_from d now res done (row, from) e =
    let (is, same, seats, after) = cancel_lem now res done e in
    (
      row,
      record {
        found = rw same from.found;
        is_pending = from.is_pending;
        seat_ids = rw same (seats ∙ from.seat_ids);
      },
    )

after_cancel :
    (res done : Reservation) (rest : List Reservation) (now : ℕ) (d d₁ d' : Db)
    → Apart res.id rest
    → Ready d res
    → Reservation.cancel now res ≡ ok done
    → Waiting rest d
    → (at : ℕ) × Touched (λ s. contains done.seat_ids s.id) (released_row at) d d₁
    → Updated done d₁ d'
    → Waiting rest d'
after_cancel res done rest now d d₁ d' apart ready e (good, others) (at, t) u =
    let (is, same, seats, after) = cancel_lem now res done e in
    let (row, from) = cancelled_from d now res done ready e in
    let m = Moved-then done (λ s. contains done.seat_ids s.id) (released_row at) d d₁ d' t u in
    (
      release-Consistent done row at d d' good (ReadFrom-Names d row done from) from.is_pending m
          after,
      AllReady-moved m rest (subst (λ k. Apart k rest) (sym same) apart) others,
    )

pub cancel_expired-Waiting :
    (res : Reservation) (rest : List Reservation)
    → Apart res.id rest
    → Keeps (λ d. Ready d res) (Waiting rest) (cancel_expired res)
unfolding cancel_expired
cancel_expired-Waiting res rest apart = Keeps-read _ _ Reads-time_now λ now.
    Keeps-read _ _ (Reads-lift _) λ done. Keeps-own _ (
      Keeps-plain_transaction _ (Waiting rest) _ (
        Safe-bind _ _ (release_seats-Does done.seat_ids) λ _ d h.
          Safe-bind _ _ (update-Does done) λ _ d₁ t.
            Safe-commit_last _ _
              (λ d' u. after_cancel res done rest now d d₁ d' apart h.0.0.0 h.0.1 h.1 t u)))

cancel_each-Consistent :
    (rs : List Reservation) (n : ℕ) → Keeps (λ d. AllReady d rs) Consistent (cancel_each rs n)
unfolding cancel_each ◌>>=◌ attempt pure
cancel_each-Consistent [] n = record { run = λ w r c. c }
cancel_each-Consistent (res ∷ rest) n = record {
  run = λ w r c.
      let after = (cancel_expired-Waiting res rest r.1).run w r.0 (c, r.2) in
      (cancel_each-Consistent rest _).run (cancel_expired res w).1 after.1 after.0;
}

old_rows :
    (d : Db) (cutoff : ℕ) (rows : List ReservationRow) (rs : List Reservation)
    → ok (select_where (is_old_pending cutoff) d.reservations) ≡ ok rows
    → rs ≡ entities d rows
    → rs ≡ entities d (select_where (is_old_pending cutoff) d.reservations)
old_rows d cutoff rows rs e is =
    let same : rows ≡ select_where (is_old_pending cutoff) d.reservations = cc in
    subst (λ k. rs ≡ entities d k) same is

get_expired_pending-Reads :
    (expire_after : ℕ)
    → Reads (get_expired_pending expire_after) (λ rs d.
      (cutoff : ℕ) × (rs ≡ entities d (select_where (is_old_pending cutoff) d.reservations)))
unfolding get_expired_pending
get_expired_pending-Reads expire_after =
    Reads-mono _
      (λ rs d h.
        let cutoff = timestamp (h.0 - expire_after) in
        (cutoff, old_rows d cutoff h.2.0 rs h.2.1.1 h.2.2))
      (Reads-then _ _ Reads-time_now
        λ now. Reads-then _ _ (Reads-wrapping _ _ (Reads-query _)) λ rows. with_seat_ids-Reads rows)

pub cancel_expired_reservations-Consistent :
    (expire_after : ℕ) → Keeps (λ d. Unit) Consistent (cancel_expired_reservations expire_after)
unfolding cancel_expired_reservations
cancel_expired_reservations-Consistent expire_after =
    Keeps-read _ _ (Reads-wrapping _ _ (get_expired_pending-Reads expire_after)) λ rs. Keeps-own _ (
      Keeps-weaken _ (λ d h. subst (AllReady d) (sym h.0.1.1) (AllReady-expired d h.0.1.0 h.1))
        (cancel_each-Consistent rs 0))
