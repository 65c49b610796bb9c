-- ===== src/Application/Cleaner/Rounds.antt =====
-- The loop of CancelExpiredReservations in internal/application/reservation_service.go where the
-- driver does not fail.
use go_event_ticket_reservat.Prelude.{
  ℕ, suc, ◌+◌, ◌≡◌, refl, sym, subst, ap, ◌∙◌, List, [], ◌∷◌, length, arith, String, true, some,
}
use go_event_ticket_reservat.Prelude.Tables.{count_where, contains}
use go_event_ticket_reservat.Domain.Seat
use go_event_ticket_reservat.Domain.Seat.{Seat}
use go_event_ticket_reservat.Errors.{Result, ok, err}
use go_event_ticket_reservat.Domain.Reservation.{Reservation, cancelled}
use go_event_ticket_reservat.World.Rows.{Db, World, ReservationRow}
use go_event_ticket_reservat.World.Exec.{attempt, ◌>>=◌, pure}
use go_event_ticket_reservat.World.Logic.{Ends}
use go_event_ticket_reservat.World.Progress.{
  Working, Gone, Goes, Goes-lift, Goes-deferred, Goes-bind, Goes-time_now,
}
use go_event_ticket_reservat.Postgres.Tx.{rollback}
use go_event_ticket_reservat.Booking.{Consistent, reservation_at, seat_at, contains-links_of}
use go_event_ticket_reservat.Booking.Finish.{ReadFrom}
use go_event_ticket_reservat.Booking.Pending.{AllReady}
use go_event_ticket_reservat.Application.ReservationService.{cancel_expired, cancel_each}
use go_event_ticket_reservat.Application.ReservationService.Expiry.{cancel_expired-Waiting}
use go_event_ticket_reservat.Application.ReservationService.Finish.{cancel_lem}
use go_event_ticket_reservat.Application.ReservationService.Progress.{
  Known, Pending, begin-Goes, commit-Goes, release_seats-Goes, update-Goes, cancel_runs,
}
use go_event_ticket_reservat.Application.ReservationService.Expired.{
  Expired, cancel_expired-Settles,
}
use go_event_ticket_reservat.Application.Cleaner.Swept.{Swept, Swept-now, Swept-moved, AllSwept}
use go_event_ticket_reservat.Application.Cleaner.Missed.{missed, missed-step, AllPending}

cancel_expired-Goes : (r : Reservation) → Goes (Pending r) (cancel_expired r) (λ _ w. Unit)
unfolding cancel_expired rollback
cancel_expired-Goes r =
    Goes-bind (λ _. Pending r) _ _ (Goes-time_now (λ w n p. p))
      λ now.
        Goes-bind (λ done w. Known done.id w.db) _ _
          (Goes-lift _ (λ w p.
            (record r { status = cancelled; updated_at = now }, cancel_runs now r p.0, p.1)))
          λ done. Goes-bind _ _ _ (begin-Goes (Known done.id)) λ _.
            Goes-deferred {Q = λ a w. Unit} _ _
              (Goes-bind _ _ _ (release_seats-Goes done.id done.seat_ids)
                λ _. Goes-bind _ _ _ (update-Goes done) λ _. commit-Goes (λ d. Unit))
              (λ a w k q. (k, tt))

-- What is known before a round over the list
pub record Due (cutoff : ℕ) (rs : List Reservation) (w : World) : Type 0 where
  pub works : Working w
  pub is_consistent : Consistent w.db
  pub ready : AllReady w.db rs
  pub are_pending : AllPending rs
  pub none_missed : count_where (missed cutoff rs) w.db.reservations ≡ 0

-- What a call that succeeds has done
succeeded :
    {A : Type 0} (R : A → Db → Type 0) (r : Result A) (w : World) (d : Db)
    → Gone r w (λ _ w. Unit)
    → Ends r w (λ a w'. R a w'.db) (λ w'. w'.db ≡ d)
    → ((a : A) × (r ≡ ok a) × R a w.db) × Working w
succeeded R (ok a) w d g h = ((a, refl, h), g.0)
succeeded R (err e) w d g h = absurd g

-- The seats of a reservation that was read are there.
read_seat :
    (d : Db) (row : ReservationRow) (res : Reservation) (sid : String)
    → Consistent d
    → ReadFrom d row res
    → contains res.seat_ids sid ≡ true
    → (s : Seat) × (seat_at d sid ≡ some s)
read_seat d row res sid c from named =
    let (s, at, _, _) =
      c.held res.id sid row Seat.reserved
        (sym (contains-links_of res.id sid d.reservation_seats)
          ∙ subst (λ ks. contains ks sid ≡ true) from.seat_ids named)
        from.found (rw from.is_pending refl) in
    (s, at)

-- What is swept stays so.
abbrev pub Sweeps : Db → Db → Type 0
Sweeps d d' = (id : String) (seat_ids : List String) → Swept d id seat_ids → Swept d' id seat_ids

Due-step :
    (cutoff : ℕ) (res : Reservation) (rest : List Reservation) (w : World)
    → Due cutoff (res ∷ rest) w
    → ((cancel_expired res w).0 ≡ ok tt)
      × Due cutoff rest (cancel_expired res w).1
      × Swept (cancel_expired res w).1.db res.id res.seat_ids
      × Sweeps w.db (cancel_expired res w).1.db
Due-step cutoff res rest w h =
    let after = (cancel_expired res w).1 in
    let (row, from) = h.ready.0 in
    let ((u, ran, x), works) =
      succeeded (λ _. Expired res w.db) (cancel_expired res w).0 after w.db
        ((cancel_expired-Goes res).run w h.works (h.are_pending.0, (row, from.found)))
        ((cancel_expired-Settles res).run w) in
    let kept =
      (cancel_expired-Waiting res rest h.ready.1).run w h.ready.0 (h.is_consistent, h.ready.2) in
    let (was, same, seats, is) = cancel_lem x.time res x.done x.is_cancelled in
    let there : (sid : String)
        → contains x.done.seat_ids sid ≡ true
        → (s : Seat) × (seat_at w.db sid ≡ some s) =
      λ sid named.
        read_seat w.db row res sid h.is_consistent from
          (subst (λ ks. contains ks sid ≡ true) seats named) in
    (
      ran,
      record {
        works = works;
        is_consistent = kept.0;
        ready = kept.1;
        are_pending = h.are_pending.1;
        none_missed =
            rw x.is_moved.rows
              (missed-step cutoff res x.done rest w.db.reservations same is h.none_missed);
      },
      subst (λ k. Swept after.db k res.seat_ids) same
          (subst (Swept after.db x.done.id) seats
            (Swept-now is x.is_moved row (ap (reservation_at w.db) same ∙ from.found) there)),
      Swept-moved is x.is_moved,
    )

-- What the loop leaves
abbrev pub Round : ℕ → List Reservation → ℕ → World → Result ℕ × World → Type 0
Round cutoff rs total w (r, w') =
    (r ≡ ok total) × Due cutoff [] w' × AllSwept w'.db rs × Sweeps w.db w'.db

pub each_lem :
    (cutoff : ℕ) (rs : List Reservation) (n : ℕ) (w : World)
    → Due cutoff rs w
    → Round cutoff rs (n + length rs) w (cancel_each rs n w)
unfolding cancel_each ◌>>=◌ attempt pure
each_lem cutoff [] n w h = (ap ok (omega arith), h, tt, λ id sids k. k)
each_lem cutoff (res ∷ rest) n w h =
    let (ran, due, now, keeps) = Due-step cutoff res rest w h in
    let (e, last, all, kept) = each_lem cutoff rest (suc n) (cancel_expired res w).1 due in
    let goes : cancel_each (res ∷ rest) n w ≡ cancel_each rest (suc n) (cancel_expired res w).1 =
      rw ran refl in
    subst (Round cutoff (res ∷ rest) (n + length (res ∷ rest)) w) (sym goes) (
      e ∙ ap ok (omega arith),
      last,
      (kept res.id res.seat_ids now, all),
      λ id sids k. kept id sids (keeps id sids k),
    )
