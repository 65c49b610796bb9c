-- ===== src/Application/Cleaner/Progress.antt =====
-- What a round of internal/worker/expired_reservation_cleaner.go leaves where the driver does not
-- fail.
use go_event_ticket_reservat.Prelude.{
  ℕ, ◌+◌, ◌-◌, ◌≡◌, refl, sym, subst, ap, ◌∙◌, List, length, arith, String, true, some,
}
use go_event_ticket_reservat.Prelude.Tables.{count_where, select_where}
use go_event_ticket_reservat.Errors.{Result, ok, err}
use go_event_ticket_reservat.Domain.Reservation.{Reservation}
use go_event_ticket_reservat.World.Rows.{Db, World, ReservationRow}
use go_event_ticket_reservat.World.Progress.{Working, Gone, Goes, Goes-wrapping, Goes-bind}
use go_event_ticket_reservat.Postgres.Timestamp.{timestamp}
use go_event_ticket_reservat.Postgres.Reservations.{is_old_pending, links_of}
use go_event_ticket_reservat.Booking.{Consistent, reservation_at}
use go_event_ticket_reservat.Booking.Pending.{entities, AllReady, AllReady-expired}
use go_event_ticket_reservat.Application.Cleaner.{ExpiredReservationCleaner, cleanup}
use go_event_ticket_reservat.Application.ReservationService.{
  cancel_each, cancel_expired_reservations,
}
use go_event_ticket_reservat.Application.Cleaner.Swept.{Swept, AllSwept, AllSwept-row}
use go_event_ticket_reservat.Application.Cleaner.Missed.{
  missed-nil, Covers-entities, missed-Covers, length-entities, AllPending, AllPending-entities,
}
use go_event_ticket_reservat.Application.Cleaner.Rounds.{Due, each_lem}
use go_event_ticket_reservat.Application.Cleaner.Reading.{get_expired_pending-Goes}

-- The cutoff of a round that starts in a world
abbrev pub cutoff_at : ℕ → World → ℕ
cutoff_at expire_after w = timestamp (w.env.now w.at - expire_after)

due :
    (expire_after : ℕ) (w v : World) (rs : List Reservation)
    → Consistent w.db
    → Working v
    → rs
      ≡ entities w.db (select_where (is_old_pending (cutoff_at expire_after w)) w.db.reservations)
    → v.db ≡ w.db
    → Due (cutoff_at expire_after w) rs v
due expire_after w v rs c k is same =
    let cutoff = cutoff_at expire_after w in
    record {
      works = k;
      is_consistent = subst Consistent (sym same) c;
      ready =
          subst (λ d. AllReady d rs) (sym same)
            (subst (AllReady w.db) (sym is) (AllReady-expired w.db cutoff c));
      are_pending = subst AllPending (sym is) (AllPending-entities cutoff w.db w.db.reservations);
      none_missed =
          rw (same, is)
            (missed-Covers cutoff _ w.db.reservations
              (Covers-entities cutoff w.db w.db.reservations));
    }

gone_ok :
    {A : Type 0} (r : Result A) (w : World) (a : A) (P : World → Type 0)
    → r ≡ ok a
    → Working w
    → P w
    → Gone r w (λ b w. (b ≡ a) × P w)
gone_ok r w a P e k p = rw e (k, (refl, p))

-- Each old pending reservation of before is cancelled, and the seats that were linked to it are free.
abbrev pub Settled : ℕ → Db → Db → Type 0
Settled cutoff d d' =
    (id : String) (row : ReservationRow)
    → reservation_at d id ≡ some row
    → is_old_pending cutoff row ≡ true
    → Swept d' id (links_of id d.reservation_seats)

round-Goes :
    (expire_after : ℕ) (w : World)
    → Consistent w.db
    → Goes
        (λ v. v ≡ w)
        (cancel_expired_reservations expire_after)
        (λ n v.
          (n ≡ count_where (is_old_pending (cutoff_at expire_after w)) w.db.reservations)
          × ((count_where (is_old_pending (cutoff_at expire_after w)) v.db.reservations ≡ 0)
              × Settled (cutoff_at expire_after w) w.db v.db))
unfolding cancel_expired_reservations
round-Goes expire_after w c =
    Goes-bind _ _ (λ rs. cancel_each rs 0)
      (Goes-wrapping _ _ (get_expired_pending-Goes expire_after w))
      λ rs. record {
        run = λ v k (is, same).
            let cutoff = cutoff_at expire_after w in
            let (ran, last, all, _) =
              each_lem cutoff rs 0 v (due expire_after w v rs c k is same) in
            let many : 0 + length rs ≡ count_where (is_old_pending cutoff) w.db.reservations =
              omega (arith, ap length is, length-entities cutoff w.db w.db.reservations) in
            let none_left : count_where (is_old_pending cutoff)
                  (cancel_each rs 0 v).1.db.reservations
                ≡ 0 =
              sym (missed-nil cutoff (cancel_each rs 0 v).1.db.reservations) ∙ last.none_missed in
            let settled : Settled cutoff w.db (cancel_each rs 0 v).1.db = λ id row.
              AllSwept-row cutoff w.db (cancel_each rs 0 v).1.db w.db.reservations id row
                (subst (AllSwept (cancel_each rs 0 v).1.db) is all) in
            gone_ok (cancel_each rs 0 v).0 (cancel_each rs 0 v).1 _
              (λ v.
                (count_where (is_old_pending cutoff) v.db.reservations ≡ 0)
                × Settled cutoff w.db v.db)
              (ran ∙ ap ok many) last.works (none_left, settled);
      }

-- Where the driver does not fail, a round of the cleaner from a consistent database cancels every
-- reservation that is pending and older than its cutoff, as many as it reports: afterwards there is
-- none, the row of each is cancelled, and the seats that were linked to it are available and name no
-- reservation.
pub cleanup-Progress :
    (c : ExpiredReservationCleaner) (w : World)
    → Working w
    → Consistent w.db
    → ((cancel_expired_reservations c.expire_after w).0
        ≡ ok (count_where (is_old_pending (cutoff_at c.expire_after w)) w.db.reservations))
      × (count_where (is_old_pending (cutoff_at c.expire_after w)) (cleanup c w).db.reservations
          ≡ 0)
      × Settled (cutoff_at c.expire_after w) w.db (cleanup c w).db
unfolding cleanup
cleanup-Progress c w k h =
    cleaned (cancel_expired_reservations c.expire_after w).0
      (cancel_expired_reservations c.expire_after w).1
      ((round-Goes c.expire_after w h).run w k refl)
  where
    cleaned :
        (r : Result ℕ) (v : World)
        → Gone r v (λ n v.
          (n ≡ count_where (is_old_pending (cutoff_at c.expire_after w)) w.db.reservations)
          × ((count_where (is_old_pending (cutoff_at c.expire_after w)) v.db.reservations ≡ 0)
              × Settled (cutoff_at c.expire_after w) w.db v.db))
        → (r ≡ ok (count_where (is_old_pending (cutoff_at c.expire_after w)) w.db.reservations))
          × (count_where (is_old_pending (cutoff_at c.expire_after w)) v.db.reservations ≡ 0)
          × Settled (cutoff_at c.expire_after w) w.db v.db
    cleaned (ok n) v g = (ap ok g.1.0, g.1.1.0, g.1.1.1)
    cleaned (err e) v g = absurd g
