-- ===== src/Application/ReservationService/Granted.antt =====
-- CreateReservation of internal/application/reservation_service.go where the request can be granted
-- and the driver does not fail.
pub mod Steps
use go_event_ticket_reservat.Prelude.{
  ℕ, suc, String, ◌≡◌, refl, sym, ap, subst, ◌∙◌, Bool, true, false, Bool-cases, inl, inr, Option,
  none, some, List, [], ◌∷◌, ◌++◌, ◌==◌, ◌||◌, ◌&&◌, eq_iff, ltb, length, is_some, nat_beq, arith,
  if◌then◌else◌,
}
use go_event_ticket_reservat.Prelude.Int.{ℤ, pos, ◌+ℤ◌}
use go_event_ticket_reservat.Prelude.Tables.{find_where, count_where, contains}
use go_event_ticket_reservat.Prelude.Tables.Laws.{or_row, find-append}
use go_event_ticket_reservat.Prelude.Tables.Found.{Distinct}
use go_event_ticket_reservat.Errors.{Error, Result, ok, err, reservation, reservation_not_found}
use go_event_ticket_reservat.Domain.Event
use go_event_ticket_reservat.Domain.Seat.{Seat, is_available}
use go_event_ticket_reservat.Domain.Reservation
use go_event_ticket_reservat.Domain.Reservation.{Reservation, new_reservation}
use go_event_ticket_reservat.World.Rows.{Db, Env, EventRow, World}
use go_event_ticket_reservat.World.Exec.{Exec, Statement, query, exec_tx, wrapping, map_error}
use go_event_ticket_reservat.World.Progress.{
  Working, Gone, Goes, Goes-pure, Goes-lift, Goes-map_error, Goes-wrapping, Goes-deferred,
  Goes-query, Goes-exec_tx, Goes-bind, Goes-clock, Goes-require, Goes-count, Goes-given,
}
use go_event_ticket_reservat.Postgres.Tx.{begin, commit, rollback, unwrap_tx}
use go_event_ticket_reservat.Postgres.Events
use go_event_ticket_reservat.Postgres.Seats
use go_event_ticket_reservat.Postgres.Seats.{can_reserve}
use go_event_ticket_reservat.Postgres.Reservations
use go_event_ticket_reservat.Postgres.Reservations.{
  row_has_id, row_has_key, is_link, insert_reservation, insert_link, insert_links,
}
use go_event_ticket_reservat.Booking.{Consistent}
use go_event_ticket_reservat.Application.ReservationService.{
  ReservationService, CreateReservationInput, check_seats, seat_map, lookup, store_reservation,
  create_checked,
}
use go_event_ticket_reservat.Application.ReservationService.Progress.{
  Open, commit-Goes, unwrap_tx-Goes, invalidate-Goes,
}
use go_event_ticket_reservat.Application.ReservationService.Bookable.{
  FreeSeat, Bookable, Free-lookup, read_seats, can_reserve-count,
}
use go_event_ticket_reservat.World.Logic.{Ends}
use go_event_ticket_reservat.World.Exec.{attempt, sample, send, lift, pure, ◌>>=◌}
use go_event_ticket_reservat.Errors.{is_no_rows, is_reservation_not_found}
use go_event_ticket_reservat.Redis.Lock.{
  Lock, acquire_lock, acquire_rounds, acquire_lock_with_retry, release,
}
use go_event_ticket_reservat.Application.ReservationService.{
  with_lock, create_new, unless_existing, create_reservation,
}
use go_event_ticket_reservat.Application.ReservationService.Outcome.{
  New, Outcome, existing, new, create_reservation-Outcome,
}
use go_event_ticket_reservat.Application.ReservationService.Granted.Steps.{
  At, read-Goes, SeatsOf, create-Goes, store_reservation-Goes, check_seats-Goes,
}

module _ (s : ReservationService) (input : CreateReservationInput) (e : Env) (d : Db)
    (c : Consistent d) (b : Bookable s input e d) where
  abbrev made : ℕ → ℤ → Reservation
  made now total =
      new_reservation now input.event_id input.user_id input.idempotency_key input.seat_ids total

  event-Goes :
      Goes
        (At e d)
        (Events.get_by_id input.event_id)
        (λ ev w. (ev ≡ Events.to_entity b.row) × At e d w)
  unfolding Events.get_by_id
  event-Goes =
      Goes-bind (λ row w. (row ≡ b.row) × At e d w) _ _
        (Goes-map_error _ _ (read-Goes e d _ b.row (rw b.found refl)))
        λ row. Goes-pure _ (λ w (is, h). (ap Events.to_entity is, h))

  opens :
      (n : ℕ) (ev : Event.Event)
      → ev ≡ Events.to_entity b.row
      → Event.is_booking_open (e.now n) ev ≡ true
  unfolding Event.is_booking_open Events.to_entity
  opens n ev is = rw is (b.is_open n)

  made-Valid : (now : ℕ) (total : ℤ) → Reservation.validate (made now total) ≡ ok tt
  unfolding Reservation.validate new_reservation
  made-Valid now total = rw (b.has_event, b.has_user, b.has_key, b.seat_ids) (ground arith)

  seats_there : SeatsOf d input.seat_ids
  unfolding SeatsOf
  seats_there sid asked = let (seat, at, _, _) = b.free sid asked in rw at refl

  made-Goes :
      (now : ℕ) (total : ℤ)
      → Goes (At e d) (store_reservation s (made now total) input.seat_ids) (λ _ w. Unit)
  unfolding new_reservation
  made-Goes now total =
      store_reservation-Goes s e d (made now total)
        (create-Goes e d c (made now total) b.new_id b.new_key (rw b.found refl) b.distinct
          seats_there)
        (can_reserve-count d input.event_id input.seat_ids c b.distinct b.free)

  create_checked-Goes : Goes (At e d) (create_checked s input) (λ _ w. Unit)
  unfolding create_checked Seats.get_by_event_id
  create_checked-Goes = Goes-bind _ _ _ (Goes-wrapping _ _ event-Goes) λ ev.
      Goes-bind (λ now w. (Event.is_booking_open now ev ≡ true) × At e d w) _ _
        (Goes-clock (λ w (is, (same, here)). (rw same (opens w.at ev is), (same, here))))
        λ now.
          Goes-bind (λ _. At e d) _ _ (Goes-require _ _ (λ w h. h))
            λ _.
              Goes-bind (λ seats w. (seats ≡ read_seats e d input.event_id) × At e d w) _ _
                (Goes-wrapping _ _ (read-Goes e d _ _ refl))
                λ seats.
                  Goes-bind (λ _. At e d) _ _
                    (Goes-given _ _ (λ is.
                      check_seats-Goes e d _ input.seat_ids (pos 0) (λ sid asked.
                        rw is (Free-lookup e d input.event_id sid c (b.free sid asked)))))
                    λ total.
                      Goes-bind (λ _. At e d) _ _ (Goes-clock (λ w h. h))
                        λ created.
                          Goes-bind (λ _. At e d) _ _
                            (Goes-lift _ (λ w h. (tt, made-Valid created total, h)))
                            λ _. made-Goes created total

  key-Goes :
      Goes
        (At e d)
        (attempt (Reservations.get_by_idempotency_key input.idempotency_key))
        (λ r w. (r ≡ err (reservation reservation_not_found)) × At e d w)
  unfolding Reservations.get_by_idempotency_key attempt map_error query ◌>>=◌ is_no_rows
  key-Goes = record {
    run = λ w k (same, here). rw (k w.at, here, b.new_key) (k, (refl, (same, refl)));
  }

  lock-Goes :
      (key : String) (ttl : ℕ)
      → s.lock_manager ≡ true
      → Goes
          (At e d)
          (attempt (acquire_lock_with_retry key ttl 3))
          (λ r w. ((l : Lock) × (r ≡ ok l)) × At e d w)
  unfolding acquire_lock_with_retry acquire_rounds acquire_lock attempt sample send lift ◌>>=◌ pure
  lock-Goes key ttl has = record {
    run = λ w k (same, here).
        rw (same, b.granted has (suc w.at))
          (subst (λ (v : Env). (n : ℕ) → v.fails n ≡ false) same k, ((_, refl), (refl, here)));
  }

  locked-Goes :
      (r : Result Lock)
      → Goes
          (λ w. ((l : Lock) × (r ≡ ok l)) × At e d w)
          (with_lock r (create_checked s input))
          (λ _ w. Unit)
  unfolding with_lock release send lift ◌>>=◌
  locked-Goes r = Goes-given _ _ λ (l, is).
      rw is (Goes-deferred {Q = λ a w. Unit} _ _ create_checked-Goes (λ a w k q. (k, tt)))

  create_new-Goes : Goes (At e d) (create_new s input) (λ _ w. Unit)
  unfolding create_new
  create_new-Goes = elim (Bool-cases s.lock_manager) [
    | inl has ↦ rw has (Goes-bind _ _ _ (lock-Goes _ _ has) locked-Goes)
    | inr without ↦ rw without create_checked-Goes
  ]

  create_reservation-Goes : Goes (At e d) (create_reservation s input) (λ _ w. Unit)
  unfolding create_reservation unless_existing is_reservation_not_found
  create_reservation-Goes = Goes-bind _ _ _ key-Goes λ r. Goes-given _ _ λ is. rw is create_new-Goes

-- Where the driver does not fail, CreateReservation grants a request in a consistent database that is
-- complete, with a new key, for different free seats of an event that has not started, if the
-- database makes new ids and Redis grants the lock or there is no lock manager: it returns a new
-- reservation, which is stored with its seats reserved and with the sum of their prices.
pub create_reservation-Succeeds :
    (s : ReservationService) (input : CreateReservationInput) (w : World)
    → Working w
    → Consistent w.db
    → Bookable s input w.env w.db
    → (res : Reservation) × ((create_reservation s input w).0 ≡ ok res)
      × New input w.db res (create_reservation s input w).1.db
create_reservation-Succeeds s input w works c b =
    succeeded (create_reservation s input w).0 (create_reservation s input w).1
      ((create_reservation-Goes s input w.env w.db c b).run w works (refl, refl))
      (create_reservation-Outcome input s w)
  where
    succeeded :
        (r : Result Reservation) (w' : World)
        → Gone r w' (λ _ w. Unit)
        → Ends r w' (λ res w'. Outcome input w.db res w'.db) (λ w'. w'.db ≡ w.db)
        → (res : Reservation) × (r ≡ ok res) × New input w.db res w'.db
    succeeded (err e) w' g h = absurd g
    succeeded (ok res) w' g (existing old) = absurd (cc (sym b.new_key ∙ old.found))
    succeeded (ok res) w' g (new made) = (res, refl, made)
