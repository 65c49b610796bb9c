-- ===== src/Application/ReservationService/Create.antt =====
-- CreateReservation of internal/application/reservation_service.go and `Consistent`.
use go_event_ticket_reservat.Prelude.{
  ℕ, zero, suc, String, ◌≡◌, refl, subst, ap, Option, none, some, List, [], ◌∷◌,
}
use go_event_ticket_reservat.Prelude.Int.{ℤ, ◌+ℤ◌}
use go_event_ticket_reservat.Errors.{Error, Result, ok, err, lock_not_acquired}
use go_event_ticket_reservat.Domain.Seat.{Seat}
use go_event_ticket_reservat.Domain.Reservation.{Reservation, pending, new_reservation}
use go_event_ticket_reservat.World.Rows.{Db}
use go_event_ticket_reservat.World.Exec.{Exec}
use go_event_ticket_reservat.World.Logic.{
  Keeps, Reads-sample, Reads-raise, Reads-same, Keeps-Reads, Keeps-deferred, Keeps-if,
  Reads-time_now, Reads-count, Keeps-read, Keeps-bind, Keeps-own, IsRead, IsRead-bind,
  IsRead-attempt, IsRead-if, IsRead-pure, IsRead-lift, IsRead-wrapping, IsRead-require, read_rules,
}
use go_event_ticket_reservat.Postgres.Tx.Rules.{Safe-bind, Safe-commit, Keeps-transaction}
use go_event_ticket_reservat.Postgres.Events
use go_event_ticket_reservat.Postgres.Seats
use go_event_ticket_reservat.Postgres.Reservations
use go_event_ticket_reservat.Redis.Cache
use go_event_ticket_reservat.Redis.Lock.{
  Lock, acquire_lock, acquire_rounds, acquire_lock_with_retry, release, after_round,
}
use go_event_ticket_reservat.Booking.{Consistent}
use go_event_ticket_reservat.Booking.Reserve.{Reserved, reserve-Consistent}
use go_event_ticket_reservat.Booking.Effects.{Created, create-Does, reserve_seats-Does}
use go_event_ticket_reservat.Application.ReservationService.{
  ReservationService, CreateReservationInput, invalidate_seat_cache, check_seat, check_seats,
  store_reservation, create_checked, with_lock, create_new, unless_existing, create_reservation,
}

pub get_event-IsRead : (id : String) → IsRead (Events.get_by_id id)
unfolding Events.get_by_id
get_event-IsRead id = search read_rules

pub get_seats-IsRead : (id : String) → IsRead (Seats.get_by_event_id id)
unfolding Seats.get_by_event_id
get_seats-IsRead id = search read_rules

pub get_by_idempotency_key-IsRead :
    (key : String) → IsRead (Reservations.get_by_idempotency_key key)
unfolding Reservations.get_by_idempotency_key
get_by_idempotency_key-IsRead key = search read_rules depth 8

pub invalidate_seat_cache-IsRead :
    (s : ReservationService) (id : String) → IsRead (invalidate_seat_cache s id)
unfolding invalidate_seat_cache Cache.invalidate
invalidate_seat_cache-IsRead s id = search read_rules depth 8

check_seat-IsRead : (o : Option Seat) → IsRead (check_seat o)
check_seat-IsRead none = Reads-raise _
check_seat-IsRead (some s) = search read_rules

pub check_seats-IsRead :
    (m : List (String × Seat)) (ids : List String) (total : ℤ) → IsRead (check_seats m ids total)
unfolding check_seats
check_seats-IsRead m [] total = search read_rules
check_seats-IsRead m (id ∷ ids) total =
    IsRead-bind _ _ (check_seat-IsRead _) (λ price. check_seats-IsRead m ids (total +ℤ price))

acquire_lock-IsRead : (key : String) (ttl : ℕ) → IsRead (acquire_lock key ttl)
unfolding acquire_lock
acquire_lock-IsRead key ttl = search read_rules

after_round-IsRead :
    (retry : Error → Exec Lock) (r : Result Lock)
    → ((e : Error) → IsRead (retry e))
    → IsRead (after_round retry r)
after_round-IsRead retry (ok lock) h = search read_rules
after_round-IsRead retry (err e) h = search (read_rules, h)

pub acquire_rounds-IsRead :
    (rounds : ℕ) (e : Error) (key : String) (ttl : ℕ) → IsRead (acquire_rounds rounds e key ttl)
unfolding acquire_rounds
acquire_rounds-IsRead zero e key ttl = Reads-raise _
acquire_rounds-IsRead (suc rounds) e key ttl =
    IsRead-bind _ _ (IsRead-attempt _ (acquire_lock-IsRead key ttl)) λ r.
      after_round-IsRead _ r λ e.
        IsRead-bind _ _ (Reads-sample _)
          λ done. IsRead-if done _ _ (Reads-raise _) (acquire_rounds-IsRead rounds e key ttl)

pub release-IsRead : (l : Lock) → IsRead (release l)
unfolding release
release-IsRead l = search read_rules

stored-Consistent :
    (r stored : Reservation) (d d₂ d₃ : Db)
    → r.status ≡ pending
    → Consistent d
    → Created r stored d d₂
    → (now : ℕ) × Reserved stored.id r.seat_ids now d₂ d₃
    → Consistent d₃
stored-Consistent r stored d d₂ d₃ new good c (now, u) =
    let same : stored.id ≡ c.id = ap (λ (k : Reservation). k.id) c.is_stored in
    reserve-Consistent c.id r r.seat_ids now d c.middle d₂ d₃ good c.inserted c.links
      (subst (λ k. Reserved k r.seat_ids now d₂ d₃) same u) new

-- The transaction, with any seats that the reservation names
pub store_reservation-Consistent :
    (R : Db → Type 0) (s : ReservationService) (r : Reservation)
    → r.status ≡ pending
    → Keeps R Consistent (store_reservation s r r.seat_ids)
unfolding store_reservation
store_reservation-Consistent R s r new = Keeps-own _ (
    Keeps-transaction _ Consistent _ _ (
      Safe-bind _ _ (create-Does r) λ stored d h.
        Safe-bind _ _ (reserve_seats-Does r.seat_ids stored.id) λ _ d₂ c.
          Safe-commit _ _ _ _ (λ d₃ u. stored-Consistent r stored d d₂ d₃ new h.1 c u)
            (Keeps-Reads _ _ _ (
              IsRead-bind _ _ (Reads-count _) λ _.
                IsRead-bind _ _ (invalidate_seat_cache-IsRead s stored.event_id)
                  λ _. IsRead-pure _))))

module _ (s : ReservationService) (input : CreateReservationInput) where
  create_checked-Consistent : Keeps (λ d. Unit) Consistent (create_checked s input)
  unfolding create_checked new_reservation
  create_checked-Consistent =
      Keeps-read _ _ (IsRead-wrapping _ _ (get_event-IsRead input.event_id)) λ ev.
        Keeps-read _ _ Reads-time_now λ now. Keeps-read _ _ (IsRead-require _ _) λ _.
          Keeps-read _ _ (IsRead-wrapping _ _ (get_seats-IsRead input.event_id)) λ seats.
            Keeps-read _ _ (check_seats-IsRead _ input.seat_ids _) λ total.
              Keeps-read _ _ Reads-time_now λ created. Keeps-read _ _ (IsRead-lift _) λ _.
                store_reservation-Consistent _ s
                  (new_reservation created input.event_id input.user_id input.idempotency_key
                    input.seat_ids total)
                  refl

  with_lock-Consistent :
      (r : Result Lock) (body : Exec Reservation)
      → Keeps (λ d. Unit) Consistent body
      → Keeps (λ d. Unit) Consistent (with_lock r body)
  unfolding with_lock
  with_lock-Consistent (ok lock) body h =
      Keeps-deferred body (release lock) h (Reads-same (release lock) (release-IsRead lock))
  with_lock-Consistent (err e) body h =
      Keeps-Reads _ _ _ (IsRead-bind _ _ (Reads-count _) (λ _. Reads-raise _))

  create_new-Consistent : Keeps (λ d. Unit) Consistent (create_new s input)
  unfolding create_new acquire_lock_with_retry
  create_new-Consistent =
      Keeps-if s.lock_manager _ _
        (Keeps-bind _ _
          (Keeps-Reads _ _ _ (IsRead-attempt _ (acquire_rounds-IsRead 3 lock_not_acquired _ _)))
          λ r. with_lock-Consistent r _ create_checked-Consistent)
        create_checked-Consistent

  unless_existing-Consistent :
      (r : Result Reservation)
      → Keeps (λ d. Unit) Consistent (unless_existing r (create_new s input))
  unfolding unless_existing
  unless_existing-Consistent (ok existing) = Keeps-Reads _ _ _ (IsRead-pure existing)
  unless_existing-Consistent (err e) =
      Keeps-if _ _ _ create_new-Consistent (Keeps-Reads _ _ _ (Reads-raise _))

  pub create_reservation-Consistent : Keeps (λ d. Unit) Consistent (create_reservation s input)
  unfolding create_reservation
  create_reservation-Consistent =
      Keeps-bind _ _
        (Keeps-Reads _ _ _ (IsRead-attempt _ (get_by_idempotency_key-IsRead input.idempotency_key)))
        unless_existing-Consistent
