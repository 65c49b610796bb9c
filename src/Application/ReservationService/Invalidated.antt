-- ===== src/Application/ReservationService/Invalidated.antt =====
-- CreateReservation and CancelReservation of internal/application/reservation_service.go leave no count
-- of available seats in the cache that they have made wrong.
use go_event_ticket_reservat.Prelude.{
  String, ◌≡◌, refl, ◌∙◌, true, Bool-cases, inl, inr, ◌⊎◌, none, eq_iff,
}
use go_event_ticket_reservat.Errors.{Error, Result, ok, err, is_reservation_not_found}
use go_event_ticket_reservat.Domain.Reservation.{Reservation, new_reservation}
use go_event_ticket_reservat.World.Rows.{World}
use go_event_ticket_reservat.World.Exec.{
  Exec, pure, raise, lift, attempt, deferred, send, continue, ◌>>=◌,
}
use go_event_ticket_reservat.World.Logic.{Ends, Ends-mono, Reads-same}
use go_event_ticket_reservat.Postgres.Tx.{rollback}
use go_event_ticket_reservat.Postgres.Reservations
use go_event_ticket_reservat.Redis.Cache
use go_event_ticket_reservat.Redis.Cache.{available_count_key}
use go_event_ticket_reservat.Redis.Cache.Replay.{cached}
use go_event_ticket_reservat.Redis.Lock.{Lock, release}
use go_event_ticket_reservat.Application.ReservationService.{
  ReservationService, CreateReservationInput, invalidate_seat_cache, store_reservation,
  create_checked, create_new, with_lock, unless_existing, create_reservation, store_cancelled,
  cancel_reservation,
}
use go_event_ticket_reservat.Application.ReservationService.Outcome.{create_reservation-Outcome}
use go_event_ticket_reservat.Application.ReservationService.Ended.{cancel_reservation-Outcome}
use go_event_ticket_reservat.Application.ReservationService.Create.{get_by_idempotency_key-IsRead}

module _ {A : Type 0} where
  -- Where `m` succeeds, `Q` holds then.
  record Leaves (m : Exec A) (Q : A → World → Type 0) : Type 0 where
    run : (w : World) → Ends (m w).0 (m w).1 Q (λ w. Unit)

  Leaves-raise : {Q : A → World → Type 0} (e : Error) → Leaves (raise e) Q
  unfolding raise
  Leaves-raise e = record { run = λ w. tt }

  leaves_deferred :
      {B : Type 0} (Q : A → World → Type 0) (d : World → B × World) (r : Result A) (w : World)
      → ((a : A) (w : World) → Q a w → Q a (d w).1)
      → Ends r w Q (λ w. Unit)
      → Ends r (d w).1 Q (λ w. Unit)
  leaves_deferred Q d (ok a) w h q = h a w q
  leaves_deferred Q d (err e) w h q = tt

  Leaves-deferred :
      {B : Type 0} {Q : A → World → Type 0} (m : Exec A) (d : World → B × World)
      → Leaves m Q
      → ((a : A) (w : World) → Q a w → Q a (d w).1)
      → Leaves (deferred m d) Q
  unfolding deferred
  Leaves-deferred {Q} m d h k = record {
    run = λ w. leaves_deferred Q d (m w).0 (m w).1 k (h.run w);
  }

module _ {A B : Type 0} where
  leaves_continue :
      (Q : B → World → Type 0) (f : A → Exec B) (r : Result A) (w : World)
      → ((a : A) → Leaves (f a) Q)
      → Ends (continue r f w).0 (continue r f w).1 Q (λ w. Unit)
  leaves_continue Q f (ok a) w h = (h a).run w
  leaves_continue Q f (err e) w h = tt

  -- What is done last decides.
  Leaves-bind :
      {Q : B → World → Type 0} (m : Exec A) (f : A → Exec B)
      → ((a : A) → Leaves (f a) Q)
      → Leaves (m >>= f) Q
  unfolding ◌>>=◌
  Leaves-bind {Q} m f h = record { run = λ w. leaves_continue Q f (m w).0 (m w).1 h }

-- No count of the event's seats is in the cache.
abbrev pub NoCount : Reservation → World → Type 0
NoCount r w = cached w.sent (available_count_key r.event_id) ≡ none

module _ (s : ReservationService) (has : s.seat_cache ≡ true) where
  invalidates :
      (r : Reservation) → Leaves (invalidate_seat_cache s r.event_id >>= λ _. pure r) NoCount
  unfolding invalidate_seat_cache Cache.invalidate attempt send lift pure ◌>>=◌
  invalidates r =
      let key = available_count_key r.event_id in
      record { run = λ w. rw (has, (eq_iff key key).1 refl) refl }

  store_reservation-NoCount : (r : Reservation) → Leaves (store_reservation s r r.seat_ids) NoCount
  unfolding store_reservation rollback
  store_reservation-NoCount r = Leaves-bind _ _ λ _.
      Leaves-deferred _ _
        (Leaves-bind _ _ λ stored.
          Leaves-bind _ _ λ _. Leaves-bind _ _ λ _. Leaves-bind _ _ λ _. invalidates stored)
        (λ a w q. q)

  store_cancelled-NoCount : (r : Reservation) → Leaves (store_cancelled s r) NoCount
  unfolding store_cancelled rollback
  store_cancelled-NoCount r = Leaves-bind _ _ λ _.
      Leaves-deferred _ _
        (Leaves-bind _ _
          λ _. Leaves-bind _ _ λ _. Leaves-bind _ _ λ _. Leaves-bind _ _ λ _. invalidates r)
        (λ a w q. q)

  cancel_reservation-NoCount : (id : String) → Leaves (cancel_reservation s id) NoCount
  unfolding cancel_reservation
  cancel_reservation-NoCount id =
      Leaves-bind _ _
        λ res. Leaves-bind _ _ λ now. Leaves-bind _ _ λ cancelled. store_cancelled-NoCount cancelled

  module _ (input : CreateReservationInput) where
    create_checked-NoCount : Leaves (create_checked s input) NoCount
    unfolding create_checked new_reservation
    create_checked-NoCount = Leaves-bind _ _ λ ev. Leaves-bind _ _ λ now. Leaves-bind _ _ λ _.
        Leaves-bind _ _ λ seats. Leaves-bind _ _ λ total. Leaves-bind _ _ λ created.
          Leaves-bind _ _ λ _. store_reservation-NoCount (
            new_reservation created input.event_id input.user_id input.idempotency_key
              input.seat_ids total)

    with_lock-NoCount : (r : Result Lock) → Leaves (with_lock r (create_checked s input)) NoCount
    unfolding with_lock release send lift ◌>>=◌
    with_lock-NoCount (ok lock) = Leaves-deferred _ _ create_checked-NoCount (λ a w q. q)
    with_lock-NoCount (err e) = Leaves-bind _ _ (λ _. Leaves-raise _)

    create_new-NoCount : Leaves (create_new s input) NoCount
    unfolding create_new
    create_new-NoCount = elim (Bool-cases s.lock_manager) [
      | inl b ↦ rw b (Leaves-bind _ _ with_lock-NoCount)
      | inr b ↦ rw b create_checked-NoCount
    ]

    -- The reservation was there, or there is no count.
    unless_existing-NoCount :
        (r : Result Reservation) (w : World)
        → Ends
            (unless_existing r (create_new s input) w).0
            (unless_existing r (create_new s input) w).1
            (λ res w'. (w'.db ≡ w.db) ⊎ NoCount res w')
            (λ w. Unit)
    unfolding unless_existing pure raise
    unless_existing-NoCount (ok existing) w = inl refl
    unless_existing-NoCount (err e) w = elim (Bool-cases (is_reservation_not_found e)) [
      | inl b ↦ rw b (
          Ends-mono NoCount (λ res w'. (w'.db ≡ w.db) ⊎ NoCount res w') (λ w. Unit)
            (create_new s input w).0 (create_new s input w).1 (λ a w' q. inr q)
            (create_new-NoCount.run w))
      | inr b ↦ rw b tt
    ]

    create_reservation-NoCount :
        (w : World)
        → Ends
            (create_reservation s input w).0
            (create_reservation s input w).1
            (λ res w'. (w'.db ≡ w.db) ⊎ NoCount res w')
            (λ w. Unit)
    unfolding create_reservation attempt ◌>>=◌
    create_reservation-NoCount w =
        let m = Reservations.get_by_idempotency_key input.idempotency_key in
        let r = (m w).0 in
        let w₁ = (m w).1 in
        let same = Reads-same m (get_by_idempotency_key-IsRead input.idempotency_key) w in
        Ends-mono (λ res w'. (w'.db ≡ w₁.db) ⊎ NoCount res w')
          (λ res w'. (w'.db ≡ w.db) ⊎ NoCount res w') (λ w. Unit)
          (unless_existing r (create_new s input) w₁).0
          (unless_existing r (create_new s input) w₁).1
          (λ a w' q. elim q [ inl e ↦ inl (e ∙ same) | inr none_left ↦ inr none_left ])
          (unless_existing-NoCount r w₁)

with_error :
    {A : Type 0} (r : Result A) (w : World) (Q S : A → World → Type 0) (E : World → Type 0)
    → Ends r w Q (λ w. Unit)
    → Ends r w S E
    → Ends r w Q E
with_error (ok a) w Q S E q h = q
with_error (err e) w Q S E q h = h

-- If the service has a cache and Redis runs what it is sent: when CreateReservation or
-- CancelReservation has succeeded, no count of the available seats of the reservation's event is in
-- the cache, unless CreateReservation has left the database as it was; when it has failed, the
-- database is as it was.
pub reservations-NoCount :
    (s : ReservationService) (input : CreateReservationInput) (id : String) (w : World)
    → s.seat_cache ≡ true
    → Ends
        (create_reservation s input w).0
        (create_reservation s input w).1
        (λ res w'. (w'.db ≡ w.db) ⊎ NoCount res w')
        (λ w'. w'.db ≡ w.db)
      × Ends
          (cancel_reservation s id w).0
          (cancel_reservation s id w).1
          NoCount
          (λ w'. w'.db ≡ w.db)
reservations-NoCount s input id w has = (
  with_error (create_reservation s input w).0 (create_reservation s input w).1 _ _ _
      (create_reservation-NoCount s has input w) (create_reservation-Outcome input s w),
  with_error (cancel_reservation s id w).0 (cancel_reservation s id w).1 _ _ _
      ((cancel_reservation-NoCount s has id).run w) (cancel_reservation-Outcome s id w),
)
