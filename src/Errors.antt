-- ===== src/Errors.antt =====
-- The error values of internal/domain/*/errors.go and internal/infrastructure/redis, the errors of
-- the drivers that the code tests for, `fmt.Errorf` and `errors.Is`.
use go_event_ticket_reservat.Prelude.{String, Bool, true, false, ◌≡◌, refl, ◌⊎◌, inl, inr}

-- internal/domain/event/errors.go
pub data EventError : Type 0 where
  event_not_found event_name_required invalid_total_seats : EventError
  invalid_event_time event_not_open optimistic_lock_conflict : EventError

-- internal/domain/seat/errors.go
pub data SeatError : Type 0 where
  seat_not_found seat_not_available seat_not_reserved seat_already_reserved : SeatError
  event_id_required seat_number_required invalid_price optimistic_lock_conflict : SeatError

-- internal/domain/reservation/errors.go
pub data ReservationError : Type 0 where
  reservation_not_found reservation_not_pending reservation_expired : ReservationError
  reservation_already_cancelled reservation_already_confirmed : ReservationError
  event_id_required user_id_required seat_ids_required : ReservationError
  idempotency_key_required idempotency_key_already_exists : ReservationError

-- `wrapped` is `fmt.Errorf` with `%w`, and `text` is `fmt.Errorf` without it. `no_rows` is
-- `sql.ErrNoRows`, `unique_violation` a `pq.Error` with code 23505, `redis_nil` is `redis.Nil`,
-- `context_done` is `ctx.Err()`, and `driver` any other error of a driver.
pub data Error : Type 0 where
  event : EventError → Error
  seat : SeatError → Error
  reservation : ReservationError → Error
  lock_not_acquired lock_not_owned cache_miss : Error
  no_rows unique_violation redis_nil context_done driver : Error
  wrapped : String → Error → Error
  text : String → Error

pub data Result {ℓ} (A : Type ℓ) : Type ℓ where
  ok : A → Result A
  err : Error → Result A

pub Result-cases {ℓ} :
    {A : Type ℓ} (r : Result A) → ((e : Error) × (r ≡ err e)) ⊎ ((a : A) × (r ≡ ok a))
Result-cases (ok a) = inr (a, refl)
Result-cases (err e) = inl (e, refl)

-- errors.Is(err, event.ErrEventNotFound)
unfoldable pub is_event_not_found : Error → Bool
is_event_not_found (event EventError.event_not_found) = true
is_event_not_found (wrapped _ e) = is_event_not_found e
is_event_not_found _ = false

-- errors.Is(err, reservation.ErrReservationNotFound)
unfoldable pub is_reservation_not_found : Error → Bool
is_reservation_not_found (reservation ReservationError.reservation_not_found) = true
is_reservation_not_found (wrapped _ e) = is_reservation_not_found e
is_reservation_not_found _ = false

-- errors.Is(err, sql.ErrNoRows)
unfoldable pub is_no_rows : Error → Bool
is_no_rows no_rows = true
is_no_rows (wrapped _ e) = is_no_rows e
is_no_rows _ = false

-- errors.Is(err, ErrLockNotAcquired)
unfoldable pub is_lock_not_acquired : Error → Bool
is_lock_not_acquired lock_not_acquired = true
is_lock_not_acquired (wrapped _ e) = is_lock_not_acquired e
is_lock_not_acquired _ = false

-- errors.Is(err, redis.Nil)
unfoldable pub is_redis_nil : Error → Bool
is_redis_nil redis_nil = true
is_redis_nil (wrapped _ e) = is_redis_nil e
is_redis_nil _ = false

-- err.(*pq.Error) with Code "23505"; a type assertion does not unwrap.
unfoldable pub is_unique_violation : Error → Bool
is_unique_violation unique_violation = true
is_unique_violation _ = false
