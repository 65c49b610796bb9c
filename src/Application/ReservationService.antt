-- ===== src/Application/ReservationService.antt =====
-- internal/application/reservation_service.go
pub mod Create
pub mod Finish
pub mod Expiry
pub mod Expired
pub mod Outcome
pub mod Ended
pub mod Stale
pub mod Again
pub mod Progress
pub mod Priced
pub mod Bookable
pub mod LockKey
pub mod Invalidated
pub mod Granted
pub mod Confirming
use go_event_ticket_reservat.Prelude.{
  ℕ, zero, suc, ◌+◌, ◌*◌, ◌^◌, String, Bool, true, false, Option, none, some, List, [], ◌∷◌, ◌==◌,
  if◌then◌else◌,
}
use go_event_ticket_reservat.Prelude.Int.{ℤ, pos, leb_ℤ, ◌+ℤ◌}
use go_event_ticket_reservat.Prelude.Text.{text_append, join, sort_strings}
use go_event_ticket_reservat.Errors.{
  Error, Result, ok, err, event, event_not_open, seat, seat_not_found, seat_already_reserved,
  wrapped, text, is_reservation_not_found, is_lock_not_acquired,
}
use go_event_ticket_reservat.Domain.Event
use go_event_ticket_reservat.Domain.Seat.{Seat, is_available}
use go_event_ticket_reservat.Domain.Reservation
use go_event_ticket_reservat.Domain.Reservation.{Reservation, new_reservation}
use go_event_ticket_reservat.World.Rows.{Metrics, World}
use go_event_ticket_reservat.World.Exec.{
  Exec, pure, raise, lift, attempt, wrapping, deferred, require, time_now, count, ◌>>=◌, ◌>>◌,
}
use go_event_ticket_reservat.Postgres.Tx.{begin, commit, rollback}
use go_event_ticket_reservat.Postgres.Events
use go_event_ticket_reservat.Postgres.Seats
use go_event_ticket_reservat.Postgres.Reservations
use go_event_ticket_reservat.Redis.Cache
use go_event_ticket_reservat.Redis.Lock.{Lock, acquire_lock_with_retry, release}

-- ReservationService: whether it has a lock manager and a cache. The repositories are those of
-- `Postgres`.
pub record ReservationService : Type 0 where
  pub lock_manager : Bool
  pub seat_cache : Bool

pub record CreateReservationInput : Type 0 where
  pub event_id : String
  pub user_id : String
  pub seat_ids : List String
  pub idempotency_key : String

unfoldable pub build_seat_lock_key : List String → String
build_seat_lock_key seat_ids = text_append "seats:" (join (sort_strings seat_ids) ",")

-- invalidateSeatCache: an error is only logged.
unfoldable pub invalidate_seat_cache : ReservationService → String → Exec (Unit {0})
invalidate_seat_cache s event_id =
    if s.seat_cache then (do attempt (Cache.invalidate event_id); pure tt) else pure tt

-- seatMap: of two seats with one id the later stays.
abbrev pub seat_map : List Seat → List (String × Seat) → List (String × Seat)
seat_map [] m = m
seat_map (s ∷ ss) m = seat_map ss ((s.id, s) ∷ m)

abbrev pub lookup : String → List (String × Seat) → Option Seat
lookup k [] = none
lookup k ((j, s) ∷ m) = if j == k then some s else lookup k m

-- One seat of the loop in CreateReservation
abbrev check_seat : Option Seat → Exec ℤ
check_seat none = raise (seat seat_not_found)
check_seat (some s) =
    if is_available s
    then pure s.price
    else do count (λ m. record m { conflict = suc m.conflict }); raise (seat seat_already_reserved)

-- The loop: every seat is there and available; the prices are added up.
unfoldable pub check_seats : List (String × Seat) → List String → ℤ → Exec ℤ
check_seats m [] total = pure total
check_seats m (id ∷ ids) total = do
  price ← check_seat (lookup id m)
  check_seats m ids (total +ℤ price)

-- The transaction of CreateReservation, and what follows it
unfoldable pub store_reservation : ReservationService → Reservation → List String → Exec Reservation
unfolding invalidate_seat_cache
store_reservation s res seat_ids = do
  wrapping "トランザクション開始に失敗" begin
  deferred
      (do
        stored ← Reservations.create res
        Seats.reserve_seats seat_ids stored.id
        wrapping "コミットに失敗" commit
        count (λ m. record m { success = suc m.success; pending_inc = suc m.pending_inc })
        invalidate_seat_cache s stored.event_id
        pure stored)
      rollback

-- CreateReservation after the lock
unfoldable pub create_checked : ReservationService → CreateReservationInput → Exec Reservation
unfolding check_seats store_reservation
create_checked s input = do
  ev ← wrapping "イベント取得に失敗" (Events.get_by_id input.event_id)
  now ← time_now
  require (Event.is_booking_open now ev) (event event_not_open)
  seats ← wrapping "座席取得に失敗" (Seats.get_by_event_id input.event_id)
  total_amount ← check_seats (seat_map seats []) input.seat_ids (pos 0)
  created ← time_now
  let res =
      new_reservation created input.event_id input.user_id input.idempotency_key input.seat_ids
        total_amount
  lift (Reservation.validate res)
  store_reservation s res input.seat_ids

abbrev lock_error : Error → Error
lock_error e = if is_lock_not_acquired e then text "座席が他のユーザーによって処理中です" else wrapped "ロック取得に失敗" e

-- What follows the attempt to take the lock
unfoldable pub with_lock : Result Lock → Exec Reservation → Exec Reservation
with_lock (ok lock) body = deferred body (release lock)
with_lock (err e) body = do
  count (λ m. record m { lock_failed = suc m.lock_failed })
  raise (lock_error e)

abbrev second : ℕ
second = 10 ^ 9

-- CreateReservation after the check of the key
unfoldable pub create_new : ReservationService → CreateReservationInput → Exec Reservation
unfolding create_checked with_lock build_seat_lock_key
create_new s input =
    if s.lock_manager
    then (do
      acquired ←
          attempt (acquire_lock_with_retry (build_seat_lock_key input.seat_ids) (10 * second) 3)
      with_lock acquired (create_checked s input))
    else create_checked s input

-- The check of the idempotency key
unfoldable pub unless_existing : Result Reservation → Exec Reservation → Exec Reservation
unless_existing (ok existing) create = pure existing
unless_existing (err e) create =
    if is_reservation_not_found e then create else raise (wrapped "冪等性チェックに失敗" e)

unfoldable pub create_reservation : ReservationService → CreateReservationInput → Exec Reservation
unfolding create_new unless_existing
create_reservation s input = do
  existing ← attempt (Reservations.get_by_idempotency_key input.idempotency_key)
  unless_existing existing (create_new s input)

unfoldable pub get_reservation : String → Exec Reservation
get_reservation id = Reservations.get_by_id id

unfoldable pub get_user_reservations : String → ℤ → ℤ → Exec (List Reservation)
get_user_reservations user_id limit offset =
    Reservations.get_by_user_id user_id (if leb_ℤ limit (pos 0) then pos 20 else limit) offset

-- The transaction of ConfirmReservation, and what follows it
unfoldable pub store_confirmed : Reservation → Exec Reservation
store_confirmed res = do
  wrapping "トランザクション開始に失敗" begin
  deferred
      (do
        Seats.confirm_seats res.seat_ids
        Reservations.update res
        wrapping "コミットに失敗" commit
        count
            (λ m. record m { pending_dec = suc m.pending_dec; confirmed_inc = suc m.confirmed_inc })
        pure res)
      rollback

unfoldable pub confirm_reservation : String → Exec Reservation
unfolding store_confirmed
confirm_reservation id = do
  res ← Reservations.get_by_id id
  checked ← time_now
  now ← time_now
  confirmed ← lift (Reservation.confirm checked now res)
  store_confirmed confirmed

-- The transaction of CancelReservation, and what follows it
unfoldable pub store_cancelled : ReservationService → Reservation → Exec Reservation
unfolding invalidate_seat_cache
store_cancelled s res = do
  wrapping "トランザクション開始に失敗" begin
  deferred
      (do
        Seats.release_seats res.seat_ids
        Reservations.update res
        wrapping "コミットに失敗" commit
        count (λ m. record m { pending_dec = suc m.pending_dec })
        invalidate_seat_cache s res.event_id
        pure res)
      rollback

unfoldable pub cancel_reservation : ReservationService → String → Exec Reservation
unfolding store_cancelled
cancel_reservation s id = do
  res ← Reservations.get_by_id id
  now ← time_now
  cancelled ← lift (Reservation.cancel now res)
  store_cancelled s cancelled

-- One round of CancelExpiredReservations. Each error Ends the round; the transaction is rolled
-- back unless it is its commit that failed, after which it is done.
unfoldable pub cancel_expired : Reservation → Exec (Unit {0})
cancel_expired res = do
  now ← time_now
  cancelled ← lift (Reservation.cancel now res)
  begin
  deferred (do Seats.release_seats cancelled.seat_ids; Reservations.update cancelled; commit)
      rollback

-- canceledCount++ at the end of a round
abbrev tally : Result (Unit {0}) → ℕ → ℕ
tally (ok _) n = suc n
tally (err _) n = n

-- The loop of CancelExpiredReservations, with `canceledCount`
unfoldable pub cancel_each : List Reservation → ℕ → Exec ℕ
unfolding cancel_expired
cancel_each [] canceled = pure canceled
cancel_each (res ∷ rest) canceled = do
  r ← attempt (cancel_expired res)
  cancel_each rest (tally r canceled)

unfoldable pub cancel_expired_reservations : ℕ → Exec ℕ
unfolding cancel_each
cancel_expired_reservations expire_after = do
  expired ← wrapping "期限切れ予約取得に失敗" (Reservations.get_expired_pending expire_after)
  cancel_each expired 0
