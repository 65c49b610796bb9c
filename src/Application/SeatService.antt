-- ===== src/Application/SeatService.antt =====
-- internal/application/seat_service.go
pub mod Outdated
pub mod Numbered
use go_event_ticket_reservat.Prelude.{
  ℕ, zero, suc, ◌*◌, ◌^◌, String, Bool, List, [], ◌∷◌, if◌then◌else◌,
}
use go_event_ticket_reservat.Prelude.Int.{ℤ, pos, pos_part}
use go_event_ticket_reservat.Prelude.Text.{text_append, decimal}
use go_event_ticket_reservat.Errors.{Result, ok, err}
use go_event_ticket_reservat.Domain.Seat
use go_event_ticket_reservat.Domain.Seat.{Seat, new_seat}
use go_event_ticket_reservat.World.Exec.{Exec, pure, lift, attempt, wrapping, time_now, ◌>>=◌, ◌>>◌}
use go_event_ticket_reservat.Postgres.Events
use go_event_ticket_reservat.Postgres.Seats
use go_event_ticket_reservat.Redis.Cache

-- SeatService: whether it has a cache. The repositories are those of `Postgres`.
pub record SeatService : Type 0 where
  pub cache : Bool

pub record CreateSeatInput : Type 0 where
  pub event_id : String
  pub seat_number : String
  pub price : ℤ

unfoldable pub create_seat : CreateSeatInput → Exec Seat
create_seat input = do
  wrapping "イベント取得に失敗" (Events.get_by_id input.event_id)
  now ← time_now
  let se = new_seat now input.event_id input.seat_number input.price
  lift (Seat.validate se)
  Seats.create se

pub record CreateBulkSeatsInput : Type 0 where
  pub event_id : String
  pub prefix : String
  pub count : ℤ
  pub price : ℤ

-- fmt.Sprintf("%s-%d", prefix, i)
unfoldable pub seat_number : String → ℕ → String
seat_number prefix i = text_append prefix (text_append "-" (decimal i))

-- The loop of CreateBulkSeats, from `i` for the rounds left
unfoldable pub new_seats : CreateBulkSeatsInput → ℕ → ℕ → Exec (List Seat)
unfolding seat_number
new_seats input zero i = pure []
new_seats input (suc rounds) i = do
  now ← time_now
  let se = new_seat now input.event_id (seat_number input.prefix i) input.price
  lift (Seat.validate se)
  rest ← new_seats input rounds (suc i)
  pure (se ∷ rest)

unfoldable pub create_bulk_seats : CreateBulkSeatsInput → Exec (List Seat)
unfolding new_seats
create_bulk_seats input = do
  wrapping "イベント取得に失敗" (Events.get_by_id input.event_id)
  seats ← new_seats input (pos_part input.count) 1
  Seats.create_bulk seats

unfoldable pub get_seat : String → Exec Seat
get_seat id = Seats.get_by_id id

unfoldable pub get_seats_by_event : String → Exec (List Seat)
get_seats_by_event event_id = Seats.get_by_event_id event_id

unfoldable pub get_available_seats_by_event : String → Exec (List Seat)
get_available_seats_by_event event_id = Seats.get_available_by_event_id event_id

-- seatCacheTTL, in nanoseconds
abbrev pub seat_cache_ttl : ℕ
seat_cache_ttl = 30 * 10 ^ 9

-- An error of the cache is only logged.
abbrev keep_count : SeatService → String → ℤ → Exec (Unit {0})
keep_count s event_id n =
    if s.cache
    then (do attempt (Cache.set_available_count event_id n seat_cache_ttl); pure tt)
    else pure tt

-- The count from the database, kept in the cache if there is one
unfoldable pub count_and_cache : SeatService → String → Exec ℤ
count_and_cache s event_id = do
  n ← Seats.count_available_by_event_id event_id
  keep_count s event_id (pos n)
  pure (pos n)

abbrev pub unless_cached : Result ℤ → Exec ℤ → Exec ℤ
unless_cached (ok n) from_db = pure n
unless_cached (err e) from_db = from_db

unfoldable pub count_available_seats : SeatService → String → Exec ℤ
unfolding count_and_cache
count_available_seats s event_id =
    if s.cache
    then (do
      cached ← attempt (Cache.get_available_count event_id)
      unless_cached cached (count_and_cache s event_id))
    else count_and_cache s event_id

unfoldable pub invalidate_cache : SeatService → String → Exec (Unit {0})
invalidate_cache s event_id =
    if s.cache then (do attempt (Cache.invalidate event_id); pure tt) else pure tt
