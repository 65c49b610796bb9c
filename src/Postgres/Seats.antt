-- ===== src/Postgres/Seats.antt =====
-- internal/infrastructure/postgres/seat_repository.go
pub mod Entity
pub mod Bulk
pub mod Rounds
use go_event_ticket_reservat.Prelude.{
  ℕ, zero, suc, ◌+◌, String, Bool, Option, none, some, List, [], ◌∷◌, ◌++◌, ltb, nat_beq, ◌&&◌,
  ◌||◌, length, is_some, ◌==◌, if◌then◌else◌,
}
use go_event_ticket_reservat.Prelude.Tables.{
  select_where, find_where, count_where, update_where, sort_by, take, drop, contains,
}
use go_event_ticket_reservat.Errors.{
  Error, Result, ok, err, seat, seat_not_found, seat_not_reserved, seat_already_reserved, driver,
  unique_violation, no_rows, wrapped, is_no_rows,
}
use go_event_ticket_reservat.Domain.Seat.{Seat, available, reserved, confirmed, status_beq}
use go_event_ticket_reservat.World.Rows.{Db}
use go_event_ticket_reservat.Postgres.Timestamp.{timestamp}
use go_event_ticket_reservat.World.Exec.{
  Exec, Statement, pure, require, map_error, wrapping, query, exec_db, exec_tx, ◌>>=◌, ◌>>◌,
}
use go_event_ticket_reservat.Postgres.Tx.{unwrap_tx}

-- WHERE id = $1
abbrev pub has_id : String → Seat → Bool
has_id k s = s.id == k

-- UNIQUE (event_id, seat_number)
abbrev same_place : Seat → Seat → Bool
same_place s t = t.event_id == s.event_id && t.seat_number == s.seat_number

-- The row that INSERT makes: its columns, and NULL in the others.
abbrev pub seat_row : String → Seat → Seat
seat_row id s = record s {
  id = id;
  reserved_by = none;
  reserved_at = none;
  created_at = timestamp s.created_at;
  updated_at = timestamp s.updated_at;
}

-- INSERT INTO seats ... RETURNING id, for one row: its keys and the reference to `events`
unfoldable pub insert_seat : String → Seat → Db → Result (String × Db)
insert_seat id s d =
    if is_some (find_where (has_id id) d.seats) || is_some (find_where (same_place s) d.seats)
    then err unique_violation
    else if is_some (find_where (λ e. e.id == s.event_id) d.events)
    then ok (id, record d { seats = d.seats ++ seat_row id s ∷ [] })
    else err driver

-- Create; the seat gets its id.
unfoldable pub create : Seat → Exec Seat
create s = do id ← exec_db (λ fresh now d. insert_seat (fresh 0) s d); pure (record s { id = id })

abbrev pub consed : Seat → String → Result (List Seat × Db) → Result (List Seat × Db)
consed s id (ok (rest, d)) = ok (record s { id = id } ∷ rest, d)
consed s id (err e) = err e

-- INSERT INTO seats ... VALUES (...), (...) RETURNING id: all rows or none
abbrev pub and_then :
    Seat → Result (String × Db) → (Db → Result (List Seat × Db)) → Result (List Seat × Db)
and_then s (ok (id, d)) rest = consed s id (rest d)
and_then s (err e) rest = err e

unfoldable pub insert_seats : (ℕ → String) → ℕ → List Seat → Db → Result (List Seat × Db)
unfolding insert_seat
insert_seats fresh i [] d = ok ([], d)
insert_seats fresh i (s ∷ ss) d =
    and_then s (insert_seat (fresh i) s d) (insert_seats fresh (suc i) ss)

-- createBulkBatch; the ids go to the seats in the order of the rows.
unfoldable pub create_bulk_batch : List Seat → Exec (List Seat)
unfolding insert_seats
create_bulk_batch [] = pure []
create_bulk_batch (s ∷ ss) =
    wrapping "座席一括作成に失敗" (exec_db (λ fresh now d. insert_seats fresh 0 (s ∷ ss) d))

abbrev pub batch_size : ℕ
batch_size = 1000

-- seats[i:end] with end = min(i + batchSize, len(seats))
abbrev pub batch_at : ℕ → List Seat → List Seat
batch_at i seats = take batch_size (drop i seats)

-- The loop of CreateBulk from `i`, with the rounds left. The seats that have their ids are
-- returned.
unfoldable pub create_bulk_from : ℕ → ℕ → List Seat → Exec (List Seat)
create_bulk_from zero i seats = pure []
create_bulk_from (suc rounds) i seats =
    let round = do
      batch ← create_bulk_batch (batch_at i seats)
      rest ← create_bulk_from rounds (i + batch_size) seats
      pure (batch ++ rest)
    in if ltb i (length seats) then round else pure []

-- CreateBulk; there are at most as many rounds as seats.
unfoldable pub create_bulk : List Seat → Exec (List Seat)
unfolding create_bulk_from create_bulk_batch
create_bulk seats = create_bulk_from (length seats) 0 seats

-- `if errors.Is(err, sql.ErrNoRows) { return ErrSeatNotFound }`
abbrev seat_error : Error → Error
seat_error e = if is_no_rows e then seat seat_not_found else wrapped "座席取得に失敗" e

abbrev pub row_or_none {ℓ} : {A : Type ℓ} → Option A → Result A
row_or_none none = err no_rows
row_or_none (some a) = ok a

unfoldable pub get_by_id : String → Exec Seat
get_by_id id = map_error seat_error (query λ e d. row_or_none (find_where (has_id id) d.seats))

unfoldable pub get_by_event_id : String → Exec (List Seat)
get_by_event_id event_id = query λ e d. ok (
    sort_by (λ s t. e.collate s.seat_number t.seat_number)
      (select_where (λ s. s.event_id == event_id) d.seats))

-- WHERE event_id = $1 AND status = 'available'
abbrev pub is_available_of : String → Seat → Bool
is_available_of event_id s = s.event_id == event_id && status_beq s.status available

unfoldable pub get_available_by_event_id : String → Exec (List Seat)
get_available_by_event_id event_id = query λ e d. ok (
    sort_by (λ s t. e.collate s.seat_number t.seat_number)
      (select_where (is_available_of event_id) d.seats))

unfoldable pub count_available_by_event_id : String → Exec ℕ
count_available_by_event_id event_id =
    query λ e d. ok (count_where (is_available_of event_id) d.seats)

-- The UPDATE of ReserveSeats: which rows, and what it sets. It returns the rows affected.
abbrev pub can_reserve : List String → Seat → Bool
can_reserve ids s = contains ids s.id && status_beq s.status available

abbrev pub reserved_row : String → ℕ → Seat → Seat
reserved_row reservation_id now s = record s {
  status = reserved;
  reserved_by = some reservation_id;
  reserved_at = some now;
  updated_at = now;
  version = s.version + 1;
}

abbrev pub update_reserved : List String → String → Statement ℕ
update_reserved ids reservation_id fresh now d = ok (
  count_where (can_reserve ids) d.seats,
  record d { seats = update_where (can_reserve ids) (reserved_row reservation_id now) d.seats },
)

unfoldable pub reserve_seats : List String → String → Exec (Unit {0})
reserve_seats [] reservation_id = pure tt
reserve_seats (id ∷ ids) reservation_id = do
  unwrap_tx
  rows ← wrapping "座席予約に失敗" (exec_tx (update_reserved (id ∷ ids) reservation_id))
  require (nat_beq rows (length (id ∷ ids))) (seat seat_already_reserved)

-- The UPDATE of ConfirmSeats
abbrev pub can_confirm : List String → Seat → Bool
can_confirm ids s = contains ids s.id && status_beq s.status reserved

abbrev pub confirmed_row : ℕ → Seat → Seat
confirmed_row now s = record s { status = confirmed; updated_at = now; version = s.version + 1 }

abbrev pub update_confirmed : List String → Statement ℕ
update_confirmed ids fresh now d = ok (
  count_where (can_confirm ids) d.seats,
  record d { seats = update_where (can_confirm ids) (confirmed_row now) d.seats },
)

unfoldable pub confirm_seats : List String → Exec (Unit {0})
confirm_seats [] = pure tt
confirm_seats (id ∷ ids) = do
  unwrap_tx
  rows ← wrapping "座席確定に失敗" (exec_tx (update_confirmed (id ∷ ids)))
  require (nat_beq rows (length (id ∷ ids))) (seat seat_not_reserved)

-- The UPDATE of ReleaseSeats, which has no condition but the ids
abbrev pub released_row : ℕ → Seat → Seat
released_row now s = record s {
  status = available;
  reserved_by = none;
  reserved_at = none;
  updated_at = now;
  version = s.version + 1;
}

abbrev pub update_released : List String → Statement (Unit {0})
update_released ids fresh now d =
    ok (tt, record d { seats = update_where (λ s. contains ids s.id) (released_row now) d.seats })

unfoldable pub release_seats : List String → Exec (Unit {0})
release_seats [] = pure tt
release_seats (id ∷ ids) = do unwrap_tx; exec_tx (update_released (id ∷ ids))
