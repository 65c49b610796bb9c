-- ===== src/Postgres/Events.antt =====
-- internal/infrastructure/postgres/event_repository.go
pub mod Version
use go_event_ticket_reservat.Prelude.{
  ℕ, ◌+◌, String, Bool, Option, none, some, List, [], ◌∷◌, ◌++◌, leb, nat_beq, not, map, ◌&&◌,
  is_some, ◌==◌, if◌then◌else◌,
}
use go_event_ticket_reservat.Prelude.Tables.{
  select_where, find_where, count_where, update_where, sort_by, take, drop,
}
use go_event_ticket_reservat.Prelude.Int.{ℤ, pos_part}
use go_event_ticket_reservat.Errors.{
  Error, Result, ok, err, event, event_not_found, driver, unique_violation, wrapped, is_no_rows,
}
use go_event_ticket_reservat.Domain.Event.{Event}
use go_event_ticket_reservat.Domain.Seat.{Seat}
use go_event_ticket_reservat.World.Rows.{Db, EventRow}
use go_event_ticket_reservat.Postgres.Timestamp.{timestamp}
use go_event_ticket_reservat.World.Exec.{
  Exec, Statement, pure, require, map_error, wrapping, query, exec_db, time_now, ◌>>=◌, ◌>>◌,
}
use go_event_ticket_reservat.Postgres.Seats.{row_or_none}
use go_event_ticket_reservat.Postgres.Reservations.{page}

-- A text column that may be NULL, read and written.
abbrev pub text_or_empty : Option String → String
text_or_empty none = ""
text_or_empty (some s) = s

abbrev pub null_if_empty : String → Option String
null_if_empty s = if s == "" then none else some s

unfoldable pub to_entity : EventRow → Event
to_entity r = record {
  id = r.id;
  name = r.name;
  description = text_or_empty r.description;
  venue = text_or_empty r.venue;
  start_at = r.start_at;
  end_at = r.end_at;
  total_seats = r.total_seats;
  created_at = r.created_at;
  updated_at = r.updated_at;
  version = r.version;
}

abbrev pub event_has_id : String → EventRow → Bool
event_has_id k e = e.id == k

abbrev pub event_row : String → Event → EventRow
event_row id e = record {
  id = id;
  name = e.name;
  description = null_if_empty e.description;
  venue = null_if_empty e.venue;
  start_at = timestamp e.start_at;
  end_at = timestamp e.end_at;
  total_seats = e.total_seats;
  created_at = timestamp e.created_at;
  updated_at = timestamp e.updated_at;
  version = e.version;
}

-- INSERT INTO events ... RETURNING id
unfoldable pub insert_event : String → Event → Db → Result (String × Db)
insert_event id e d =
    if is_some (find_where (event_has_id id) d.events)
    then err unique_violation
    else ok (id, record d { events = d.events ++ event_row id e ∷ [] })

-- Create; the event gets its id.
unfoldable pub create : Event → Exec Event
create e = do
  id ← wrapping "イベント作成に失敗しました" (exec_db (λ fresh now d. insert_event (fresh 0) e d))
  pure (record e { id = id })

abbrev event_error : Error → Error
event_error e = if is_no_rows e then event event_not_found else wrapped "イベント取得に失敗しました" e

unfoldable pub get_by_id : String → Exec Event
unfolding to_entity
get_by_id id = do
  row ← map_error event_error (query λ e d. row_or_none (find_where (event_has_id id) d.events))
  pure (to_entity row)

-- List: ORDER BY start_at DESC LIMIT $1 OFFSET $2
unfoldable pub list : ℤ → ℤ → Exec (List Event)
unfolding to_entity
list limit offset = do
  rows ← wrapping "イベント一覧取得に失敗しました" (
      query λ e d. page limit offset (
        ok (
          take (pos_part limit)
            (drop (pos_part offset) (sort_by (λ a b. leb b.start_at a.start_at) d.events)))))
  pure (map to_entity rows)

-- The UPDATE of Update: which row, and what it sets. It returns the rows affected.
abbrev pub is_version : Event → EventRow → Bool
is_version e r = r.id == e.id && nat_beq r.version e.version

abbrev pub updated_event : Event → ℕ → EventRow → EventRow
updated_event e now r = record r {
  name = e.name;
  description = null_if_empty e.description;
  venue = null_if_empty e.venue;
  start_at = timestamp e.start_at;
  end_at = timestamp e.end_at;
  total_seats = e.total_seats;
  updated_at = timestamp now;
  version = r.version + 1;
}

abbrev pub update_event : Event → ℕ → Statement ℕ
update_event e now fresh db_now d = ok (
  count_where (is_version e) d.events,
  record d { events = update_where (is_version e) (updated_event e now) d.events },
)

-- Update; the event's version is raised with its row's.
unfoldable pub update : Event → Exec Event
update e = do
  now ← time_now
  rows ← wrapping "イベント更新に失敗しました" (exec_db (update_event e now))
  require (not (nat_beq rows 0)) (event event_not_found)
  pure (record e { version = e.version + 1 })

-- The seats of a deleted event go with it, and the links to them.
abbrev pub is_seat_of : String → List Seat → String × String → Bool
is_seat_of id seats (rid, sid) = is_some (find_where (λ s. s.id == sid && s.event_id == id) seats)

-- DELETE FROM events WHERE id = $1. A reservation of the event forbids it; `seats` and
-- `reservation_seats` cascade. It returns the rows affected.
unfoldable pub delete_event : String → Statement ℕ
delete_event id fresh now d =
    if is_some (find_where (λ r. r.event_id == id) d.reservations)
      && is_some (find_where (event_has_id id) d.events)
    then err driver
    else if is_some (find_where (event_has_id id) d.events)
    then ok (
      count_where (event_has_id id) d.events,
      record d {
        events = select_where (λ e. not (event_has_id id e)) d.events;
        seats = select_where (λ s. not (s.event_id == id)) d.seats;
        reservation_seats = select_where (λ l. not (is_seat_of id d.seats l)) d.reservation_seats;
      },
    )
    else ok (0, d)

unfoldable pub delete : String → Exec (Unit {0})
unfolding delete_event
delete id = do
  rows ← wrapping "イベント削除に失敗しました" (exec_db (delete_event id))
  require (not (nat_beq rows 0)) (event event_not_found)
