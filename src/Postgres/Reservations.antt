-- ===== src/Postgres/Reservations.antt =====
-- internal/infrastructure/postgres/reservation_repository.go
use go_event_ticket_reservat.Prelude.{
  ℕ, ◌-◌, String, Bool, none, List, [], ◌∷◌, ◌++◌, ltb, leb, nat_beq, not, ◌&&◌, ◌||◌, is_some,
  ◌==◌, if◌then◌else◌,
}
use go_event_ticket_reservat.Prelude.Tables.{
  select_where, find_where, count_where, update_where, sort_by, take, drop,
}
use go_event_ticket_reservat.Prelude.Int.{ℤ, pos, ltb_ℤ, pos_part}
use go_event_ticket_reservat.Errors.{
  Error, Result, ok, err, reservation, reservation_not_found, idempotency_key_already_exists,
  driver, unique_violation, wrapped, is_no_rows, is_unique_violation,
}
use go_event_ticket_reservat.Domain.Reservation.{Reservation, pending, status_beq}
use go_event_ticket_reservat.World.Rows.{Db, ReservationRow}
use go_event_ticket_reservat.Postgres.Timestamp.{timestamp, timestamp_or_null}
use go_event_ticket_reservat.World.Exec.{
  Exec, Statement, pure, require, map_error, wrapping, query, exec_tx, time_now, ◌>>=◌, ◌>>◌,
}
use go_event_ticket_reservat.Postgres.Tx.{unwrap_tx}
use go_event_ticket_reservat.Postgres.Seats.{row_or_none}

-- WHERE id = $1
abbrev pub row_has_id : String → ReservationRow → Bool
row_has_id k r = r.id == k

-- WHERE idempotency_key = $1
abbrev pub row_has_key : String → ReservationRow → Bool
row_has_key k r = r.idempotency_key == k

-- The row that INSERT INTO reservations makes.
abbrev pub reservation_row : String → Reservation → ReservationRow
reservation_row id r = record {
  id = id;
  event_id = r.event_id;
  user_id = r.user_id;
  status = r.status;
  idempotency_key = r.idempotency_key;
  total_amount = r.total_amount;
  expires_at = timestamp r.expires_at;
  confirmed_at = none;
  created_at = timestamp r.created_at;
  updated_at = timestamp r.updated_at;
}

-- INSERT INTO reservations ... RETURNING id: its keys and the reference to `events`
unfoldable pub insert_reservation : String → Reservation → Db → Result (String × Db)
insert_reservation id r d =
    if is_some (find_where (row_has_id id) d.reservations)
      || is_some (find_where (row_has_key r.idempotency_key) d.reservations)
    then err unique_violation
    else if is_some (find_where (λ e. e.id == r.event_id) d.events)
    then ok (id, record d { reservations = d.reservations ++ reservation_row id r ∷ [] })
    else err driver

-- WHERE reservation_id = $1, and the primary key of `reservation_seats`
abbrev pub is_link : String → String → String × String → Bool
is_link rid sid (r, s) = r == rid && s == sid

-- INSERT INTO reservation_seats: its key and its references
unfoldable pub insert_link : String → String → Db → Result (Unit {0} × Db)
insert_link rid sid d =
    if is_some (find_where (is_link rid sid) d.reservation_seats)
    then err unique_violation
    else if is_some (find_where (row_has_id rid) d.reservations)
        && is_some (find_where (λ s. s.id == sid) d.seats)
    then ok (tt, record d { reservation_seats = d.reservation_seats ++ (rid, sid) ∷ [] })
    else err driver

-- The loop of Create over the seats.
unfoldable pub insert_links : String → List String → Exec (Unit {0})
insert_links rid [] = pure tt
insert_links rid (sid ∷ sids) = do
  wrapping "予約座席関連付けに失敗" (exec_tx (λ fresh now d. insert_link rid sid d))
  insert_links rid sids

abbrev pub create_error : Error → Error
create_error e =
    if is_unique_violation e
    then reservation idempotency_key_already_exists
    else wrapped "予約作成に失敗" e

-- Create; the reservation gets its id.
unfoldable pub create : Reservation → Exec Reservation
unfolding insert_links
create r = do
  unwrap_tx
  id ← map_error create_error (exec_tx (λ fresh now d. insert_reservation (fresh 0) r d))
  insert_links id r.seat_ids
  pure (record r { id = id })

abbrev pub links_of : String → List (String × String) → List String
links_of rid [] = []
links_of rid ((r, s) ∷ ls) = let rest = links_of rid ls in if r == rid then s ∷ rest else rest

unfoldable pub get_seat_ids : String → Exec (List String)
get_seat_ids rid = wrapping "座席ID取得に失敗" (query λ e d. ok (links_of rid d.reservation_seats))

unfoldable pub to_entity : ReservationRow → List String → Reservation
to_entity r seat_ids = record {
  id = r.id;
  event_id = r.event_id;
  user_id = r.user_id;
  seat_ids = seat_ids;
  status = r.status;
  idempotency_key = r.idempotency_key;
  expires_at = r.expires_at;
  confirmed_at = r.confirmed_at;
  total_amount = r.total_amount;
  created_at = r.created_at;
  updated_at = r.updated_at;
}

abbrev row_error : Error → Error
row_error e = if is_no_rows e then reservation reservation_not_found else wrapped "予約取得に失敗" e

unfoldable pub get_by_id : String → Exec Reservation
unfolding get_seat_ids to_entity
get_by_id id = do
  row ← map_error row_error (query λ e d. row_or_none (find_where (row_has_id id) d.reservations))
  seat_ids ← get_seat_ids id
  pure (to_entity row seat_ids)

unfoldable pub get_by_idempotency_key : String → Exec Reservation
unfolding get_seat_ids to_entity
get_by_idempotency_key key = do
  row ← map_error row_error (query λ e d. row_or_none (find_where (row_has_key key) d.reservations))
  seat_ids ← get_seat_ids row.id
  pure (to_entity row seat_ids)

-- The loops that read the seats of each row.
unfoldable pub with_seat_ids : List ReservationRow → Exec (List Reservation)
unfolding get_seat_ids to_entity
with_seat_ids [] = pure []
with_seat_ids (row ∷ rows) = do
  seat_ids ← get_seat_ids row.id
  rest ← with_seat_ids rows
  pure (to_entity row seat_ids ∷ rest)

-- LIMIT and OFFSET refuse a negative number.
abbrev pub page {ℓ} : {A : Type ℓ} → ℤ → ℤ → Result A → Result A
page limit offset r = if ltb_ℤ limit (pos 0) || ltb_ℤ offset (pos 0) then err driver else r

-- GetByUserID: ORDER BY created_at DESC LIMIT $2 OFFSET $3
unfoldable pub get_by_user_id : String → ℤ → ℤ → Exec (List Reservation)
unfolding with_seat_ids
get_by_user_id user_id limit offset = do
  rows ← wrapping "予約一覧取得に失敗" (
      query λ e d. page limit offset (
        ok (
          take (pos_part limit) (
            drop (pos_part offset) (
              sort_by (λ a b. leb b.created_at a.created_at)
                (select_where (λ r. r.user_id == user_id) d.reservations))))))
  with_seat_ids rows

-- The UPDATE of Update. It returns the rows affected.
abbrev pub updated_row : Reservation → ReservationRow → ReservationRow
updated_row r row = record row {
  status = r.status;
  confirmed_at = timestamp_or_null r.confirmed_at;
  updated_at = timestamp r.updated_at;
}

abbrev pub update_reservation : Reservation → Statement ℕ
update_reservation r fresh now d = ok (
  count_where (row_has_id r.id) d.reservations,
  record d { reservations = update_where (row_has_id r.id) (updated_row r) d.reservations },
)

unfoldable pub update : Reservation → Exec (Unit {0})
update r = do
  unwrap_tx
  rows ← wrapping "予約更新に失敗" (exec_tx (update_reservation r))
  require (not (nat_beq rows 0)) (reservation reservation_not_found)

-- GetExpiredPending: WHERE status = 'pending' AND created_at < $1. No time lies before the origin,
-- so a cutoff before it is one at it.
abbrev pub is_old_pending : ℕ → ReservationRow → Bool
is_old_pending cutoff r = status_beq r.status pending && ltb r.created_at cutoff

unfoldable pub get_expired_pending : ℕ → Exec (List Reservation)
unfolding with_seat_ids
get_expired_pending expire_after = do
  now ← time_now
  rows ← wrapping "期限切れ予約取得に失敗" (
      query
        λ e d. ok (select_where (is_old_pending (timestamp (now - expire_after))) d.reservations))
  with_seat_ids rows
