-- ===== src/Http/Text.antt =====
-- The texts of errors: internal/domain/*/errors.go, the errors of internal/infrastructure/redis and
-- `Error()` of what `fmt.Errorf` makes.
use go_event_ticket_reservat.Prelude.{String}
use go_event_ticket_reservat.Prelude.Text.{text_append}
use go_event_ticket_reservat.Errors.{
  Error, EventError, SeatError, ReservationError, event, seat, reservation, lock_not_acquired,
  lock_not_owned, cache_miss, no_rows, unique_violation, redis_nil, context_done, driver, wrapped,
  text,
}

unfoldable pub event_text : EventError → String
event_text EventError.event_not_found = "イベントが見つかりません"
event_text EventError.event_name_required = "イベント名は必須です"
event_text EventError.invalid_total_seats = "座席数は1以上である必要があります"
event_text EventError.invalid_event_time = "終了時刻は開始時刻より後である必要があります"
event_text EventError.event_not_open = "イベントの予約受付期間外です"
event_text EventError.optimistic_lock_conflict = "楽観的ロックの競合が発生しました"

unfoldable pub seat_text : SeatError → String
seat_text SeatError.seat_not_found = "座席が見つかりません"
seat_text SeatError.seat_not_available = "座席は予約できません"
seat_text SeatError.seat_not_reserved = "座席は予約されていません"
seat_text SeatError.seat_already_reserved = "座席は既に予約されています"
seat_text SeatError.event_id_required = "イベントIDは必須です"
seat_text SeatError.seat_number_required = "座席番号は必須です"
seat_text SeatError.invalid_price = "価格は0以上である必要があります"
seat_text SeatError.optimistic_lock_conflict = "楽観的ロックの競合が発生しました"

unfoldable pub reservation_text : ReservationError → String
reservation_text ReservationError.reservation_not_found = "予約が見つかりません"
reservation_text ReservationError.reservation_not_pending = "予約は保留中ではありません"
reservation_text ReservationError.reservation_expired = "予約の有効期限が切れています"
reservation_text ReservationError.reservation_already_cancelled = "予約は既にキャンセルされています"
reservation_text ReservationError.reservation_already_confirmed = "予約は既に確定されています"
reservation_text ReservationError.event_id_required = "イベントIDは必須です"
reservation_text ReservationError.user_id_required = "ユーザーIDは必須です"
reservation_text ReservationError.seat_ids_required = "座席IDは必須です"
reservation_text ReservationError.idempotency_key_required = "冪等性キーは必須です"
reservation_text ReservationError.idempotency_key_already_exists = "同じ冪等性キーの予約が既に存在します"

-- err.Error(); the texts of the drivers' errors are given. `wrapped` has the format "message: %w".
unfoldable pub error_text : (Error → String) → Error → String
error_text foreign (event e) = event_text e
error_text foreign (seat e) = seat_text e
error_text foreign (reservation e) = reservation_text e
error_text foreign lock_not_acquired = "ロックを取得できませんでした"
error_text foreign lock_not_owned = "ロックの所有者ではありません"
error_text foreign cache_miss = "キャッシュが見つかりません"
error_text foreign (wrapped message e) =
    text_append message (text_append ": " (error_text foreign e))
error_text foreign (text message) = message
error_text foreign no_rows = foreign no_rows
error_text foreign unique_violation = foreign unique_violation
error_text foreign redis_nil = foreign redis_nil
error_text foreign context_done = foreign context_done
error_text foreign driver = foreign driver
