-- ===== src/Redis/Cache.antt =====
-- internal/infrastructure/redis/seat_cache.go
pub mod Replay
use go_event_ticket_reservat.Prelude.{
  ℕ, String, Bool, true, false, Option, none, some, if◌then◌else◌,
}
use go_event_ticket_reservat.Prelude.Int.{ℤ}
use go_event_ticket_reservat.Prelude.Text.{text_append}
use go_event_ticket_reservat.Errors.{
  Error, Result, ok, err, cache_miss, redis_nil, driver, wrapped, is_redis_nil,
}
use go_event_ticket_reservat.World.Rows.{get, set, del}
use go_event_ticket_reservat.World.Exec.{Exec, lift, map_error, send, ◌>>=◌}

abbrev pub available_count_key : String → String
available_count_key event_id = text_append "seats:available:" event_id

-- client.Get(ctx, key).Int()
abbrev int_reply : Option (Option ℤ) → Result ℤ
int_reply none = err driver
int_reply (some none) = err redis_nil
int_reply (some (some n)) = ok n

abbrev get_error : Error → Error
get_error e = if is_redis_nil e then cache_miss else wrapped "キャッシュ取得に失敗" e

unfoldable pub get_available_count : String → Exec ℤ
get_available_count event_id = map_error get_error do
  reply ← send (get (available_count_key event_id)) (λ e n. e.reply_get n)
  lift (int_reply reply)

abbrev acked : String → Bool → Result (Unit {0})
acked message true = ok tt
acked message false = err (wrapped message driver)

unfoldable pub set_available_count : String → ℤ → ℕ → Exec (Unit {0})
set_available_count event_id count ttl = do
  reply ← send (set (available_count_key event_id) count ttl) (λ e n. e.reply_ack n)
  lift (acked "キャッシュ保存に失敗" reply)

unfoldable pub invalidate : String → Exec (Unit {0})
invalidate event_id = do
  reply ← send (del (available_count_key event_id)) (λ e n. e.reply_ack n)
  lift (acked "キャッシュ無効化に失敗" reply)
