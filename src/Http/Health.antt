-- ===== src/Http/Health.antt =====
-- internal/api/handler/health.go
use go_event_ticket_reservat.Prelude.{ℕ, String}
use go_event_ticket_reservat.World.Exec.{time_now}
use go_event_ticket_reservat.Http.{http_error, Handler, done, call, ◌>>=◌}
use go_event_ticket_reservat.Http.Text.{error_text}
use go_event_ticket_reservat.Http.Validator.{Packages}

pub record HealthResponse : Type 0 where
  pub status : String
  pub timestamp : String

-- Check; the clock does not fail.
unfoldable pub check : Packages → Handler (ℕ × HealthResponse)
check p = do
  now ← call time_now (λ e. http_error 500 (error_text p.foreign e))
  done (200, record { status = "ok"; timestamp = p.format_time now })
