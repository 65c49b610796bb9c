-- ===== src/World/Rows.antt =====
-- The tables of db/migrations/000001_create_initial_tables.up.sql, and internal/pkg/metrics.
use go_event_ticket_reservat.Prelude.{ℕ, String, Bool, Option, List}
use go_event_ticket_reservat.Prelude.Int.{ℤ}
use go_event_ticket_reservat.Domain.Seat.{Seat}
use go_event_ticket_reservat.Domain.Reservation.{Status}

-- eventRow of postgres/event_repository.go
pub record EventRow : Type 0 where
  pub id : String
  pub name : String
  pub description : Option String
  pub venue : Option String
  pub start_at : ℕ
  pub end_at : ℕ
  pub total_seats : ℤ
  pub created_at : ℕ
  pub updated_at : ℕ
  pub version : ℕ

-- reservationRow of postgres/reservation_repository.go
pub record ReservationRow : Type 0 where
  pub id : String
  pub event_id : String
  pub user_id : String
  pub status : Status
  pub idempotency_key : String
  pub total_amount : ℤ
  pub expires_at : ℕ
  pub confirmed_at : Option ℕ
  pub created_at : ℕ
  pub updated_at : ℕ

-- A row of `seats` has the fields of the entity. A row of `reservation_seats` is a pair of a
-- reservation's and a seat's id.
pub record Db : Type 0 where
  pub events : List EventRow
  pub seats : List Seat
  pub reservations : List ReservationRow
  pub reservation_seats : List (String × String)

-- The commands sent to Redis.
pub data Command : Type 0 where
  set_nx : String → String → ℕ → Command
  eval_release : String → String → Command
  eval_extend : String → String → ℕ → Command
  get : String → Command
  set : String → ℤ → ℕ → Command
  del : String → Command

-- The counters `ReservationsTotal` by label, and how often the gauges `ActiveReservations` were
-- raised and lowered.
pub record Metrics : Type 0 where
  pub success : ℕ
  pub conflict : ℕ
  pub lock_failed : ℕ
  pub pending_inc : ℕ
  pub pending_dec : ℕ
  pub confirmed_inc : ℕ

-- What the program does not decide. Each call of the clock, of the database, of the id generator
-- and of Redis takes the next number, and the environment answers for that number: any behaviour
-- of these services is some such record.
pub record Env : Type 0 where
  -- time.Now(), and NOW() in SQL
  pub now : ℕ → ℕ
  pub db_now : ℕ → ℕ
  -- the statement fails in the driver, and is not applied
  pub fails : ℕ → Bool
  -- gen_random_uuid() for the rows of one statement, and uuid.New()
  pub uuid : ℕ → ℕ → String
  -- the order of ORDER BY on a text column
  pub collate : String → String → Bool
  -- replies of Redis; `none` is a failure of the call
  pub reply_set_nx : ℕ → Option Bool
  pub reply_get : ℕ → Option (Option ℤ)
  pub reply_eval : ℕ → Option ℤ
  pub reply_ack : ℕ → Bool
  -- the context is done when a retry would wait
  pub cancelled : ℕ → Bool

pub record World : Type 0 where
  pub env : Env
  pub at : ℕ
  pub db : Db
  pub tx : Option Db
  pub sent : List Command
  pub metrics : Option Metrics
