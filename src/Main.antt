-- ===== src/Main.antt =====
-- main of cmd/api/main.go: what it opens, starts and ends, in order. Packages, signals and the
-- failures of what it calls are a record.
pub mod Shutdown
use go_event_ticket_reservat.Prelude.{
  ℕ, ◌*◌, ◌^◌, String, Bool, true, false, Option, none, some, List, [], ◌∷◌, ◌++◌, ◌==◌,
  if◌then◌else◌,
}
use go_event_ticket_reservat.Prelude.Text.{text_append}
use go_event_ticket_reservat.Errors.{Result, ok, err}
use go_event_ticket_reservat.Config.{Config, RedisConfig, Parsers, Environment, load}
use go_event_ticket_reservat.Logger.{Zap, new_logger}
use go_event_ticket_reservat.Postgres.Connection.{Sqlx, new_connection}
use go_event_ticket_reservat.Redis.Client.{ClientConfig, Options, new_client}
use go_event_ticket_reservat.Application.Cleaner.{ExpiredReservationCleaner}

-- What the packages and the system do: `served` is an error of the server that is not
-- ErrServerClosed, before any signal, and `shut_down` the result of the server's Shutdown.
pub record Platform (L C D R : Type 0) : Type 0 where
  pub environment : Environment
  pub parsers : Parsers
  pub zap : Zap L C
  pub sqlx : Sqlx D
  pub run_migrations : D → String → Result (Unit {0})
  pub make_redis : Options → R
  pub ping : R → Result (Unit {0})
  pub served : Result (Unit {0})
  pub shut_down : Result (Unit {0})

-- What main does that can be seen from outside; a Shutdown carries its result; `fatal` is logger.Fatal, which exits at once, `warns`
-- and `logs_error` are messages of a failure after which main goes on.
pub data Action (L D R : Type 0) : Type 0 where
  sets_logger : L → Action L D R
  opens_database : D → Action L D R
  migrates : String → Action L D R
  opens_redis : R → Action L D R
  starts_cleaner : ExpiredReservationCleaner → Action L D R
  serves : String → Action L D R
  shuts_down : ℕ → Result (Unit {0}) → Action L D R
  warns fatal gets_signal cancels_context stops_cleaner logs_error : Action L D R
  cancels_timeout closes_redis closes_database syncs_logger : Action L D R

-- What is done, and whether it ends by a return; otherwise the process has exited.
pub record Course (L D R : Type 0) : Type 0 where
  pub actions : List (Action L D R)
  pub returns : Bool

abbrev pub app_env : Environment → String
app_env getenv = if getenv "APP_ENV" == "" then "development" else getenv "APP_ENV"

-- &redisinfra.Config{...}
abbrev pub client_config : RedisConfig → ClientConfig
client_config c = record { host = c.host; port = c.port; password = c.password; db = c.db }

abbrev minute : ℕ
minute = 60 * 10 ^ 9

abbrev pub cleaner : ExpiredReservationCleaner
cleaner = record { interval = 1 * minute; expire_after = 15 * minute }

module _ {L D R : Type 0} where
  infixr 20 ◌before◌
  abbrev pub ◌before◌ : Action L D R → Course L D R → Course L D R
  a before c = record c { actions = a ∷ c.actions }

  -- `defer a`: it runs where main returns, and not where the process exits.
  abbrev pub deferring : Action L D R → Course L D R → Course L D R
  deferring a c = if c.returns then record c { actions = c.actions ++ a ∷ [] } else c

  abbrev pub exits : Course L D R
  exits = record { actions = fatal ∷ []; returns = false }

  abbrev shut : Result (Unit {0}) → Course L D R
  shut (ok _) = record { actions = []; returns = true }
  shut (err _) = record { actions = logs_error ∷ []; returns = true }

module _ {L C D R : Type 0} where
  -- From the start of the server
  abbrev runs : Platform L C D R → Result (Unit {0}) → Course L D R
  runs p (err _) = exits
  runs p (ok _) =
      gets_signal
      before cancels_context
      before stops_cleaner
      before deferring cancels_timeout
          (shuts_down (30 * 10 ^ 9) p.shut_down before shut p.shut_down)

  -- From the services on
  unfoldable pub starts : Platform L C D R → Config → Course L D R
  starts p cfg =
      starts_cleaner cleaner before serves (text_append ":" cfg.server.port) before runs p p.served

  abbrev with_redis : Platform L C D R → Config → Result R → Course L D R
  with_redis p cfg (ok client) = opens_redis client before deferring closes_redis (starts p cfg)
  with_redis p cfg (err _) = warns before starts p cfg

  -- After the connection to the database
  abbrev migrated : Platform L C D R → Config → Result (Unit {0}) → Course L D R
  migrated p cfg (err _) = exits
  migrated p cfg (ok _) =
      with_redis p cfg (new_client p.make_redis p.ping (client_config cfg.redis))

  abbrev connected : Platform L C D R → Config → Result D → Course L D R
  connected p cfg (err _) = exits
  connected p cfg (ok db) =
      opens_database db
      before deferring closes_database
          (migrates "db/migrations" before migrated p cfg (p.run_migrations db "db/migrations"))

  -- main
  unfoldable pub main : Platform L C D R → Course L D R
  unfolding load new_logger new_connection new_client starts
  main p =
      let cfg = load p.parsers p.environment in
      sets_logger (new_logger p.zap p.environment (app_env p.environment))
      before deferring syncs_logger (connected p cfg (new_connection p.sqlx cfg.database))
