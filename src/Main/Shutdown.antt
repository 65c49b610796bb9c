-- ===== src/Main/Shutdown.antt =====
-- The order in which main of cmd/api/main.go opens, starts, stops and closes.
use go_event_ticket_reservat.Prelude.{
  ◌≡◌, refl, Bool, true, false, not, ◌&&◌, ◌||◌, Option, none, some, List, [], ◌∷◌, if◌then◌else◌,
  inl, inr,
}
use go_event_ticket_reservat.Errors.{Result, ok, err, Result-cases}
use go_event_ticket_reservat.Config.{Config, load}
use go_event_ticket_reservat.Postgres.Connection.{new_connection}
use go_event_ticket_reservat.Redis.Client.{new_client}
use go_event_ticket_reservat.Main.{
  Platform, Action, sets_logger, opens_database, migrates, opens_redis, warns, starts_cleaner,
  serves, stops_cleaner, shuts_down, closes_redis, closes_database, syncs_logger, Course,
  client_config, starts, migrated, connected, main, ◌before◌, deferring,
}

-- What is open and what runs
pub record Running : Type 0 where
  pub database : Bool
  pub migrated : Bool
  pub redis : Bool
  pub cleaner : Bool
  pub server : Bool

abbrev pub nothing : Running
nothing = record {
  database = false;
  migrated = false;
  redis = false;
  cleaner = false;
  server = false;
}

abbrev given : {A : Type 0} → Bool → A → Option A
given b a = if b then some a else none

abbrev busy : Running → Bool
busy s = s.cleaner || s.server

-- The cleaner and the server need the migrated database, and nothing is closed that they may use. A
-- Shutdown that fails leaves handlers of the server running.
abbrev allowed : {L D R : Type 0} → Action L D R → Running → Option Running
allowed (opens_database _) s = given (not s.database) (record s { database = true })
allowed (migrates _) s = given (s.database && not (busy s)) (record s { migrated = true })
allowed (opens_redis _) s = given (not s.redis) (record s { redis = true })
allowed (starts_cleaner _) s = given s.migrated (record s { cleaner = true })
allowed (serves _) s = given s.migrated (record s { server = true })
allowed stops_cleaner s = given s.cleaner (record s { cleaner = false })
allowed (shuts_down _ (ok _)) s = given s.server (record s { server = false })
allowed (shuts_down _ (err _)) s = given s.server s
allowed closes_redis s = given (s.redis && not (busy s)) (record s { redis = false })
allowed closes_database s =
    given (s.database && not (busy s)) (record s { database = false; migrated = false })
allowed _ s = some s

abbrev pub follow : {L D R : Type 0} → List (Action L D R) → Option Running → Option Running
follow [] s = s
follow (a ∷ rest) none = none
follow (a ∷ rest) (some s) = follow rest (allowed a s)

-- Each action is allowed, and where main returns nothing is left open or running.
pub record Orderly {L D R : Type 0} (c : Course L D R) : Type 0 where
  pub ends : Running
  pub is_allowed : follow c.actions (some nothing) ≡ some ends
  pub is_closed : c.returns ≡ true → ends ≡ nothing

module _ {L C D R : Type 0} (p : Platform L C D R) (quiet : p.shut_down ≡ ok tt) where
  abbrev opened : L → D → Course L D R → Course L D R
  opened l db c =
      sets_logger l
      before deferring syncs_logger
          (opens_database db before deferring closes_database (migrates "db/migrations" before c))

  opened-starts :
      (l : L) (db : D) (cfg : Config) → Orderly (opened l db (warns before starts p cfg))
  unfolding starts
  opened-starts l db cfg = elim (Result-cases p.served) [
    | inl (e, is) ↦ rw is (record { ends = _; is_allowed = refl; is_closed = λ h. absurd cc })
    | inr (_, is) ↦ rw (is, quiet) (record { ends = _; is_allowed = refl; is_closed = λ h. refl })
  ]

  opened-redis :
      (l : L) (db : D) (client : R) (cfg : Config)
      → Orderly (opened l db (opens_redis client before deferring closes_redis (starts p cfg)))
  unfolding starts
  opened-redis l db client cfg = elim (Result-cases p.served) [
    | inl (e, is) ↦ rw is (record { ends = _; is_allowed = refl; is_closed = λ h. absurd cc })
    | inr (_, is) ↦ rw (is, quiet) (record { ends = _; is_allowed = refl; is_closed = λ h. refl })
  ]

  opened-Orderly :
      (l : L) (db : D) (cfg : Config) (m : Result (Unit {0}))
      → Orderly (opened l db (migrated p cfg m))
  opened-Orderly l db cfg (err e) = record {
    ends = _;
    is_allowed = refl;
    is_closed = λ h. absurd cc;
  }
  opened-Orderly l db cfg (ok _) =
      elim (Result-cases (new_client p.make_redis p.ping (client_config cfg.redis))) [
        | inl (e, is) ↦ rw is (opened-starts l db cfg)
        | inr (client, is) ↦ rw is (opened-redis l db client cfg)
      ]

  connected-Orderly :
      (l : L) (cfg : Config) (r : Result D)
      → Orderly (sets_logger l before deferring syncs_logger (connected p cfg r))
  connected-Orderly l cfg (err e) = record {
    ends = _;
    is_allowed = refl;
    is_closed = λ h. absurd cc;
  }
  connected-Orderly l cfg (ok db) = opened-Orderly l db cfg (p.run_migrations db "db/migrations")

  -- If Shutdown ends without an error where it is called, main opens and closes in order, whatever
  -- else fails: the cleaner and the server start only with the database open and migrated, nothing is
  -- closed while they may use it, and where main returns, after a signal, both have stopped and all
  -- that was opened is closed.
  pub main-Orderly : Orderly (main p)
  unfolding main
  main-Orderly =
      connected-Orderly _ (load p.parsers p.environment)
        (new_connection p.sqlx (load p.parsers p.environment).database)
