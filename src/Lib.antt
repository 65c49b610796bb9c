-- ===== src/Lib.antt =====
-- A reservation system for the tickets of events, in Go: HTTP handlers over services over a
-- PostgreSQL database, with a lock and a cache in Redis and a worker that cancels reservations that
-- nobody confirmed.
--
-- The parts, and the files that model them (paths from the repository's root):
--   Domain/Event, Domain/Seat, Domain/Reservation
--                     internal/domain/*/entity.go: the entities, their checks and transitions
--   Errors            internal/domain/*/errors.go, the errors of internal/infrastructure/redis and of
--                     the drivers, `fmt.Errorf` and `errors.Is`
--   World/Rows        the tables of db/migrations, eventRow and reservationRow of
--                     internal/infrastructure/postgres, the counters of internal/pkg/metrics, and
--                     what the program does not decide (`Env`)
--   World/Exec        a Go function with effects, from a world to its value or error and a world
--   World/Logic, World/Progress
--                     rules for what such functions find, keep and achieve
--   Postgres/Tx, Postgres/Seats, Postgres/Reservations, Postgres/Events
--                     internal/infrastructure/postgres: transactions and repositories
--   Redis/Lock, Redis/Cache
--                     internal/infrastructure/redis: DistributedLock and SeatCache
--   Redis/Server, Redis/Lock/Clients
--                     the scripts of DistributedLock over a server, and clients that share it
--   Application/ReservationService, SeatService, EventService
--                     internal/application/*_service.go
--   Application/Cleaner
--                     internal/worker/expired_reservation_cleaner.go
--   Http              internal/api: the handlers (Http/Reservations, Http/Events, Http/Seats,
--                     Http/Health), the validator with the requests' tags (Http/Validator), the texts
--                     of the errors (Http/Text), the routes of cmd/api/main.go with
--                     CustomHTTPErrorHandler (Http/Routes), and what the middleware records
--                     (Http/Watch)
--   Config, Logger    internal/config/config.go and NewLogger of internal/pkg/logger/logger.go
--   Metrics           NewWithRegistry of internal/pkg/metrics/metrics.go
--   Main              cmd/api/main.go, over Postgres/Connection (internal/infrastructure/postgres/db.go)
--                     and Redis/Client (internal/infrastructure/redis/client.go): its order of actions
--                     (`main`)
--   Application/History, Application/Interleaving, Application/Failing,
--   Application/ReservationService/*
--                     sequences of calls of the services, calls that overlap, and proofs on each
--                     service
--   Booking           what the booking tables promise (`Consistent`), and what each statement and
--                     each transaction does to it
--   Tests             runs at concrete inputs
--   Prelude           names, numbers, texts and tables that all share
--
-- How the state corresponds. A table is a list of rows in the order of their insertion, which is the
-- order of equal keys under ORDER BY. A statement is a function from the database to its result and
-- the database after it, with the unique keys, the references and the cascades of the migration. A
-- transaction is a copy of the database that Commit puts in its place, so transactions run one
-- after another. A function of the services runs to its end; calls that overlap are modelled apart,
-- in Application/Interleaving, as steps that begin a call by its reads and steps that run the
-- transaction of a call that has begun. Two transactions that overlap inside the database are not
-- modelled, nor is a commit that takes effect though the driver reports an error. `Env` answers
-- each use of the clock, of the driver, of the id generator and of Redis by a number that counts
-- them; a theorem holds for every `Env`. `Env.fails` says that a statement fails in the driver and
-- is not applied, which covers what the server refuses for reasons that are not modelled (ranges,
-- lengths of texts). Commands to Redis are recorded with their arguments in `World.sent`; for
-- the services Redis is its replies, and Redis/Cache/Replay has what a key of the cache holds after
-- the commands. For the lock by itself, Redis/Server takes the commands of a
-- server as a parameter, with what Redis documents of them (`Documented`), in milliseconds, and runs
-- on them what the calls have sent (`served`, `evaluated`); Redis/Lock/Clients has the steps of any
-- number of clients, time passing and calls failing.
--
-- A handler is a function from a world to its response or its error and a world. A request holds the
-- values of headers and parameters by name and what Bind made of its body, if it made something. The
-- framework, the validator, strconv, time, net/url and the texts of the drivers' errors are the
-- record `Packages` of Http/Validator and the record `Parsers` of Config; what the validator
-- documents of the tags is the hypothesis `Validates`.
--
-- Numbers: a time is a number of nanoseconds, in ℕ, and of UTC: a TIMESTAMP column drops the zone of a
-- time, so that a process or a request in another zone reads back another time, which is not modelled.
-- The column rounds a time to microseconds (Postgres/Timestamp); an `int` is a signed number whose sum wraps at 64
-- bits (Prelude/Int); a version is in ℕ. Rounds: the loop of CreateBulk gets as many rounds as there
-- are seats, one for at least one seat each; the retries of the lock get the number that is asked
-- for; the digits of a number `n` get `n + 1` rounds. All other loops are by recursion on a list.
--
-- The packages that main calls are the record `Platform` of Main, with the failures that they have.
-- The services are modelled with interfaces that are nil or work. Where Redis cannot be reached, main
-- passes them nil pointers as interfaces, whose calls panic; this is not modelled.
--
-- Not modelled: logging but for the entry of RequestLogger and the configuration of the logger,
-- durations in the metrics, the ids of requests and the third-party middleware, which carry no state of
-- the tables; the migrations' runner, which calls other packages; the API documentation, which is
-- generated.
pub mod Prelude
pub mod Errors
pub mod Config
pub mod Domain
pub mod World
pub mod Http
pub mod Postgres
pub mod Redis
pub mod Application
pub mod Booking
pub mod Logger
pub mod Metrics
pub mod Main
pub mod Tests
