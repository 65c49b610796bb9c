-- ===== src/Postgres/Timestamp.antt =====
-- The TIMESTAMP columns of db/migrations/000001_create_initial_tables.up.sql. They keep no zone; times here are
-- all of UTC.
use go_event_ticket_reservat.Prelude.{ℕ, Option, none, some, ◌+◌, ◌*◌, ◌/◌, ◌^◌}

-- What is read where a time was written, both in nanoseconds: the column rounds it to microseconds.
abbrev pub timestamp : ℕ → ℕ
timestamp t = (t + 500) / 10 ^ 3 * 10 ^ 3

-- A column that may be NULL
abbrev pub timestamp_or_null : Option ℕ → Option ℕ
timestamp_or_null none = none
timestamp_or_null (some t) = some (timestamp t)
