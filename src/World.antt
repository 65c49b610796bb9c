-- ===== src/World.antt =====
-- What the services act on: the database, the open transaction, what is sent to Redis, and the
-- metrics; and the monad of Go functions that return a value or an error.
pub mod Rows
pub mod Exec
pub mod Logic
pub mod Progress
