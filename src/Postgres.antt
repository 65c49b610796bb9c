-- ===== src/Postgres.antt =====
-- internal/infrastructure/postgres: the repositories and the transaction manager. The statements
-- are those of the source, over the tables of `World.Rows` with their keys. A statement that the
-- server refuses for another reason (a range, a length, the connection) is one that `Env.fails`.
pub mod Connection
pub mod Tx
pub mod Timestamp
pub mod Seats
pub mod Reservations
pub mod Events
