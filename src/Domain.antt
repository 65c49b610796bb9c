-- ===== src/Domain.antt =====
-- The entities, internal/domain. A reading of `time.Now()` is an argument `now`; a time is the
-- number of nanoseconds since a fixed origin.
pub mod Event
pub mod Seat
pub mod Reservation
