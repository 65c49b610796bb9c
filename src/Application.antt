-- ===== src/Application.antt =====
-- internal/application: the services over the repositories, Redis and the metrics. Logging is left
-- out.
pub mod ReservationService
pub mod SeatService
pub mod EventService
pub mod Cleaner
pub mod Failing
pub mod History
pub mod Interleaving
