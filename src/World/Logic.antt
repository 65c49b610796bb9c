-- ===== src/World/Logic.antt =====
-- Rules for functions with effects: what a read finds, and which properties of the database a
-- function keeps, whatever the environment does.
pub mod Finding
pub mod Keeping
pub mod Reading
pub use go_event_ticket_reservat.World.Logic.Finding.*
pub use go_event_ticket_reservat.World.Logic.Keeping.*
pub use go_event_ticket_reservat.World.Logic.Reading.*
