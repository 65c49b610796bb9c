-- ===== src/Redis.antt =====
-- internal/infrastructure/redis. What Redis answers is up to `Env`; a command is recorded in
-- `World.sent`, the newest first.
pub mod Server
pub mod Client
pub mod Lock
pub mod Cache
