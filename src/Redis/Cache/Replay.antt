-- ===== src/Redis/Cache/Replay.antt =====
-- What Redis holds for internal/infrastructure/redis/seat_cache.go after the commands that were sent.
use go_event_ticket_reservat.Prelude.{
  String, Option, none, some, List, [], ◌∷◌, ◌==◌, if◌then◌else◌,
}
use go_event_ticket_reservat.Prelude.Int.{ℤ}
use go_event_ticket_reservat.World.Rows.{Command, set, del}

-- What a key holds after the commands, the newest first, as long as it has not expired
abbrev pub cached : List Command → String → Option ℤ
cached [] key = none
cached (set k n ttl ∷ sent) key = if k == key then some n else cached sent key
cached (del k ∷ sent) key = if k == key then none else cached sent key
cached (_ ∷ sent) key = cached sent key
