-- ===== src/Redis/Lock/Clients.antt =====
-- Clients of internal/infrastructure/redis/distributed_lock.go that share one server. The steps are
-- calls of AcquireLock, Release and Extend, in any order and at any time; the server
-- runs the command that a call has sent at once, or the call fails before or after that.
pub mod Sending
pub mod Owned
pub mod Extending
pub mod Acquiring
pub mod Exclusive
pub mod Answers
use go_event_ticket_reservat.Prelude.{
  ℕ, suc, ◌-◌, ◌/◌, ◌^◌, ◌≡◌, ◌≢◌, String, Bool, Option, none, some, List, [], ◌∷◌, if◌then◌else◌,
  ◌==◌, ltb, ◌&&◌, map,
}
use go_event_ticket_reservat.Prelude.Int.{ℤ, pos}
use go_event_ticket_reservat.Errors.{Result, ok, err}
use go_event_ticket_reservat.World.Rows.{World}
use go_event_ticket_reservat.Redis.Server.{Server, served, evaluated, newest}
use go_event_ticket_reservat.Redis.Lock.{Lock, acquire_lock, release, extend}

-- A lock that AcquireLock returned, and how long its client may still count on it: none after
-- Release, and none after an Extend that fails.
pub record Session : Type 0 where
  pub lock : Lock
  pub left : ℕ

abbrev pub milliseconds : ℕ → ℕ
milliseconds ttl = ttl / 10 ^ 6

abbrev pub opened : ℕ → Result Lock → List Session → List Session
opened ttl (ok l) xs = record { lock = l; left = milliseconds ttl } ∷ xs
opened ttl (err e) xs = xs

abbrev pub ended : Lock → Session → Session
ended l x = if x.lock.value == l.value then record x { left = 0 } else x

abbrev pub prolonged : ℕ → Lock → Result Lock → Session → Session
prolonged ttl l (ok l') x =
    if x.lock.value == l.value then record { lock = l'; left = milliseconds ttl } else x
prolonged ttl l (err e) x = ended l x

abbrev pub older : ℕ → Session → Session
older d x = record x { left = x.left - d }

abbrev pub holds : String → Session → Bool
holds key x = (x.lock.key == key) && ltb 0 x.left

-- No session has this value.
abbrev pub Fresh : String → List Session → Type 0
Fresh v [] = Unit
Fresh v (x ∷ xs) = (x.lock.value ≢ v) × Fresh v xs

-- The client hears the server's reply, or the call fails, and then the script has run or has not.
pub data Sent {A S : Type 0} (reply : Option A) (ran : A × S) (s : S) : S → Type 0 where
  answered : reply ≡ some ran.0 → Sent reply ran s ran.1
  lost : reply ≡ none → Sent reply ran s ran.1
  unsent : reply ≡ none → Sent reply ran s s

abbrev pub as_int : {S : Type 0} → ℕ × S → ℤ × S
as_int (n, s) = (pos n, s)

pub record Clients (S : Type 0) : Type 0 where
  pub server : S
  pub sessions : List Session

module _ {S : Type 0} (r : Server S) where
  -- The server runs the command that the call has sent.
  abbrev pub AcquireSent : String → ℕ → World → S → S → Type 0
  AcquireSent key ttl w s =
      Sent (w.env.reply_set_nx (suc w.at)) (served r (newest (acquire_lock key ttl w).1.sent) s) s

  abbrev pub ReleaseSent : Lock → World → S → S → Type 0
  ReleaseSent l w s =
      Sent (w.env.reply_eval w.at) (as_int (evaluated r (newest (release l w).1.sent) s)) s

  abbrev pub ExtendSent : Lock → ℕ → World → S → S → Type 0
  ExtendSent l ttl w s =
      Sent (w.env.reply_eval w.at) (as_int (evaluated r (newest (extend l ttl w).1.sent) s)) s

  pub data Step : Clients S → Clients S → Type 0 where
    acquires :
        (y : Clients S) (key : String) (ttl t : ℕ) (w : World) (s : S)
        → milliseconds ttl ≡ suc t
        → Fresh (w.env.uuid w.at 0) y.sessions
        → AcquireSent key ttl w y.server s
        → Step y
            (record { server = s; sessions = opened ttl (acquire_lock key ttl w).0 y.sessions })
    releases :
        (y : Clients S) (l : Lock) (w : World) (s : S)
        → ReleaseSent l w y.server s
        → Step y (record { server = s; sessions = map (ended l) y.sessions })
    extends :
        (y : Clients S) (l : Lock) (ttl : ℕ) (w : World) (s : S)
        → ExtendSent l ttl w y.server s
        → Step y
            (record { server = s; sessions = map (prolonged ttl l (extend l ttl w).0) y.sessions })
    waits :
        (y : Clients S) (d : ℕ)
        → Step y (record { server = r.wait d y.server; sessions = map (older d) y.sessions })

  pub data Reach (y : Clients S) : Clients S → Type 0 where
    here : Reach y y
    next : {z u : Clients S} → Reach y z → Step z u → Reach y u
