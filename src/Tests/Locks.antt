-- ===== src/Tests/Locks.antt =====
-- Clients of the locks on a small server, at concrete inputs.
use go_event_ticket_reservat.Prelude.{
  suc, ◌≤◌, ◌≡◌, ◌≢◌, refl, String, Bool, true, false, not, ◌&&◌, Option, none, some, [], ◌^◌, ◌∷◌,
  if◌then◌else◌, ◌==◌, is_some, eq_iff, inl, inr, ◌⊎◌, arith, Bool-cases,
}
use go_event_ticket_reservat.Prelude.Int.{pos}
use go_event_ticket_reservat.Prelude.Text.{decimal}
use go_event_ticket_reservat.Prelude.Tables.{count_where}
use go_event_ticket_reservat.Errors.{ok, err, lock_not_owned}
use go_event_ticket_reservat.World.Rows.{World}
use go_event_ticket_reservat.World.Exec.{sample, send, lift, ◌>>=◌}
use go_event_ticket_reservat.Redis.Server.{
  Server, Entry, Documented, value_of, renewed, aged, one_if, release_script,
}
use go_event_ticket_reservat.Redis.Lock.{Lock, acquire_lock, release}
use go_event_ticket_reservat.Redis.Lock.Clients.{
  Clients, holds, answered, acquires, waits, Reach, here, next,
}
use go_event_ticket_reservat.Redis.Lock.Clients.Exclusive.{Reach-Exclusive}
use go_event_ticket_reservat.Redis.Lock.Clients.Acquiring.{made}
use go_event_ticket_reservat.Redis.Lock.Clients.Answers.{
  Freed, dropped, release-Answered, acquire_lock-Expires,
}
use go_event_ticket_reservat.Tests

abbrev Keyspace : Type 0
Keyspace = String → Option Entry

abbrev stored : String → Entry → Keyspace → Keyspace
stored k e s q = if q == k then some e else s q

abbrev kept : Bool → String → Entry → Keyspace → Bool × Keyspace
kept true k e s = (false, s)
kept false k e s = (true, stored k e s)

abbrev small : Server Keyspace
small = record {
  get = λ k s. value_of (s k);
  setnx = λ k v t s. kept (is_some (s k)) k (v, t) s;
  del = λ k s. (one_if (is_some (s k)), λ q. if q == k then none else s q);
  pexpire = λ k t s. (one_if (is_some (s k)), λ q. if q == k then renewed t (s q) else s q);
  wait = λ d s q. aged d (s q);
}

small-reply : (b : Bool) (k : String) (e : Entry) (s : Keyspace) → (kept b k e s).0 ≡ not b
small-reply true k e s = refl
small-reply false k e s = refl

small-state :
    (b : Bool) (c : String) (s : Keyspace) (e : Entry) (q : String)
    → (kept b c e s).1 q ≡ (if (q == c) && not b then some e else s q)
small-state true c s e q = elim (Bool-cases (q == c)) [
  | inl same ↦ rw same refl
  | inr other ↦ rw other refl
]
small-state false c s e q = elim (Bool-cases (q == c)) [
  | inl same ↦ rw same refl
  | inr other ↦ rw other refl
]

small-Documented : Documented small
small-Documented = record {
  held = λ k s. s k;
  get_reply = λ k s. refl;
  setnx_reply = λ k v t s. small-reply (is_some (s k)) k (v, suc t) s;
  setnx_held = λ k v t s q. small-state (is_some (s k)) k s (v, suc t) q;
  del_reply = λ k s. refl;
  del_held = λ k s q. refl;
  pexpire_reply = λ k t s. refl;
  pexpire_held = λ k t s q. refl;
  wait_held = λ d s q. refl;
}

abbrev nothing : Keyspace
nothing k = none

abbrev free : Clients Keyspace
free = record { server = nothing; sessions = [] }

-- The first client waits longer than its time to live, then a second one acquires the lock.
abbrev later : World
later = record Tests.start { at = 9 }

abbrev first : Lock
first = record { key = "lock:a"; value = "0.0"; ttl = 10 ^ 10 }

abbrev second : Lock
second = record { key = "lock:a"; value = "9.0"; ttl = 10 ^ 10 }

abbrev over : Keyspace
over =
    (small.setnx "lock:a" "9.0" 10000
      (small.wait 10000 (small.setnx "lock:a" "0.0" 10000 nothing).1)).1

abbrev taken : Clients Keyspace
taken = record {
  server = over;
  sessions = record { lock = second; left = 10000 } ∷ record { lock = first; left = 0 } ∷ [];
}

new : first.value ≢ second.value
new e = let same = (eq_iff "0.0" "9.0").1 e in cc

takes_over : Reach small free taken
unfolding acquire_lock sample send lift ◌>>=◌ decimal
takes_over =
    next
      (next (next here (acquires free "a" (10 ^ 10) 9999 Tests.start _ refl tt (answered refl)))
        (waits _ 10000))
      (acquires _ "a" (10 ^ 10) 9999 later _ refl (new, tt) (answered refl))

Reach-Exclusive_example : count_where (holds "lock:a") taken.sessions ≤ 1
Reach-Exclusive_example = Reach-Exclusive small-Documented nothing taken "lock:a" takes_over

abbrev refused : World
refused = record Tests.start { env = record Tests.env { reply_eval = λ n. some (pos 0) } }

refuses :
    refused.env.reply_eval refused.at ≡ some (pos (dropped small-Documented first refused over).0)
unfolding release release_script send lift ◌>>=◌
refuses = refl

-- The first client releases its lock too late.
release-Answered_example :
    (((release first refused).0 ≡ ok tt)
      × Freed small-Documented first over (dropped small-Documented first refused over).1)
    ⊎ (((release first refused).0 ≡ err lock_not_owned)
        × (value_of (small-Documented.held "lock:a" over) ≢ some "0.0")
        × ((dropped small-Documented first refused over).1 ≡ over))
release-Answered_example = release-Answered small-Documented first refused over refuses

grants : (acquire_lock "a" (10 ^ 10) Tests.start).0 ≡ ok first
unfolding acquire_lock sample send lift ◌>>=◌ decimal
grants = refl

acquire_lock-Expires_example :
    (acquire_lock "a" (10 ^ 10) later).0 ≡ ok (made small-Documented "a" (10 ^ 10) later)
unfolding acquire_lock sample send lift ◌>>=◌ decimal
acquire_lock-Expires_example =
    acquire_lock-Expires small-Documented "a" (10 ^ 10) 9999 (10 ^ 10) 9999 10000 first Tests.start
      later nothing refl refl grants (omega arith) refl refl
