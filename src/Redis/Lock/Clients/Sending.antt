-- ===== src/Redis/Lock/Clients/Sending.antt =====
-- What the commands of internal/infrastructure/redis/distributed_lock.go are to the server.
use go_event_ticket_reservat.Prelude.{
  ℕ, zero, suc, ◌≡◌, refl, sym, subst, String, Option, none, some,
}
use go_event_ticket_reservat.Prelude.Int.{ℤ, pos, negsuc}
use go_event_ticket_reservat.Prelude.Text.{text_append}
use go_event_ticket_reservat.World.Rows.{World, eval_extend}
use go_event_ticket_reservat.World.Exec.{sample, send, lift, ◌>>=◌, pure}
use go_event_ticket_reservat.Redis.Server.{
  Server, served, evaluated, newest, release_script, extend_script,
}
use go_event_ticket_reservat.Redis.Lock.{Lock, acquire_lock, release, extend}
use go_event_ticket_reservat.Redis.Lock.Clients.{
  milliseconds, Sent, as_int, AcquireSent, ReleaseSent, ExtendSent,
}

module _ {S : Type 0} (r : Server S) where
  abbrev pub AcquireRan : String → ℕ → World → S → S → Type 0
  AcquireRan key ttl w s =
      Sent (w.env.reply_set_nx (suc w.at))
        (r.setnx (text_append "lock:" key) (w.env.uuid w.at 0) (milliseconds ttl) s) s

  abbrev pub ReleaseRan : Lock → World → S → S → Type 0
  ReleaseRan l w s = Sent (w.env.reply_eval w.at) (as_int (release_script r l.key l.value s)) s

  abbrev pub ExtendRan : Lock → ℕ → World → S → S → Type 0
  ExtendRan l ttl w s =
      Sent (w.env.reply_eval w.at) (as_int (extend_script r l.key l.value (milliseconds ttl) s)) s

  pub acquire_lock-sends :
      (key : String) (ttl : ℕ) (w : World) (s : S)
      → served r (newest (acquire_lock key ttl w).1.sent) s
        ≡ r.setnx (text_append "lock:" key) (w.env.uuid w.at 0) (milliseconds ttl) s
  unfolding acquire_lock sample send lift ◌>>=◌
  acquire_lock-sends key ttl w s = refl

  pub release-sends :
      (l : Lock) (w : World) (s : S)
      → evaluated r (newest (release l w).1.sent) s ≡ release_script r l.key l.value s
  unfolding release send lift ◌>>=◌
  release-sends l w s = refl

  pub AcquireSent-Ran :
      (key : String) (ttl : ℕ) (w : World) (s s' : S)
      → AcquireSent r key ttl w s s'
      → AcquireRan key ttl w s s'
  unfolding acquire_lock sample send lift ◌>>=◌
  AcquireSent-Ran key ttl w s s' sent = sent

  pub ReleaseSent-Ran :
      (l : Lock) (w : World) (s s' : S) → ReleaseSent r l w s s' → ReleaseRan l w s s'
  unfolding release send lift ◌>>=◌
  ReleaseSent-Ran l w s s' sent = sent

  extend-sends :
      (l : Lock) (ttl : ℕ) (w : World) (o : Option ℤ)
      → w.env.reply_eval w.at ≡ o
      → newest (extend l ttl w).1.sent ≡ eval_extend l.key l.value (milliseconds ttl)
  unfolding extend send lift ◌>>=◌ pure
  extend-sends l ttl w none e = rw e refl
  extend-sends l ttl w (some (pos zero)) e = rw e refl
  extend-sends l ttl w (some (pos (suc n))) e = rw e refl
  extend-sends l ttl w (some (negsuc n)) e = rw e refl

  pub ExtendSent-Ran :
      (l : Lock) (ttl : ℕ) (w : World) (s s' : S)
      → ExtendSent r l ttl w s s'
      → ExtendRan l ttl w s s'
  ExtendSent-Ran l ttl w s s' =
      subst
        (λ c. Sent (w.env.reply_eval w.at) (as_int (evaluated r c s)) s s' → ExtendRan l ttl w s s')
        (sym (extend-sends l ttl w _ refl)) (λ ran. ran)
