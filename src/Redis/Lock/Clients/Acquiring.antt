-- ===== src/Redis/Lock/Clients/Acquiring.antt =====
-- AcquireLock among other clients, for internal/infrastructure/redis/distributed_lock.go.
use go_event_ticket_reservat.Prelude.{
  ℕ, suc, ◌≡◌, refl, ◌∙◌, String, true, not, some, ◌==◌, eq_iff, inl, inr, ◌⊎◌, is_some,
  Option-cases,
}
use go_event_ticket_reservat.Prelude.Text.{text_append}
use go_event_ticket_reservat.Errors.{Error, ok, err, wrapped, driver, lock_not_acquired}
use go_event_ticket_reservat.World.Rows.{World}
use go_event_ticket_reservat.World.Exec.{sample, send, lift, ◌>>=◌}
use go_event_ticket_reservat.Redis.Server.{Server, Documented}
use go_event_ticket_reservat.Redis.Lock.{Lock, acquire_lock, acquired}
use go_event_ticket_reservat.Redis.Lock.Clients.{milliseconds, answered, lost, unsent}
use go_event_ticket_reservat.Redis.Lock.Clients.Sending.{AcquireRan}
use go_event_ticket_reservat.Redis.Lock.Clients.Owned.{Keeps, setnx-Keeps, Keeps-Sent}

module _ {S : Type 0} {r : Server S} (doc : Documented r) where
  -- The lock that AcquireLock makes
  abbrev pub made : String → ℕ → World → Lock
  made key ttl w = record { key = text_append "lock:" key; value = w.env.uuid w.at 0; ttl = ttl }

  pub acquire_lock-reply :
      (key : String) (ttl : ℕ) (w : World)
      → (acquire_lock key ttl w).0 ≡ acquired (w.env.reply_set_nx (suc w.at)) (made key ttl w)
  unfolding acquire_lock sample send lift ◌>>=◌
  acquire_lock-reply key ttl w = refl

  -- Whatever the reply, there is no lock, or it is the one that the server now holds.
  pub acquire-cases :
      (key : String) (ttl t : ℕ) (w : World) (s s' : S)
      → milliseconds ttl ≡ suc t
      → AcquireRan r key ttl w s s'
      → ((e : Error) × ((acquire_lock key ttl w).0 ≡ err e))
        ⊎ (((acquire_lock key ttl w).0 ≡ ok (made key ttl w))
            × (doc.held (text_append "lock:" key) s' ≡ some (w.env.uuid w.at 0, milliseconds ttl)))
  acquire-cases key ttl t w s s' whole (lost e) =
      inl (wrapped "ロック取得に失敗" driver, rw (acquire_lock-reply key ttl w, e) refl)
  acquire-cases key ttl t w s s' whole (unsent e) =
      inl (wrapped "ロック取得に失敗" driver, rw (acquire_lock-reply key ttl w, e) refl)
  acquire-cases key ttl t w s s' whole (answered e) =
      let k = text_append "lock:" key in
      let v = w.env.uuid w.at 0 in
      let said : (r.setnx k v (milliseconds ttl) s).0 ≡ not (is_some (doc.held k s)) =
        rw whole (doc.setnx_reply k v t s) in
      elim (Option-cases (doc.held k s)) [
        | inl free ↦
            let here : (k == k) ≡ true = (eq_iff k k).1 refl in
            inr (
              rw (acquire_lock-reply key ttl w, e, said, free) refl,
              rw whole (doc.setnx_held k v t s k ∙ rw (here, free) refl),
            )
        | inr (x, taken) ↦
            inl (lock_not_acquired, rw (acquire_lock-reply key ttl w, e, said, taken) refl)
      ]

  pub acquire-Keeps :
      (key : String) (ttl t : ℕ) (w : World) (s s' : S)
      → milliseconds ttl ≡ suc t
      → AcquireRan r key ttl w s s'
      → Keeps doc (λ _. Unit) s s'
  acquire-Keeps key ttl t w s s' whole sent =
      Keeps-Sent doc _ _ s s'
        (rw whole (setnx-Keeps doc (text_append "lock:" key) (w.env.uuid w.at 0) t s)) sent
