-- ===== src/Redis/Lock.antt =====
-- internal/infrastructure/redis/distributed_lock.go
pub mod Rounds
pub mod Clients
use go_event_ticket_reservat.Prelude.{
  ℕ, zero, suc, ◌/◌, ◌^◌, String, Bool, true, false, Option, none, some, if◌then◌else◌,
}
use go_event_ticket_reservat.Prelude.Int.{ℤ, pos}
use go_event_ticket_reservat.Prelude.Text.{text_append}
use go_event_ticket_reservat.Errors.{
  Error, Result, ok, err, lock_not_acquired, lock_not_owned, context_done, driver, wrapped,
  is_lock_not_acquired,
}
use go_event_ticket_reservat.World.Rows.{set_nx, eval_release, eval_extend}
use go_event_ticket_reservat.World.Exec.{
  Exec, pure, raise, lift, attempt, sample, send, ◌>>=◌, ◌>>◌,
}

-- DistributedLock
pub record Lock : Type 0 where
  pub key : String
  pub value : String
  pub ttl : ℕ

-- The reply of SetNX, and its tests
abbrev acquired : Option Bool → Lock → Result Lock
acquired none lock = err (wrapped "ロック取得に失敗" driver)
acquired (some true) lock = ok lock
acquired (some false) lock = err lock_not_acquired

unfoldable pub acquire_lock : String → ℕ → Exec Lock
acquire_lock key ttl = do
  let lock_key = text_append "lock:" key
  value ← sample (λ e n. e.uuid n 0)
  reply ← send (set_nx lock_key value ttl) (λ e n. e.reply_set_nx n)
  lift (acquired reply (record { key = lock_key; value = value; ttl = ttl }))

-- One round of AcquireLockWithRetry: it returns, or `retry` goes on with the error.
abbrev pub after_round : (Error → Exec Lock) → Result Lock → Exec Lock
after_round retry (ok lock) = pure lock
after_round retry (err e) = if is_lock_not_acquired e then retry e else raise e

-- The loop, with the rounds left and `lastErr`.
unfoldable pub acquire_rounds : ℕ → Error → String → ℕ → Exec Lock
unfolding acquire_lock
acquire_rounds zero last_error key ttl = raise last_error
acquire_rounds (suc rounds) last_error key ttl = do
  r ← attempt (acquire_lock key ttl)
  after_round
      (λ e. do
        done ← sample (λ v n. v.cancelled n)
        let next = acquire_rounds rounds e key ttl
        if done then raise context_done else next)
      r

-- AcquireLockWithRetry, which the one caller asks for three rounds; with no round at all the source
-- returns neither a lock nor an error.
unfoldable pub acquire_lock_with_retry : String → ℕ → ℕ → Exec Lock
unfolding acquire_rounds
acquire_lock_with_retry key ttl max_retries = acquire_rounds max_retries lock_not_acquired key ttl

-- The result of a script: 0 where the key does not hold the lock's value
abbrev owned : String → Option ℤ → Result (Unit {0})
owned message none = err (wrapped message driver)
owned message (some (pos zero)) = err lock_not_owned
owned message (some _) = ok tt

unfoldable pub release : Lock → Exec (Unit {0})
release l = do
  reply ← send (eval_release l.key l.value) (λ e n. e.reply_eval n)
  lift (owned "ロック解放に失敗" reply)

-- Extend; the lock gets the new time to live, which the script takes in milliseconds.
unfoldable pub extend : Lock → ℕ → Exec Lock
extend l ttl = do
  reply ← send (eval_extend l.key l.value (ttl / 10 ^ 6)) (λ e n. e.reply_eval n)
  lift (owned "ロック延長に失敗" reply)
  pure (record l { ttl = ttl })
