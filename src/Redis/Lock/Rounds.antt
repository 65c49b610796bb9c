-- ===== src/Redis/Lock/Rounds.antt =====
-- The rounds of AcquireLockWithRetry in internal/infrastructure/redis/distributed_lock.go.
use go_event_ticket_reservat.Prelude.{
  ℕ, zero, suc, ◌+◌, ◌≤◌, ◌≡◌, refl, String, Bool, true, false, List, ◌∷◌, length, if◌then◌else◌,
  arith, some, none, Option,
}
use go_event_ticket_reservat.Prelude.Text.{text_append}
use go_event_ticket_reservat.Errors.{
  Error, Result, ok, err, context_done, lock_not_acquired, is_lock_not_acquired,
}
use go_event_ticket_reservat.World.Rows.{World, Command, set_nx}
use go_event_ticket_reservat.World.Exec.{Exec, ◌>>=◌, pure, raise, lift, attempt, sample, send}
use go_event_ticket_reservat.World.Logic.{Ends}
use go_event_ticket_reservat.Redis.Lock.{
  Lock, acquired, acquire_lock, after_round, acquire_rounds, acquire_lock_with_retry,
}

module _ (key : String) (ttl : ℕ) where
  -- The lock was set in the last command, under the prefixed key.
  pub record Set (lock : Lock) (w : World) : Type 0 where
    pub rest : List Command
    pub last : w.sent ≡ set_nx lock.key lock.value ttl ∷ rest
    pub prefixed : lock.key ≡ text_append "lock:" key

  abbrev Tried : ℕ → Result Lock → World → Type 0
  Tried n r w = Ends r w (λ lock w'. Set lock w' × (length w'.sent ≤ n)) (λ w'. length w'.sent ≤ n)

  replied :
      (reply : Option Bool) (lock : Lock) (w : World) (n : ℕ)
      → Set lock w
      → length w.sent ≤ n
      → Tried n (acquired reply lock) w
  replied none lock w n s h = h
  replied (some true) lock w n s h = (s, h)
  replied (some false) lock w n s h = h

  acquire_lock-Tried :
      (w : World)
      → Tried (suc (length w.sent)) (acquire_lock key ttl w).0 (acquire_lock key ttl w).1
  unfolding acquire_lock ◌>>=◌ sample send lift
  acquire_lock-Tried w =
      replied (w.env.reply_set_nx (suc w.at)) _ _ (suc (length w.sent))
        (record { rest = w.sent; last = refl; prefixed = refl }) (omega arith)

  more : (m n : ℕ) (r : Result Lock) (w : World) → m ≤ n → Tried m r w → Tried n r w
  more m n (ok lock) w h (s, k) = (s, omega arith)
  more m n (err e) w h k = omega arith

  retried :
      (done : Bool) (m : Exec Lock) (w : World) (n : ℕ)
      → length w.sent ≤ n
      → Tried n (m w).0 (m w).1
      → Tried n
          ((if done then raise context_done else m) w).0
          ((if done then raise context_done else m) w).1
  unfolding raise
  retried true m w n h k = h
  retried false m w n h k = k

  after :
      (retry : Error → Exec Lock) (r : Result Lock) (w : World) (m n : ℕ)
      → m ≤ n
      → ((e : Error) → length w.sent ≤ m → Tried n (retry e w).0 (retry e w).1)
      → Tried m r w
      → Tried n (after_round retry r w).0 (after_round retry r w).1
  unfolding pure raise
  after retry (ok lock) w m n le k h = more m n (ok lock) w le h
  after retry (err e) w m n le k h = chosen (is_lock_not_acquired e)
    where
      chosen :
          (b : Bool)
          → Tried n ((if b then retry e else raise e) w).0 ((if b then retry e else raise e) w).1
      chosen true = k e h
      chosen false = omega arith

  rounds-Tried :
      (rounds : ℕ) (e : Error) (w : World)
      → Tried
          (rounds + length w.sent)
          (acquire_rounds rounds e key ttl w).0
          (acquire_rounds rounds e key ttl w).1
  unfolding acquire_rounds raise ◌>>=◌ attempt sample
  rounds-Tried zero e w = omega arith
  rounds-Tried (suc rounds) e w =
      let r = (acquire_lock key ttl w).0 in
      let w₁ = (acquire_lock key ttl w).1 in
      after _ r w₁ (suc (length w.sent)) (suc rounds + length w.sent) (omega arith)
        (λ e h.
          retried (w₁.env.cancelled w₁.at) _ (record w₁ { at = suc w₁.at }) _ (omega arith)
            (more (rounds + length w₁.sent) _ _ _ (omega arith)
              (rounds-Tried rounds e (record w₁ { at = suc w₁.at }))))
        (acquire_lock-Tried w)

  -- AcquireLockWithRetry sends at most as many commands as it has retries, and if it returns a lock,
  -- the last of them set the lock's key, which is the given key with a prefix, to the lock's value.
  pub acquire_lock_with_retry-Tried :
      (max_retries : ℕ) (w : World)
      → Ends
          (acquire_lock_with_retry key ttl max_retries w).0
          (acquire_lock_with_retry key ttl max_retries w).1
          (λ lock w'. Set lock w' × (length w'.sent ≤ max_retries + length w.sent))
          (λ w'. length w'.sent ≤ max_retries + length w.sent)
  unfolding acquire_lock_with_retry
  acquire_lock_with_retry-Tried max_retries w = rounds-Tried max_retries lock_not_acquired w
