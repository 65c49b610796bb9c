-- ===== src/Redis/Lock/Clients/Answers.antt =====
-- What the calls of internal/infrastructure/redis/distributed_lock.go return when Redis answers.
use go_event_ticket_reservat.Prelude.{
  ℕ, suc, ◌≤◌, ◌≡◌, ◌≢◌, refl, sym, subst, ap, ◌∙◌, String, Bool, true, false, Option, none, some,
  ◌==◌, arith, eq_iff, inl, inr, ◌⊎◌, Bool-cases,
}
use go_event_ticket_reservat.Prelude.Int.{pos}
use go_event_ticket_reservat.Prelude.Text.{text_append}
use go_event_ticket_reservat.Errors.{ok, err, lock_not_owned}
use go_event_ticket_reservat.World.Rows.{World}
use go_event_ticket_reservat.World.Exec.{send, lift, ◌>>=◌}
use go_event_ticket_reservat.Redis.Server.{
  Server, Documented, value_of, is_value, aged, release_script, served, evaluated, newest,
}
use go_event_ticket_reservat.Redis.Lock.{Lock, acquire_lock, release}
use go_event_ticket_reservat.Redis.Lock.Clients.{milliseconds, answered}
use go_event_ticket_reservat.Redis.Lock.Clients.Sending.{
  acquire_lock-sends, release-sends, AcquireSent-Ran,
}
use go_event_ticket_reservat.Redis.Lock.Clients.Owned.{is_value_lem}
use go_event_ticket_reservat.Redis.Lock.Clients.Acquiring.{made, acquire-cases, acquire_lock-reply}

module _ {S : Type 0} {r : Server S} (doc : Documented r) where
  -- The key held the lock's value; now it is free, and the other keys are as they were.
  pub record Freed (l : Lock) (s s' : S) : Type 0 where
    pub is_owner : value_of (doc.held l.key s) ≡ some l.value
    pub is_free : doc.held l.key s' ≡ none
    pub others : (q : String) → q ≢ l.key → doc.held q s' ≡ doc.held q s

  release-one :
      (l : Lock) (w : World) → w.env.reply_eval w.at ≡ some (pos 1) → (release l w).0 ≡ ok tt
  unfolding release send lift ◌>>=◌
  release-one l w e = rw e refl

  release-zero :
      (l : Lock) (w : World)
      → w.env.reply_eval w.at ≡ some (pos 0)
      → (release l w).0 ≡ err lock_not_owned
  unfolding release send lift ◌>>=◌
  release-zero l w e = rw e refl

  elsewhere : (q k : String) → q ≢ k → (q == k) ≡ false
  elsewhere q k other = elim (Bool-cases (q == k)) [
    | inl e ↦ absurd (other ((eq_iff q k).0 e))
    | inr e ↦ e
  ]

  is_value_not : (v : String) (o : Option String) → is_value v o ≡ false → o ≢ some v
  is_value_not v none h e = cc
  is_value_not v (some u) h e = cc (sym h ∙ (eq_iff u v).1 (cc e))

  script-cases :
      (l : Lock) (w : World) (s : S)
      → w.env.reply_eval w.at ≡ some (pos (release_script r l.key l.value s).0)
      → (((release l w).0 ≡ ok tt) × Freed l s (release_script r l.key l.value s).1)
        ⊎ (((release l w).0 ≡ err lock_not_owned)
            × (value_of (doc.held l.key s) ≢ some l.value)
            × ((release_script r l.key l.value s).1 ≡ s))
  unfolding release_script
  script-cases l w s reply = elim (Bool-cases (is_value l.value (r.get l.key s))) [
    | inl mine ↦
        let (u, e) = is_value_lem l.value (doc.held l.key s) (rw (← doc.get_reply l.key s) mine) in
        let here : (l.key == l.key) ≡ true = (eq_iff l.key l.key).1 refl in
        let one : (r.del l.key s).0 ≡ 1 = rw (doc.del_reply l.key s, e) refl in
        inl (
          release-one l w (reply ∙ rw (mine, one) refl),
          record {
            is_owner = rw e refl;
            is_free = rw (mine, doc.del_held l.key s l.key, here) refl;
            others = λ q other. rw (mine, doc.del_held l.key s q, elsewhere q l.key other) refl;
          },
        )
    | inr foreign ↦ inr (
      release-zero l w (reply ∙ rw foreign refl),
      rw (← doc.get_reply l.key s) (is_value_not l.value (r.get l.key s) foreign),
      rw foreign refl,
    )
  ]

  -- The server runs the last command that Release has sent.
  abbrev pub dropped : Lock → World → S → ℕ × S
  dropped l w s = evaluated r (newest (release l w).1.sent) s

  -- If Redis answers the command that Release has sent, the call succeeds exactly where the key held
  -- the lock's value, and then Redis frees the key alone; otherwise it fails with ErrLockNotOwned
  -- and Redis changes nothing: a lock that another client has taken over meanwhile stays.
  pub release-Answered :
      (l : Lock) (w : World) (s : S)
      → w.env.reply_eval w.at ≡ some (pos (dropped l w s).0)
      → (((release l w).0 ≡ ok tt) × Freed l s (dropped l w s).1)
        ⊎ (((release l w).0 ≡ err lock_not_owned)
            × (value_of (doc.held l.key s) ≢ some l.value)
            × ((dropped l w s).1 ≡ s))
  release-Answered l w s =
      subst
        (λ d.
          w.env.reply_eval w.at ≡ some (pos d.0)
          → (((release l w).0 ≡ ok tt) × Freed l s d.1)
            ⊎ (((release l w).0 ≡ err lock_not_owned)
                × (value_of (doc.held l.key s) ≢ some l.value)
                × (d.1 ≡ s)))
        (sym (release-sends r l w s)) (script-cases l w s)

  -- The server runs the last command that AcquireLock has sent.
  abbrev pub asked : String → ℕ → World → S → Bool × S
  asked key ttl w s = served r (newest (acquire_lock key ttl w).1.sent) s

  aged_out : (d u : ℕ) (v : String) → u ≤ d → aged d (some (v, u)) ≡ none
  aged_out d u v le = ground arith

  acquire_lock-free :
      (key : String) (ttl t : ℕ) (w : World) (s : S)
      → milliseconds ttl ≡ suc t
      → doc.held (text_append "lock:" key) s ≡ none
      → w.env.reply_set_nx (suc w.at) ≡ some (asked key ttl w s).0
      → (acquire_lock key ttl w).0 ≡ ok (made doc key ttl w)
  acquire_lock-free key ttl t w s whole free reply =
      let k = text_append "lock:" key in
      let v = w.env.uuid w.at 0 in
      let said : (asked key ttl w s).0 ≡ true =
        ap (λ d. d.0) (acquire_lock-sends r key ttl w s)
        ∙ ap (λ n. (r.setnx k v n s).0) whole
        ∙ doc.setnx_reply k v t s
        ∙ rw free refl in
      rw (acquire_lock-reply doc key ttl w, reply, said) refl

  -- A client that has acquired a lock and never releases it does not keep the others out: when the
  -- time to live that it asked for, a millisecond at least, has passed, the next call of AcquireLock
  -- for the key that Redis answers returns a lock.
  pub acquire_lock-Expires :
      (key : String) (ttl t ttl' t' d : ℕ) (l : Lock) (w w' : World) (s : S)
      → milliseconds ttl ≡ suc t
      → w.env.reply_set_nx (suc w.at) ≡ some (asked key ttl w s).0
      → (acquire_lock key ttl w).0 ≡ ok l
      → milliseconds ttl ≤ d
      → milliseconds ttl' ≡ suc t'
      → w'.env.reply_set_nx (suc w'.at)
        ≡ some (asked key ttl' w' (r.wait d (asked key ttl w s).1)).0
      → (acquire_lock key ttl' w').0 ≡ ok (made doc key ttl' w')
  acquire_lock-Expires key ttl t ttl' t' d l w w' s whole reply done le whole' reply' =
      elim (acquire-cases doc key ttl t w s _ whole
        (AcquireSent-Ran r key ttl w s _ (answered reply))) [
          | inl (e, is) ↦ absurd (cc (sym done ∙ is))
          | inr (_, lives) ↦
              acquire_lock-free key ttl' t' w' (r.wait d (asked key ttl w s).1) whole'
                (doc.wait_held d (asked key ttl w s).1 (text_append "lock:" key)
                  ∙ rw lives (aged_out d (milliseconds ttl) (w.env.uuid w.at 0) le))
                reply'
        ]
