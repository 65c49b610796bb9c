-- ===== src/Redis/Lock/Clients/Extending.antt =====
-- Extend among other clients, for internal/infrastructure/redis/distributed_lock.go.
use go_event_ticket_reservat.Prelude.{
  ℕ, zero, suc, ◌<◌, ◌≡◌, ◌≢◌, refl, sym, ap, ◌∙◌, String, true, false, Option, none, some, ◌==◌,
  arith, eq_iff, inl, inr, ◌⊎◌, Bool-cases,
}
use go_event_ticket_reservat.Prelude.Int.{ℤ, pos, negsuc}
use go_event_ticket_reservat.Errors.{Error, Result, ok, err, wrapped, driver, lock_not_owned}
use go_event_ticket_reservat.World.Rows.{World}
use go_event_ticket_reservat.World.Exec.{pure, send, lift, ◌>>=◌}
use go_event_ticket_reservat.Redis.Server.{Server, Documented, is_value, renewed, extend_script}
use go_event_ticket_reservat.Redis.Lock.{Lock, extend}
use go_event_ticket_reservat.Redis.Lock.Clients.{
  Session, milliseconds, ended, prolonged, answered, lost, unsent,
}
use go_event_ticket_reservat.Redis.Lock.Clients.Sending.{ExtendRan}
use go_event_ticket_reservat.Redis.Lock.Clients.Owned.{
  is_value_lem, Owned, Keeps, extend-Keeps, Owned-Keeps, Owned-ended,
}

module _ {S : Type 0} {r : Server S} (doc : Documented r) where
  renewed-Entry : (t : ℕ) (v : String) (u : ℕ) → 0 < t → renewed t (some (v, u)) ≡ some (v, t)
  renewed-Entry zero v u lt = absurd (omega arith)
  renewed-Entry (suc t) v u lt = refl

  -- The script of Extend found the lock's value.
  pub record Extended (l : Lock) (t : ℕ) (s : S) : Type 0 where
    replied : (extend_script r l.key l.value t s).0 ≡ 1
    lives : 0 < t → doc.held l.key (extend_script r l.key l.value t s).1 ≡ some (l.value, t)

  pub extend-Extended :
      (l : Lock) (t : ℕ) (s : S) → is_value l.value (r.get l.key s) ≡ true → Extended l t s
  unfolding extend_script
  extend-Extended l t s mine =
      let (u, e) = is_value_lem l.value (doc.held l.key s) (rw (← doc.get_reply l.key s) mine) in
      let here : (l.key == l.key) ≡ true = (eq_iff l.key l.key).1 refl in
      record {
        replied = rw (mine, doc.pexpire_reply l.key t s, e) refl;
        lives = λ lt.
            rw (mine, doc.pexpire_held l.key t s l.key, here, e) (renewed-Entry t l.value u lt);
      }

  Owned-renewed :
      (l : Lock) (ttl : ℕ) (s s' : S) (x : Session)
      → Keeps doc (λ w. w ≢ l.value) s s'
      → (0 < milliseconds ttl → doc.held l.key s' ≡ some (l.value, milliseconds ttl))
      → Owned doc s x
      → Owned doc s' (prolonged ttl l (ok (record l { ttl = ttl })) x)
  Owned-renewed l ttl s s' x k lives own = elim (Bool-cases (x.lock.value == l.value)) [
    | inl e ↦ rw e (λ lt. (milliseconds ttl, lives lt, omega arith))
    | inr e ↦ rw e (
        Owned-Keeps doc s s' x k
          (λ same. absurd (cc (sym e ∙ (eq_iff x.lock.value l.value).1 same))) own)
  ]

  pub extend-err :
      (l : Lock) (ttl : ℕ) (w : World) (o : Option ℤ)
      → w.env.reply_eval w.at ≡ o
      → (o ≡ none) ⊎ (o ≡ some (pos 0))
      → (e : Error) × ((extend l ttl w).0 ≡ err e)
  unfolding extend send lift ◌>>=◌
  extend-err l ttl w o same (inl e) = (wrapped "ロック延長に失敗" driver, rw (same, e) refl)
  extend-err l ttl w o same (inr e) = (lock_not_owned, rw (same, e) refl)

  pub extend-ok :
      (l : Lock) (ttl : ℕ) (w : World)
      → w.env.reply_eval w.at ≡ some (pos 1)
      → (extend l ttl w).0 ≡ ok (record l { ttl = ttl })
  unfolding extend send lift ◌>>=◌ pure
  extend-ok l ttl w same = rw same refl

  Owned-err :
      (l : Lock) (ttl : ℕ) (s s' : S) (x : Session) (o : Result Lock)
      → (e : Error) × (o ≡ err e)
      → Keeps doc (λ w. w ≢ l.value) s s'
      → Owned doc s x
      → Owned doc s' (prolonged ttl l o x)
  Owned-err l ttl s s' x o (e, is) k own = rw is (Owned-ended doc l s s' x k own)

  pub refused :
      (l : Lock) (t : ℕ) (s : S)
      → is_value l.value (r.get l.key s) ≡ false
      → (extend_script r l.key l.value t s).0 ≡ 0
  unfolding extend_script
  refused l t s e = rw e refl

  Owned-answered :
      (l : Lock) (ttl : ℕ) (w : World) (s : S) (x : Session)
      → w.env.reply_eval w.at ≡ some (pos (extend_script r l.key l.value (milliseconds ttl) s).0)
      → Owned doc s x
      → Owned doc
          (extend_script r l.key l.value (milliseconds ttl) s).1
          (prolonged ttl l (extend l ttl w).0 x)
  Owned-answered l ttl w s x reply own =
      let t = milliseconds ttl in
      let keeps = extend-Keeps doc l.key l.value t s in
      elim (Bool-cases (is_value l.value (r.get l.key s))) [
        | inl mine ↦
            let done = extend-Extended l t s mine in
            rw (extend-ok l ttl w (reply ∙ ap (λ n. some (pos n)) done.replied))
              (Owned-renewed l ttl s _ x keeps done.lives own)
        | inr foreign ↦
            Owned-err l ttl s _ x _
              (extend-err l ttl w _ reply (inr (ap (λ n. some (pos n)) (refused l t s foreign))))
              keeps own
      ]

  pub extend-Owned :
      (l : Lock) (ttl : ℕ) (w : World) (s s' : S) (x : Session)
      → ExtendRan r l ttl w s s'
      → Owned doc s x
      → Owned doc s' (prolonged ttl l (extend l ttl w).0 x)
  extend-Owned l ttl w s s' x (answered e) own = Owned-answered l ttl w s x e own
  extend-Owned l ttl w s s' x (lost e) own =
      Owned-err l ttl s s' x _ (extend-err l ttl w none e (inl refl))
        (extend-Keeps doc l.key l.value (milliseconds ttl) s) own
  extend-Owned l ttl w s s' x (unsent e) own =
      Owned-err l ttl s s' x _ (extend-err l ttl w none e (inl refl)) (λ q v u _ h. h) own

  pub extend-cases :
      (l : Lock) (ttl : ℕ) (w : World) (o : Option ℤ)
      → w.env.reply_eval w.at ≡ o
      → ((e : Error) × ((extend l ttl w).0 ≡ err e))
        ⊎ ((extend l ttl w).0 ≡ ok (record l { ttl = ttl }))
  unfolding extend send lift ◌>>=◌ pure
  extend-cases l ttl w none e = inl (extend-err l ttl w none e (inl refl))
  extend-cases l ttl w (some (pos zero)) e = inl (extend-err l ttl w _ e (inr refl))
  extend-cases l ttl w (some (pos (suc n))) e = inr (rw e refl)
  extend-cases l ttl w (some (negsuc n)) e = inr (rw e refl)

  pub value-ended : (l : Lock) (x : Session) → (ended l x).lock.value ≡ x.lock.value
  value-ended l x = elim (Bool-cases (x.lock.value == l.value)) [
    | inl e ↦ rw e refl
    | inr e ↦ rw e refl
  ]

  pub value-prolonged :
      (ttl : ℕ) (l : Lock) (w : World) (x : Session)
      → (prolonged ttl l (extend l ttl w).0 x).lock.value ≡ x.lock.value
  value-prolonged ttl l w x = elim (extend-cases l ttl w _ refl) [
    | inl (e, is) ↦ rw is (value-ended l x)
    | inr is ↦ rw is (elim (Bool-cases (x.lock.value == l.value)) [
      | inl e ↦ rw e (sym ((eq_iff x.lock.value l.value).0 e))
      | inr e ↦ rw e refl
    ])
  ]
