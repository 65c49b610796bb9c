-- ===== src/Redis/Lock/Clients/Owned.antt =====
-- When a client may count on a lock, and what the scripts leave as it is, for internal/infrastructure/redis/distributed_lock.go.
use go_event_ticket_reservat.Prelude.{
  ℕ, suc, ◌≤◌, ◌<◌, ◌≡◌, ◌≢◌, refl, sym, ap, ◌∙◌, String, Bool, true, false, not, ◌&&◌, Option,
  none, some, if◌then◌else◌, ◌==◌, arith, eq_iff, inl, inr, is_some, Bool-cases,
}
use go_event_ticket_reservat.Redis.Server.{
  Server, Entry, Documented, value_of, is_value, release_script, extend_script,
}
use go_event_ticket_reservat.Redis.Lock.{Lock}
use go_event_ticket_reservat.Redis.Lock.Clients.{Session, ended, Sent, answered, lost, unsent}

pub is_value_lem :
    (v : String) (e : Option Entry) → is_value v (value_of e) ≡ true → (u : ℕ) × (e ≡ some (v, u))
is_value_lem v none h = absurd (ground arith)
is_value_lem v (some (w, u)) h = (u, ap (λ z. some (z, u)) ((eq_iff w v).0 h))

not_reserved :
    (q k : String) (free : Bool) (a c : Option Entry)
    → (q ≡ k → free ≡ false)
    → (if (q == k) && free then a else c) ≡ c
not_reserved q k free a c h = elim (Bool-cases (q == k)) [
  | inl e ↦ rw (e, h ((eq_iff q k).0 e)) refl
  | inr e ↦ rw e refl
]

module _ {S : Type 0} {r : Server S} (doc : Documented r) where
  -- A key that a client counts on lives at least as long on the server, with the client's value.
  abbrev pub Owned : S → Session → Type 0
  Owned s x = 0 < x.left → (u : ℕ) × (doc.held x.lock.key s ≡ some (x.lock.value, u)) × (x.left ≤ u)

  -- The entries whose value passes are the same in the two states.
  abbrev pub Keeps : (String → Type 0) → S → S → Type 0
  Keeps V s s' =
      (k v : String) (u : ℕ) → V v → doc.held k s ≡ some (v, u) → doc.held k s' ≡ some (v, u)

  pub setnx-Keeps : (k v : String) (t : ℕ) (s : S) → Keeps (λ _. Unit) s (r.setnx k v (suc t) s).1
  setnx-Keeps k v t s q w u _ h =
      doc.setnx_held k v t s q
      ∙ not_reserved q k _ _ _ (λ e. ap (λ o. not (is_some o)) (ap (λ z. doc.held z s) (sym e) ∙ h))
      ∙ h

  -- The key is another one, since it holds another value than `k` does.
  pub elsewhere :
      (k v q w : String) (s : S) (u : ℕ)
      → is_value v (r.get k s) ≡ true
      → w ≢ v
      → doc.held q s ≡ some (w, u)
      → (q == k) ≡ false
  elsewhere k v q w s u mine other h =
      let (u', e) = is_value_lem v (doc.held k s) (rw (← doc.get_reply k s) mine) in
      elim (Bool-cases (q == k)) [
        | inl same ↦
            let at_k = ap (λ z. doc.held z s) (sym ((eq_iff q k).0 same)) ∙ h in
            absurd (other (cc (sym at_k ∙ e)))
        | inr distinct ↦ distinct
      ]

  pub release-Keeps : (k v : String) (s : S) → Keeps (λ w. w ≢ v) s (release_script r k v s).1
  unfolding release_script
  release-Keeps k v s q w u other h = elim (Bool-cases (is_value v (r.get k s))) [
    | inl e ↦ rw (e, doc.del_held k s q, elsewhere k v q w s u e other h) h
    | inr e ↦ rw e h
  ]

  pub extend-Keeps :
      (k v : String) (t : ℕ) (s : S) → Keeps (λ w. w ≢ v) s (extend_script r k v t s).1
  unfolding extend_script
  extend-Keeps k v t s q w u other h = elim (Bool-cases (is_value v (r.get k s))) [
    | inl e ↦ rw (e, doc.pexpire_held k t s q, elsewhere k v q w s u e other h) h
    | inr e ↦ rw e h
  ]

  pub Keeps-Sent :
      {A : Type 0} {V : String → Type 0} (reply : Option A) (ran : A × S) (s s' : S)
      → Keeps V s ran.1
      → Sent reply ran s s'
      → Keeps V s s'
  Keeps-Sent reply ran s s' k (answered e) = k
  Keeps-Sent reply ran s s' k (lost e) = k
  Keeps-Sent reply ran s s' k (unsent e) = λ q w u _ h. h

  pub Owned-Keeps :
      {V : String → Type 0} (s s' : S) (x : Session)
      → Keeps V s s'
      → V x.lock.value
      → Owned s x
      → Owned s' x
  Owned-Keeps s s' x k v own some_left = let (u, e, le) = own some_left in (u, k _ _ u v e, le)

  pub Owned-ended :
      (l : Lock) (s s' : S) (x : Session)
      → Keeps (λ w. w ≢ l.value) s s'
      → Owned s x
      → Owned s' (ended l x)
  Owned-ended l s s' x k own = elim (Bool-cases (x.lock.value == l.value)) [
    | inl e ↦ rw e (λ lt. absurd (omega arith))
    | inr e ↦ rw e (
        Owned-Keeps s s' x k (λ same. absurd (cc (sym e ∙ (eq_iff x.lock.value l.value).1 same)))
          own)
  ]
