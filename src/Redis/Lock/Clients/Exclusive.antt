-- ===== src/Redis/Lock/Clients/Exclusive.antt =====
-- At most one client at a time counts on a lock, for internal/infrastructure/redis/distributed_lock.go.
use go_event_ticket_reservat.Prelude.{
  ℕ, zero, suc, ◌≤◌, ◌<◌, ◌-◌, ◌≡◌, refl, sym, ap, ◌∙◌, String, Bool, true, false, ◌&&◌, some, List,
  [], ◌∷◌, ◌==◌, ltb, map, arith, eq_iff, inl, inr, Bool-cases,
}
use go_event_ticket_reservat.Prelude.Tables.{count_where}
use go_event_ticket_reservat.World.Rows.{World}
use go_event_ticket_reservat.Redis.Server.{Server, Documented}
use go_event_ticket_reservat.Redis.Lock.{acquire_lock, extend}
use go_event_ticket_reservat.Redis.Lock.Clients.{
  Session, milliseconds, opened, ended, prolonged, older, holds, Fresh, Clients, Step, acquires,
  releases, extends, waits, Reach, here, next,
}
use go_event_ticket_reservat.Redis.Lock.Clients.Sending.{
  AcquireRan, AcquireSent-Ran, ReleaseSent-Ran, ExtendSent-Ran,
}
use go_event_ticket_reservat.Redis.Lock.Clients.Owned.{
  Owned, Keeps, release-Keeps, Keeps-Sent, Owned-Keeps, Owned-ended,
}
use go_event_ticket_reservat.Redis.Lock.Clients.Extending.{
  extend-Owned, value-ended, value-prolonged,
}
use go_event_ticket_reservat.Redis.Lock.Clients.Acquiring.{acquire-cases, acquire-Keeps}

both : (b c : Bool) → (b && c) ≡ true → (b ≡ true) × (c ≡ true)
both true c h = (refl, h)
both false c h = absurd (ground arith)

positive : (n : ℕ) → ltb 0 n ≡ true → 0 < n
positive zero h = absurd (ground arith)
positive (suc n) h = omega arith

module _ {S : Type 0} {r : Server S} (doc : Documented r) where
  AllOwned : S → List Session → Type 0
  AllOwned s [] = Unit
  AllOwned s (x ∷ xs) = Owned doc s x × AllOwned s xs

  AllOwned-map :
      (s s' : S) (f : Session → Session) (xs : List Session)
      → ((x : Session) → Owned doc s x → Owned doc s' (f x))
      → AllOwned s xs
      → AllOwned s' (map f xs)
  unfolding AllOwned
  AllOwned-map s s' f [] h all = tt
  AllOwned-map s s' f (x ∷ xs) h (own, all) = (h x own, AllOwned-map s s' f xs h all)

  AllOwned-Keeps :
      (s s' : S) (xs : List Session) → Keeps doc (λ _. Unit) s s' → AllOwned s xs → AllOwned s' xs
  unfolding AllOwned
  AllOwned-Keeps s s' [] k all = tt
  AllOwned-Keeps s s' (x ∷ xs) k (own, all) =
      (Owned-Keeps doc s s' x k tt own, AllOwned-Keeps s s' xs k all)

  Distinct : List Session → Type 0
  Distinct [] = Unit
  Distinct (x ∷ xs) = Fresh x.lock.value xs × Distinct xs

  Fresh-map :
      (f : Session → Session) (v : String) (xs : List Session)
      → ((x : Session) → (f x).lock.value ≡ x.lock.value)
      → Fresh v xs
      → Fresh v (map f xs)
  Fresh-map f v [] same h = tt
  Fresh-map f v (x ∷ xs) same (new, h) = ((λ e. new (sym (same x) ∙ e)), Fresh-map f v xs same h)

  Distinct-map :
      (f : Session → Session) (xs : List Session)
      → ((x : Session) → (f x).lock.value ≡ x.lock.value)
      → Distinct xs
      → Distinct (map f xs)
  unfolding Distinct
  Distinct-map f [] same h = tt
  Distinct-map f (x ∷ xs) same (new, h) =
      (rw (same x) (Fresh-map f x.lock.value xs same new), Distinct-map f xs same h)

  record Safe (y : Clients S) : Type 0 where
    all : AllOwned y.server y.sessions
    distinct : Distinct y.sessions

  Safe-opened :
      (key : String) (ttl t : ℕ) (w : World) (s s' : S) (xs : List Session)
      → milliseconds ttl ≡ suc t
      → Fresh (w.env.uuid w.at 0) xs
      → AcquireRan r key ttl w s s'
      → Safe (record { server = s; sessions = xs })
      → Safe (record { server = s'; sessions = opened ttl (acquire_lock key ttl w).0 xs })
  unfolding AllOwned Distinct
  Safe-opened key ttl t w s s' xs whole new sent h =
      let kept = AllOwned-Keeps s s' xs (acquire-Keeps doc key ttl t w s s' whole sent) h.all in
      elim (acquire-cases doc key ttl t w s s' whole sent) [
        | inl (e, is) ↦ rw is (record { all = kept; distinct = h.distinct })
        | inr (is, lives) ↦ rw is (record {
          all = ((λ lt. (milliseconds ttl, lives, omega arith)), kept);
          distinct = (new, h.distinct);
        })
      ]

  Safe-map :
      (s s' : S) (f : Session → Session) (xs : List Session)
      → ((x : Session) → Owned doc s x → Owned doc s' (f x))
      → ((x : Session) → (f x).lock.value ≡ x.lock.value)
      → Safe (record { server = s; sessions = xs })
      → Safe (record { server = s'; sessions = map f xs })
  Safe-map s s' f xs own same h = record {
    all = AllOwned-map s s' f xs own h.all;
    distinct = Distinct-map f xs same h.distinct;
  }

  Owned-older : (d : ℕ) (s : S) (x : Session) → Owned doc s x → Owned doc (r.wait d s) (older d x)
  Owned-older d s x own lt =
      let (u, e, le) = own (omega arith) in
      (u - d, rw (doc.wait_held d s x.lock.key, e) (ground arith), omega arith)

  Step-Safe : {y z : Clients S} → Step r y z → Safe y → Safe z
  Step-Safe (acquires y key ttl t w s whole new sent) h =
      Safe-opened key ttl t w y.server s y.sessions whole new
        (AcquireSent-Ran r key ttl w y.server s sent) h
  Step-Safe (releases y l w s sent) h =
      let ran = ReleaseSent-Ran r l w y.server s sent in
      let keeps = Keeps-Sent doc _ _ y.server s (release-Keeps doc l.key l.value y.server) ran in
      Safe-map y.server s (ended l) y.sessions (λ x own. Owned-ended doc l y.server s x keeps own)
        (value-ended doc l) h
  Step-Safe (extends y l ttl w s sent) h =
      let ran = ExtendSent-Ran r l ttl w y.server s sent in
      Safe-map y.server s (prolonged ttl l (extend l ttl w).0) y.sessions
        (λ x own. extend-Owned doc l ttl w y.server s x ran own) (value-prolonged doc ttl l w) h
  Step-Safe (waits y d) h =
      Safe-map y.server (r.wait d y.server) (older d) y.sessions (Owned-older d y.server)
        (λ x. refl) h

  Reach-Safe : {y z : Clients S} → Reach r y z → Safe y → Safe z
  Reach-Safe here h = h
  Reach-Safe (next reach st) h = Step-Safe st (Reach-Safe reach h)

  holds-held :
      (s : S) (k : String) (x : Session)
      → holds k x ≡ true
      → Owned doc s x
      → (u : ℕ) × (doc.held k s ≡ some (x.lock.value, u))
  holds-held s k x h own =
      let (same, lt) = both (x.lock.key == k) (ltb 0 x.left) h in
      let (u, e, _) = own (positive x.left lt) in
      (u, ap (λ q. doc.held q s) (sym ((eq_iff x.lock.key k).0 same)) ∙ e)

  none_hold :
      (s : S) (k v : String) (u : ℕ) (xs : List Session)
      → doc.held k s ≡ some (v, u)
      → AllOwned s xs
      → Fresh v xs
      → count_where (holds k) xs ≡ 0
  unfolding AllOwned
  none_hold s k v u [] e all new = refl
  none_hold s k v u (x ∷ xs) e (own, all) (other, new) = elim (Bool-cases (holds k x)) [
    | inl held ↦ let (u', e') = holds-held s k x held own in absurd (other (cc (sym e' ∙ e)))
    | inr free ↦ rw (free, none_hold s k v u xs e all new) refl
  ]

  one_holds :
      (s : S) (k : String) (xs : List Session)
      → AllOwned s xs
      → Distinct xs
      → count_where (holds k) xs ≤ 1
  unfolding AllOwned Distinct
  one_holds s k [] all new = omega arith
  one_holds s k (x ∷ xs) (own, all) (new, distinct) = elim (Bool-cases (holds k x)) [
    | inl held ↦
        let (u, e) = holds-held s k x held own in
        rw (held, none_hold s k x.lock.value u xs e all new) (omega arith)
    | inr free ↦ rw free (omega (arith, one_holds s k xs all distinct))
  ]

  -- However clients that share a server acquire, release and extend locks, whatever calls fail and
  -- whenever, at most one of them at a time may count on a key, if the server does what Redis
  -- documents, no two locks have the same value and each is asked for a millisecond at least.
  pub Reach-Exclusive :
      (s : S) (z : Clients S) (key : String)
      → Reach r (record { server = s; sessions = [] }) z
      → count_where (holds key) z.sessions ≤ 1
  unfolding AllOwned Distinct
  Reach-Exclusive s z key reach =
      let safe = Reach-Safe reach (record { all = tt; distinct = tt }) in
      one_holds z.server key z.sessions safe.all safe.distinct
