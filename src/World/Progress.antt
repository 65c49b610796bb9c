-- ===== src/World/Progress.antt =====
-- Rules for functions that succeed where the driver does not fail.
use go_event_ticket_reservat.Prelude.{
  ℕ, suc, String, ◌≡◌, refl, sym, subst, Bool, true, false, some,
}
use go_event_ticket_reservat.Errors.{Error, Result, ok, err}
use go_event_ticket_reservat.World.Rows.{Db, Env, World, Metrics}
use go_event_ticket_reservat.World.Exec.{
  Exec, Statement, pure, lift, map_error, wrapping, deferred, time_now, sample, require, query,
  exec_tx, count, change_error, continue, ◌>>=◌,
}

-- No statement fails in the driver.
abbrev pub Working : World → Type 0
Working w = (n : ℕ) → w.env.fails n ≡ false

module _ {A : Type 0} where
  abbrev pub Gone : Result A → World → (A → World → Type 0) → Type 0
  Gone (ok a) w Q = Working w × Q a w
  Gone (err e) w Q = ⊥

  -- From a world with `P`, `m` succeeds and `Q` holds.
  pub record Goes (P : World → Type 0) (m : Exec A) (Q : A → World → Type 0) : Type 0 where
    pub run : (w : World) → Working w → P w → Gone (m w).0 (m w).1 Q

  pub Goes-pure :
      {P : World → Type 0} {Q : A → World → Type 0} (a : A)
      → ((w : World) → P w → Q a w)
      → Goes P (pure a) Q
  unfolding pure
  Goes-pure a h = record { run = λ w k p. (k, h w p) }

  pub Goes-lift :
      {P : World → Type 0} {Q : A → World → Type 0} (r : Result A)
      → ((w : World) → P w → (a : A) × (r ≡ ok a) × Q a w)
      → Goes P (lift r) Q
  unfolding lift
  Goes-lift {Q} r h = record {
    run = λ w k p. let (a, e, q) = h w p in subst (λ x. Gone x w Q) (sym e) (k, q);
  }

  gone_change :
      (Q : A → World → Type 0) (f : Error → Error) (r : Result A) (w : World)
      → Gone r w Q
      → Gone (change_error f r) w Q
  gone_change Q f (ok a) w h = h
  gone_change Q f (err e) w h = h

  pub Goes-map_error :
      {P : World → Type 0} {Q : A → World → Type 0} (f : Error → Error) (m : Exec A)
      → Goes P m Q
      → Goes P (map_error f m) Q
  unfolding map_error
  Goes-map_error {Q} f m h = record { run = λ w k p. gone_change Q f (m w).0 (m w).1 (h.run w k p) }

  pub Goes-wrapping :
      {P : World → Type 0} {Q : A → World → Type 0} (s : String) (m : Exec A)
      → Goes P m Q
      → Goes P (wrapping s m) Q
  unfolding wrapping
  Goes-wrapping s m h = Goes-map_error _ m h

  gone_deferred :
      {B : Type 0} (Q S : A → World → Type 0) (d : World → B × World) (r : Result A) (w : World)
      → ((a : A) (w : World) → Working w → Q a w → Working (d w).1 × S a (d w).1)
      → Gone r w Q
      → Gone r (d w).1 S
  gone_deferred Q S d (ok a) w h k = h a w k.0 k.1
  gone_deferred Q S d (err e) w h k = k

  pub Goes-deferred :
      {B : Type 0} {P : World → Type 0} {Q S : A → World → Type 0} (m : Exec A)
      (d : World → B × World)
      → Goes P m Q
      → ((a : A) (w : World) → Working w → Q a w → Working (d w).1 × S a (d w).1)
      → Goes P (deferred m d) S
  unfolding deferred
  Goes-deferred {Q} {S} m d h k = record {
    run = λ w works p. gone_deferred Q S d (m w).0 (m w).1 k (h.run w works p);
  }

  gone_mono :
      (Q S : A → World → Type 0) (r : Result A) (w : World)
      → ((a : A) (w : World) → Q a w → S a w)
      → Gone r w Q
      → Gone r w S
  gone_mono Q S (ok a) w f h = (h.0, f a w h.1)
  gone_mono Q S (err e) w f h = h

  pub Goes-mono :
      {P : World → Type 0} {Q S : A → World → Type 0} (m : Exec A)
      → ((a : A) (w : World) → Q a w → S a w)
      → Goes P m Q
      → Goes P m S
  Goes-mono {Q} {S} m f h = record { run = λ w k p. gone_mono Q S (m w).0 (m w).1 f (h.run w k p) }

  gone_with :
      (F : Type 0) (Q : A → World → Type 0) (r : Result A) (w : World)
      → F
      → Gone r w Q
      → Gone r w (λ a w. F × Q a w)
  gone_with F Q (ok a) w f h = (h.0, (f, h.1))
  gone_with F Q (err e) w f h = h

  -- A fact about values stays true.
  pub Goes-with :
      {P : World → Type 0} {Q : A → World → Type 0} (F : Type 0) (m : Exec A)
      → Goes P m Q
      → Goes (λ w. F × P w) m (λ a w. F × Q a w)
  Goes-with {Q} F m h = record { run = λ w k p. gone_with F Q (m w).0 (m w).1 p.0 (h.run w k p.1) }

  -- A fact about values can be assumed first.
  pub Goes-given :
      {P : World → Type 0} {Q : A → World → Type 0} (F : Type 0) (m : Exec A)
      → (F → Goes P m Q)
      → Goes (λ w. F × P w) m Q
  Goes-given F m h = record { run = λ w k p. (h p.0).run w k p.1 }

  pub Goes-query :
      {P : World → Type 0} {Q : A → World → Type 0} (f : Env → Db → Result A)
      → ((w : World) → P w → (a : A) × (f w.env w.db ≡ ok a) × Q a (record w { at = suc w.at }))
      → Goes P (query f) Q
  unfolding query
  Goes-query {Q} f h = record { run = λ w k p. let (a, e, q) = h w p in rw (k w.at, e) (k, q) }

  -- A statement in an open transaction
  pub Goes-exec_tx :
      {P : Db → Type 0} {Q : A → Db → Type 0} (f : Statement A)
      → ((fresh : ℕ → String) (now : ℕ) (d : Db)
          → P d
          → (a : A) × (d' : Db) × (f fresh now d ≡ ok (a, d')) × Q a d')
      → Goes
          (λ w. (d : Db) × (w.tx ≡ some d) × P d)
          (exec_tx f)
          (λ a w. (d : Db) × (w.tx ≡ some d) × Q a d)
  unfolding exec_tx
  Goes-exec_tx {Q} f h = record {
    run = λ w k (d, is_open, p).
        let (a, d', e, q) = h (w.env.uuid w.at) (w.env.db_now w.at) d p in
        rw (is_open, k w.at, e) (k, (d', refl, q));
  }

module _ {A B : Type 0} where
  gone_continue :
      (R : A → World → Type 0) (Q : B → World → Type 0) (f : A → Exec B) (r : Result A) (w : World)
      → ((a : A) → Goes (R a) (f a) Q)
      → Gone r w R
      → Gone (continue r f w).0 (continue r f w).1 Q
  gone_continue R Q f (ok a) w h (k, p) = (h a).run w k p
  gone_continue R Q f (err e) w h k = absurd k

  pub Goes-bind :
      {P : World → Type 0} {Q : B → World → Type 0} (R : A → World → Type 0) (m : Exec A)
      (f : A → Exec B)
      → Goes P m R
      → ((a : A) → Goes (R a) (f a) Q)
      → Goes P (m >>= f) Q
  unfolding ◌>>=◌
  Goes-bind {Q} R m f h k = record {
    run = λ w works p. gone_continue R Q f (m w).0 (m w).1 k (h.run w works p);
  }

-- What does not depend on how often the environment was asked
abbrev Lasting : (World → Type 0) → Type 0
Lasting P = (w : World) (n : ℕ) → P w → P (record w { at = n })

pub Goes-time_now : {P : World → Type 0} → Lasting P → Goes P time_now (λ _. P)
unfolding time_now sample
Goes-time_now h = record { run = λ w k p. (k, h w (suc w.at) p) }

pub Goes-clock :
    {P : World → Type 0} {Q : ℕ → World → Type 0}
    → ((w : World) → P w → Q (w.env.now w.at) (record w { at = suc w.at }))
    → Goes P time_now Q
unfolding time_now sample
Goes-clock h = record { run = λ w k p. (k, h w p) }

pub Goes-require :
    {P Q : World → Type 0} (b : Bool) (e : Error)
    → ((w : World) → P w → (b ≡ true) × Q w)
    → Goes P (require b e) (λ _. Q)
unfolding require pure
Goes-require {Q} b e h = record { run = λ w k p. let (is, q) = h w p in rw is (k, q) }

pub Goes-count : {P : World → Type 0} (f : Metrics → Metrics) → Goes P (count f) (λ _ w. Unit)
unfolding count
Goes-count f = record { run = λ w k p. (k, tt) }
