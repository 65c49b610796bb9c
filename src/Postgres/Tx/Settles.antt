-- ===== src/Postgres/Tx/Settles.antt =====
-- Rules for what a function does to the database as a whole: it fails and leaves the database as it
-- was, or it succeeds and what it did is known.
use go_event_ticket_reservat.Prelude.{
  String, ◌≡◌, refl, sym, subst, Bool, true, false, Option, none, some, suc, if◌then◌else◌, ◌∙◌,
}
use go_event_ticket_reservat.Errors.{Error, Result, ok, err, wrapped}
use go_event_ticket_reservat.World.Rows.{Db, World, Metrics}
use go_event_ticket_reservat.World.Exec.{
  Exec, pure, raise, wrapping, deferred, attempt, count, change_error, continue, ◌>>=◌,
}
use go_event_ticket_reservat.World.Logic.{Ends, Ends-mono, Reads, Reads-same, IsRead}
use go_event_ticket_reservat.Postgres.Tx.{begin, begin_copy, commit, commit_copy, rollback}
use go_event_ticket_reservat.Postgres.Tx.Rules.{Does, Changes}

module _ {A : Type 0} where
  pub record Settles (m : Exec A) (R : Db → A → Db → Type 0) : Type 0 where
    pub run : (w : World) → Ends (m w).0 (m w).1 (λ a w'. R w.db a w'.db) (λ w'. w'.db ≡ w.db)

  -- From a copy `d`, in a transaction that `m` Ends
  pub record Lands (m : Exec A) (R : Db → A → Db → Type 0) : Type 0 where
    pub run :
        (w : World) (d : Db)
        → w.tx ≡ some d
        → Ends (m w).0 (m w).1 (λ a w'. R d a w'.db) (λ w'. w'.db ≡ w.db)

  -- `m` cannot fail and does not write.
  pub record Succeeds (m : Exec A) (a : A) : Type 0 where
    pub run : (w : World) → ((m w).0 ≡ ok a) × ((m w).1.db ≡ w.db)

  pub Succeeds-pure : (a : A) → Succeeds (pure a) a
  unfolding pure
  Succeeds-pure a = record { run = λ w. (refl, refl) }

  pub Settles-mono :
      {R S : Db → A → Db → Type 0} (m : Exec A)
      → ((d : Db) (a : A) (d' : Db) → R d a d' → S d a d')
      → Settles m R
      → Settles m S
  Settles-mono m f h = record {
    run = λ w. Ends-mono _ _ _ (m w).0 (m w).1 (λ a w'. f w.db a w'.db) (h.run w);
  }

  settles-reads :
      (R : A → Db → Type 0) (d : Db) (r : Result A) (w : World)
      → Ends r w (λ a w'. (w'.db ≡ d) × R a d) (λ w'. w'.db ≡ d)
      → Ends r w (λ a w'. (w'.db ≡ d) × R a d) (λ w'. w'.db ≡ d)
  settles-reads R d r w h = h

  pub Settles-Reads :
      {R : A → Db → Type 0} (m : Exec A) → Reads m R → Settles m (λ d a d'. (d' ≡ d) × R a d)
  Settles-Reads {R} m h = record { run = λ w. settles-reads R w.db (m w).0 (m w).1 (h.run w) }

  pub settles-deferred :
      (R : Db → A → Db → Type 0) (d : Db) (r : Result A) (w w' : World)
      → w'.db ≡ w.db
      → Ends r w (λ a w'. R d a w'.db) (λ w'. w'.db ≡ d)
      → Ends r w' (λ a w'. R d a w'.db) (λ w'. w'.db ≡ d)
  settles-deferred R d (ok a) w w' e h = subst (R d a) (sym e) h
  settles-deferred R d (err x) w w' e h = e ∙ h

  pub Settles-deferred :
      {B : Type 0} {R : Db → A → Db → Type 0} (m : Exec A) (n : World → B × World)
      → Settles m R
      → ((w : World) → (n w).1.db ≡ w.db)
      → Settles (deferred m n) R
  unfolding deferred
  Settles-deferred {R} m n h k = record {
    run = λ w. settles-deferred R w.db (m w).0 (m w).1 (n (m w).1).1 (k (m w).1) (h.run w);
  }

  pub Settles-if :
      {R : Db → A → Db → Type 0} (b : Bool) (m n : Exec A)
      → Settles m R
      → Settles n R
      → Settles (if b then m else n) R
  Settles-if true m n h k = h
  Settles-if false m n h k = k

  begin_lands :
      (R : Db → A → Db → Type 0) (message : String) (body : Exec A) (d : Db) (fails : Bool)
      (w : World)
      → Lands body R
      → w.db ≡ d
      → let (r, w') =
          continue
            (change_error (wrapped message) (begin_copy fails w).0)
            (λ _. deferred body rollback)
            (begin_copy fails w).1 in
        Ends r w' (λ a w'. R d a w'.db) (λ w'. w'.db ≡ d)
  unfolding deferred rollback
  begin_lands R message body d true w h same = same
  begin_lands R message body d false w h same =
      let c = record w { tx = some w.db } in
      subst
        (λ k.
          Ends (deferred body rollback c).0 (deferred body rollback c).1 (λ a w'. R k a w'.db)
            (λ w'. w'.db ≡ k))
        same
        (settles-deferred R w.db (body c).0 (body c).1 (rollback (body c).1).1 refl
          (h.run c w.db refl))

  pub Settles-transaction :
      {R : Db → A → Db → Type 0} (message : String) (body : Exec A)
      → Lands body R
      → Settles (wrapping message begin >>= λ _. deferred body rollback) R
  unfolding ◌>>=◌ wrapping begin
  Settles-transaction {R} message body h = record {
    run =
        λ w. begin_lands R message body w.db (w.env.fails w.at) (record w { at = suc w.at }) h refl;
  }

pub Succeeds-count : (f : Metrics → Metrics) → Succeeds (count f) tt
unfolding count
Succeeds-count f = record { run = λ w. (refl, refl) }

pub Succeeds-attempt_then :
    {A B : Type 0} {a : B} (m : Exec A) (n : Exec B)
    → IsRead m
    → Succeeds n a
    → Succeeds (attempt m >>= λ _. n) a
unfolding ◌>>=◌ attempt
Succeeds-attempt_then m n h k = record {
  run = λ w. ((k.run (m w).1).0, (k.run (m w).1).1 ∙ Reads-same m h w);
}

pub Succeeds-if :
    {A : Type 0} {a : A} (b : Bool) (m n : Exec A)
    → Succeeds m a
    → Succeeds n a
    → Succeeds (if b then m else n) a
Succeeds-if true m n h k = h
Succeeds-if false m n h k = k

module _ {A B : Type 0} where
  Succeeds-continue :
      (f : A → Exec B) (a : A) (b : B) (r : Result A) (w : World) (d : Db)
      → (r ≡ ok a) × (w.db ≡ d)
      → Succeeds (f a) b
      → ((continue r f w).0 ≡ ok b) × ((continue r f w).1.db ≡ d)
  Succeeds-continue f a b r w d (e, same) h =
      subst (λ k. ((continue k f w).0 ≡ ok b) × ((continue k f w).1.db ≡ d)) (sym e)
        ((h.run w).0, (h.run w).1 ∙ same)

  pub Succeeds-bind :
      {a : A} {b : B} (m : Exec A) (f : A → Exec B)
      → Succeeds m a
      → Succeeds (f a) b
      → Succeeds (m >>= f) b
  unfolding ◌>>=◌
  Succeeds-bind {a} {b} m f h k = record {
    run = λ w. Succeeds-continue f a b (m w).0 (m w).1 w.db (h.run w) k;
  }

  settles-continue :
      (R : A → Db → Type 0) (S : A → Db → B → Db → Type 0) (d : Db) (f : A → Exec B) (r : Result A)
      (w : World)
      → ((a : A) → Settles (f a) (S a))
      → Ends r w (λ a w'. (w'.db ≡ d) × R a d) (λ w'. w'.db ≡ d)
      → Ends
          (continue r f w).0
          (continue r f w).1
          (λ b w'. (a : A) × R a d × S a d b w'.db)
          (λ w'. w'.db ≡ d)
  settles-continue R S d f (ok a) w k (same, h) =
      Ends-mono _ _ _ (f a w).0 (f a w).1 (λ b w' p. (a, h, p))
        (subst (λ d. Ends (f a w).0 (f a w).1 (λ b w'. S a d b w'.db) (λ w'. w'.db ≡ d)) same
          ((k a).run w))
  settles-continue R S d f (err x) w k h = h

  pub Settles-read :
      {R : A → Db → Type 0} {S : A → Db → B → Db → Type 0} (m : Exec A) (f : A → Exec B)
      → Reads m R
      → ((a : A) → Settles (f a) (S a))
      → Settles (m >>= f) (λ d b d'. (a : A) × R a d × S a d b d')
  unfolding ◌>>=◌
  Settles-read {R} {S} m f h k = record {
    run = λ w. settles-continue R S w.db f (m w).0 (m w).1 k (h.run w);
  }

  lands-continue :
      (R : A → Db → Db → Type 0) (S : A → Db → B → Db → Type 0) (d₀ d : Db) (f : A → Exec B)
      (r : Result A) (w : World)
      → ((a : A) → Lands (f a) (S a))
      → Ends r w (Changes R d₀ d) (λ w'. w'.db ≡ d₀)
      → Ends
          (continue r f w).0
          (continue r f w).1
          (λ b w'. (a : A) × (d₁ : Db) × R a d d₁ × S a d₁ b w'.db)
          (λ w'. w'.db ≡ d₀)
  lands-continue R S d₀ d f (ok a) w k (same, (d₁, e, h)) =
      Ends-mono _ _ _ (f a w).0 (f a w).1 (λ b w' p. (a, d₁, h, p))
        (subst (λ k. Ends (f a w).0 (f a w).1 (λ b w'. S a d₁ b w'.db) (λ w'. w'.db ≡ k)) same
          ((k a).run w d₁ e))
  lands-continue R S d₀ d f (err x) w k h = h

  pub Lands-bind :
      {R : A → Db → Db → Type 0} {S : A → Db → B → Db → Type 0} (m : Exec A) (f : A → Exec B)
      → Does m R
      → ((a : A) → Lands (f a) (S a))
      → Lands (m >>= f) (λ d b d'. (a : A) × (d₁ : Db) × R a d d₁ × S a d₁ b d')
  unfolding ◌>>=◌
  Lands-bind {R} {S} m f h k = record {
    run = λ w d e. lands-continue R S w.db d f (m w).0 (m w).1 k (h.run w d e);
  }

module _ {B : Type 0} where
  Ends-ok :
      (r : Result B) (b : B) (w : World) (d d₀ : Db)
      → (r ≡ ok b) × (w.db ≡ d)
      → Ends r w (λ c w'. (c ≡ b) × (w'.db ≡ d)) (λ w'. w'.db ≡ d₀)
  Ends-ok (ok c) b w d d₀ (e, same) = (cc, same)
  Ends-ok (err x) b w d d₀ (e, same) = cc

  commit_lands :
      (message : String) (f : Unit {0} → Exec B) (b : B) (tx : Option Db) (d d₀ : Db) (fails : Bool)
      (w : World)
      → tx ≡ some d
      → w.db ≡ d₀
      → Succeeds (f tt) b
      → let (r, w') =
          continue
            (change_error (wrapped message) (commit_copy tx fails w).0)
            f
            (commit_copy tx fails w).1 in
        Ends r w' (λ c w'. (c ≡ b) × (w'.db ≡ d)) (λ w'. w'.db ≡ d₀)
  commit_lands message f b none d d₀ fails w e same h = same
  commit_lands message f b (some c) d d₀ true w e same h = same
  commit_lands message f b (some c) d d₀ false w e same h =
      let w' = record w { db = c; tx = none } in
      let here : c ≡ d = cc in
      Ends-ok (f tt w').0 b (f tt w').1 d d₀ ((h.run w').0, (h.run w').1 ∙ here)

  -- After the commit nothing fails.
  pub Lands-commit :
      {b : B} (message : String) (f : Unit {0} → Exec B)
      → Succeeds (f tt) b
      → Lands (wrapping message commit >>= f) (λ d c d'. (c ≡ b) × (d' ≡ d))
  unfolding ◌>>=◌ wrapping commit
  Lands-commit {b} message f h = record {
    run = λ w d e.
        commit_lands message f b w.tx d w.db (w.env.fails w.at) (record w { at = suc w.at }) e refl
          h;
  }

-- What is known of a result that is looked at
abbrev pub Returned : {A : Type 0} → (A → Db → Type 0) → Result A → Db → Type 0
Returned R (ok a) d = R a d
Returned R (err e) d = Unit

module _ {A : Type 0} where
  returned :
      (R : A → Db → Type 0) (d : Db) (r : Result A) (w : World)
      → Ends r w (λ a w'. (w'.db ≡ d) × R a d) (λ w'. w'.db ≡ d)
      → Returned R r d
  returned R d (ok a) w h = h.1
  returned R d (err e) w h = tt

  pub Reads-attempted :
      {R : A → Db → Type 0} (m : Exec A) → Reads m R → Reads (attempt m) (Returned R)
  unfolding attempt
  Reads-attempted {R} m h = record {
    run = λ w. (Reads-same m h w, returned R w.db (m w).0 (m w).1 (h.run w));
  }

  pub Settles-fail : {R : Db → A → Db → Type 0} (e : Error) → Settles (raise e) R
  unfolding raise
  Settles-fail e = record { run = λ w. refl }

pub Settles-after :
    {A B : Type 0} {R : Db → B → Db → Type 0} (m : Exec A) (f : A → Exec B)
    → IsRead m
    → ((a : A) → Settles (f a) R)
    → Settles (m >>= f) R
Settles-after m f h k = Settles-mono _ (λ d b d' p. p.2) (Settles-read m f h k)
