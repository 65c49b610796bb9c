-- ===== src/Postgres/Tx/Rules.antt =====
-- Rules for transactions: what a statement does to the copy, and what is known of the database when
-- the transaction is committed or rolled back.
use go_event_ticket_reservat.Prelude.{
  String, ◌≡◌, refl, sym, subst, Bool, true, false, Option, none, some, ℕ, suc, if◌then◌else◌,
}
use go_event_ticket_reservat.Errors.{Error, Result, ok, err, driver, wrapped}
use go_event_ticket_reservat.World.Rows.{Db, World}
use go_event_ticket_reservat.World.Exec.{
  Exec, Statement, pure, map_error, wrapping, deferred, require, raise, exec_tx, change_error,
  continue, write_tx, in_tx, ◌>>=◌,
}
use go_event_ticket_reservat.World.Logic.{Ends, Keeps}
use go_event_ticket_reservat.Postgres.Tx.{
  begin, begin_copy, commit, commit_copy, rollback, unwrap, unwrap_tx,
}

module _ {A : Type 0} where
  -- The copy is changed as `R` says, and the database is left alone.
  abbrev pub Changes : (A → Db → Db → Type 0) → Db → Db → A → World → Type 0
  Changes R d₀ d a w = (w.db ≡ d₀) × ((d' : Db) × (w.tx ≡ some d') × R a d d')

  -- In a transaction `m` changes the copy as `R` says, or fails.
  pub record Does (m : Exec A) (R : A → Db → Db → Type 0) : Type 0 where
    pub run :
        (w : World) (d : Db)
        → w.tx ≡ some d
        → Ends (m w).0 (m w).1 (Changes R w.db d) (λ w'. w'.db ≡ w.db)

  -- From a copy with `R`, `m` keeps `P` of the database.
  pub record Safe (R P : Db → Type 0) (m : Exec A) : Type 0 where
    pub run : (w : World) (d : Db) → w.tx ≡ some d → R d → P w.db → P (m w).1.db

  pub Does-pure : (a : A) → Does (pure a) (λ b d d'. (b ≡ a) × (d' ≡ d))
  unfolding pure
  Does-pure a = record { run = λ w d e. (refl, (d, e, (refl, refl))) }

  -- What a statement returns, for some new ids and some time
  abbrev pub Runs : Statement A → A → Db → Db → Type 0
  Runs f a d d' = (fresh : ℕ → String) × (now : ℕ) × (f fresh now d ≡ ok (a, d'))

  Ends-write :
      (f : Statement A) (fresh : ℕ → String) (now : ℕ) (d d₀ : Db) (w : World) (fails : Bool)
      (r : Result (A × Db))
      → f fresh now d ≡ r
      → w.db ≡ d₀
      → Ends
          (write_tx (if fails then err driver else r) w).0
          (write_tx (if fails then err driver else r) w).1
          (Changes (Runs f) d₀ d)
          (λ w'. w'.db ≡ d₀)
  Ends-write f fresh now d d₀ w true r e same = same
  Ends-write f fresh now d d₀ w false (ok (a, d')) e same = (same, (d', refl, (fresh, now, e)))
  Ends-write f fresh now d d₀ w false (err x) e same = same

  Ends-in_tx :
      (f : Statement A) (w : World) (d : Db) (tx : Option Db)
      → tx ≡ some d
      → Ends (in_tx f tx w).0 (in_tx f tx w).1 (Changes (Runs f) w.db d) (λ w'. w'.db ≡ w.db)
  Ends-in_tx f w d none e = refl
  Ends-in_tx f w d (some c) e =
      subst
        (λ k.
          Ends (in_tx f (some c) w).0 (in_tx f (some c) w).1 (Changes (Runs f) w.db k)
            (λ w'. w'.db ≡ w.db))
        (some_injective e)
        (Ends-write f (w.env.uuid w.at) (w.env.db_now w.at) c w.db _ (w.env.fails w.at) _ refl refl)
    where
      some_injective : {B : Type 0} {x y : B} → some x ≡ some y → x ≡ y
      some_injective e = cc

  pub Does-exec_tx : (f : Statement A) → Does (exec_tx f) (Runs f)
  unfolding exec_tx
  Does-exec_tx f = record { run = λ w d e. Ends-in_tx f w d w.tx e }

  Ends-change :
      (Q : A → World → Type 0) (E : World → Type 0) (f : Error → Error) (r : Result A) (w : World)
      → Ends r w Q E
      → Ends (change_error f r) w Q E
  Ends-change Q E f (ok a) w h = h
  Ends-change Q E f (err e) w h = h

  pub Does-map_error :
      {R : A → Db → Db → Type 0} (f : Error → Error) (m : Exec A)
      → Does m R
      → Does (map_error f m) R
  unfolding map_error
  Does-map_error f m h = record { run = λ w d e. Ends-change _ _ f (m w).0 (m w).1 (h.run w d e) }

  pub Does-wrapping :
      {R : A → Db → Db → Type 0} (s : String) (m : Exec A) → Does m R → Does (wrapping s m) R
  unfolding wrapping
  Does-wrapping s m h = Does-map_error (wrapped s) m h

  Ends-mono :
      (Q S : A → World → Type 0) (E : World → Type 0) (r : Result A) (w : World)
      → ((a : A) → Q a w → S a w)
      → Ends r w Q E
      → Ends r w S E
  Ends-mono Q S E (ok a) w f h = f a h
  Ends-mono Q S E (err e) w f h = h

  pub Does-mono :
      {R S : A → Db → Db → Type 0} (m : Exec A)
      → ((a : A) (d d' : Db) → R a d d' → S a d d')
      → Does m R
      → Does m S
  Does-mono m f h = record {
    run = λ w d e.
        Ends-mono _ _ _ (m w).0 (m w).1 (λ a p. (p.0, (p.1.0, p.1.1, f a d p.1.0 p.1.2)))
          (h.run w d e);
  }

pub Does-require : (b : Bool) (e : Error) → Does (require b e) (λ a d d'. (b ≡ true) × (d' ≡ d))
unfolding require raise pure
Does-require true x = record { run = λ w d e. (refl, (d, e, (refl, refl))) }
Does-require false x = record { run = λ w d e. refl }

Ends-unwrap :
    (tx : Option Db) (w : World) (d : Db)
    → w.tx ≡ some d
    → Ends (unwrap tx) w (Changes (λ a d d'. d' ≡ d) w.db d) (λ w'. w'.db ≡ w.db)
Ends-unwrap none w d e = refl
Ends-unwrap (some c) w d e = (refl, (d, e, refl))

pub Does-unwrap_tx : Does unwrap_tx (λ a d d'. d' ≡ d)
unfolding unwrap_tx
Does-unwrap_tx = record { run = λ w d e. Ends-unwrap w.tx w d e }

module _ {A B : Type 0} where
  Ends-does :
      (R : A → Db → Db → Type 0) (S : A → Db → B → Db → Db → Type 0) (d₀ d : Db) (f : A → Exec B)
      (r : Result A) (w : World)
      → ((a : A) (d' : Db) → R a d d' → Does (f a) (S a d'))
      → Ends r w (Changes R d₀ d) (λ w'. w'.db ≡ d₀)
      → Ends
          (continue r f w).0
          (continue r f w).1
          (Changes (λ b d d''. (a : A) × (d' : Db) × R a d d' × S a d' b d' d'') d₀ d)
          (λ w'. w'.db ≡ d₀)
  Ends-does R S d₀ d f (ok a) w k (same, (d', e, h)) =
      Ends-mono _ _ _ (f a w).0 (f a w).1 (λ b p. (p.0, (p.1.0, p.1.1, (a, d', h, p.1.2))))
        (subst (λ k. Ends (f a w).0 (f a w).1 (Changes (S a d') k d') (λ w'. w'.db ≡ k)) same
          ((k a d' h).run w d' e))
  Ends-does R S d₀ d f (err x) w k same = same

  pub Does-bind :
      {R : A → Db → Db → Type 0} {S : A → Db → B → Db → Db → Type 0} (m : Exec A) (f : A → Exec B)
      → Does m R
      → ((a : A) (d d' : Db) → R a d d' → Does (f a) (S a d'))
      → Does (m >>= f) (λ b d d''. (a : A) × (d' : Db) × R a d d' × S a d' b d' d'')
  unfolding ◌>>=◌
  Does-bind {R} {S} m f h k = record {
    run = λ w d e. Ends-does R S w.db d f (m w).0 (m w).1 (λ a. k a d) (h.run w d e);
  }

  safe-continue :
      (S : A → Db → Db → Type 0) (P : Db → Type 0) (d₀ d : Db) (f : A → Exec B) (r : Result A)
      (w : World)
      → ((a : A) (d' : Db) → S a d d' → (w : World) → w.tx ≡ some d' → P w.db → P (f a w).1.db)
      → P d₀
      → Ends r w (Changes S d₀ d) (λ w'. w'.db ≡ d₀)
      → P (continue r f w).1.db
  safe-continue S P d₀ d f (ok a) w k p (same, (d', e, h)) = k a d' h w e (subst P (sym same) p)
  safe-continue S P d₀ d f (err x) w k p same = subst P (sym same) p

  -- A statement, and then what is safe after what it does.
  pub Safe-bind :
      {R P : Db → Type 0} {S : A → Db → Db → Type 0} (m : Exec A) (f : A → Exec B)
      → Does m S
      → ((a : A) (d : Db) → R d → Safe (S a d) P (f a))
      → Safe R P (m >>= f)
  unfolding ◌>>=◌
  Safe-bind {P} {S} m f h k = record {
    run = λ w d e r p.
        safe-continue S P w.db d f (m w).0 (m w).1 (λ a d' s w e p. (k a d r).run w d' e s p) p
          (h.run w d e);
  }

pub db-rollback : (w : World) → (rollback w).1.db ≡ w.db
unfolding rollback
db-rollback w = refl

module _ {B : Type 0} (R P : Db → Type 0) where
  commit_continue :
      (message : String) (f : Unit {0} → Exec B) (tx : Option Db) (d : Db) (fails : Bool)
      (w : World)
      → tx ≡ some d
      → P d
      → P w.db
      → ((w : World) → P w.db → P (f tt w).1.db)
      → let (r, w') = commit_copy tx fails w in
        P (continue (change_error (wrapped message) r) f w').1.db
  commit_continue message f none d fails w e pd p k = p
  commit_continue message f (some c) d true w e pd p k = p
  commit_continue message f (some c) d false w e pd p k =
      let same : d ≡ c = cc in k _ (subst P same pd)

  -- Commit puts the copy in the place of the database.
  pub Safe-commit :
      (message : String) (f : Unit {0} → Exec B)
      → ((d : Db) → R d → P d)
      → Keeps (λ d. Unit) P (f tt)
      → Safe R P (wrapping message commit >>= f)
  unfolding ◌>>=◌ wrapping commit
  Safe-commit message f good k = record {
    run = λ w d e r p.
        commit_continue message f w.tx d (w.env.fails w.at) _ e (good d r) p (λ w. k.run w tt);
  }

  begin_continue :
      (message : String) (body : Exec B) (fails : Bool) (w : World)
      → Safe R P body
      → R w.db
      → P w.db
      → let (r, w') = begin_copy fails w in
        P (continue (change_error (wrapped message) r) (λ _. deferred body rollback) w').1.db
  unfolding deferred rollback
  begin_continue message body true w s r p = p
  begin_continue message body false w s r p = s.run _ w.db refl r p

  -- A transaction begins with a copy of the database, and ends with Rollback, which does nothing
  -- after Commit.
  pub Keeps-transaction :
      (message : String) (body : Exec B)
      → Safe R P body
      → Keeps R P (wrapping message begin >>= λ _. deferred body rollback)
  unfolding ◌>>=◌ wrapping begin
  Keeps-transaction message body s = record {
    run =
        λ w r p. begin_continue message body (w.env.fails w.at) (record w { at = suc w.at }) s r p;
  }

-- The same without a message, as in CancelExpiredReservations
module _ (R P : Db → Type 0) where
  commit_last :
      (tx : Option Db) (d : Db) (fails : Bool) (w : World)
      → tx ≡ some d
      → P d
      → P w.db
      → P (commit_copy tx fails w).1.db
  commit_last none d fails w e pd p = p
  commit_last (some c) d true w e pd p = p
  commit_last (some c) d false w e pd p = let same : d ≡ c = cc in subst P same pd

  pub Safe-commit_last : ((d : Db) → R d → P d) → Safe R P commit
  unfolding commit
  Safe-commit_last good = record {
    run = λ w d e r p. commit_last w.tx d (w.env.fails w.at) _ e (good d r) p;
  }

  module _ {B : Type 0} where
    plain_continue :
        (body : Exec B) (fails : Bool) (w : World)
        → Safe R P body
        → R w.db
        → P w.db
        → let (r, w') = begin_copy fails w in P (continue r (λ _. deferred body rollback) w').1.db
    unfolding deferred rollback
    plain_continue body true w s r p = p
    plain_continue body false w s r p = s.run _ w.db refl r p

    pub Keeps-plain_transaction :
        (body : Exec B) → Safe R P body → Keeps R P (begin >>= λ _. deferred body rollback)
    unfolding ◌>>=◌ begin
    Keeps-plain_transaction body s = record {
      run = λ w r p. plain_continue body (w.env.fails w.at) (record w { at = suc w.at }) s r p;
    }
