-- ===== src/Postgres/Tx/Single.antt =====
-- Rules for functions of internal/infrastructure/postgres that write by one statement outside any
-- transaction.
use go_event_ticket_reservat.Prelude.{
  String, ◌≡◌, refl, sym, subst, ◌∙◌, Bool, true, false, ℕ, if◌then◌else◌, suc,
}
use go_event_ticket_reservat.Errors.{Error, Result, ok, err, driver, wrapped}
use go_event_ticket_reservat.World.Rows.{Db, World}
use go_event_ticket_reservat.World.Exec.{
  Exec, Statement, exec_db, write_db, pure, raise, map_error, wrapping, require, change_error,
  continue, ◌>>=◌, ◌>>◌,
}
use go_event_ticket_reservat.World.Logic.{Ends, Ends-mono, IsRead, Reads-same}
use go_event_ticket_reservat.Postgres.Tx.Settles.{Settles, Settles-mono, Succeeds}

-- It fails and leaves the database as it was, or it succeeds.
abbrev pub AllOrNothing : {A : Type 0} → Exec A → Type 0
AllOrNothing m = Settles m (λ d a d'. Unit)

-- What a statement that succeeds has done
abbrev pub Wrote : {A : Type 0} → Statement A → Db → A → Db → Type 0
Wrote f d a d' = (fresh : ℕ → String) × (now : ℕ) × (f fresh now d ≡ ok (a, d'))

module _ {A : Type 0} where
  settles-write :
      (f : Statement A) (fresh : ℕ → String) (now : ℕ) (d : Db) (fails : Bool) (r : Result (A × Db))
      (w : World)
      → f fresh now d ≡ r
      → w.db ≡ d
      → let (q, w') = write_db (if fails then err driver else r) w in
        Ends q w' (λ a w'. Wrote f d a w'.db) (λ w'. w'.db ≡ d)
  settles-write f fresh now d true r w e same = same
  settles-write f fresh now d false (ok (a, d')) w e same = (fresh, now, e)
  settles-write f fresh now d false (err x) w e same = same

  pub Settles-exec_db : (f : Statement A) → Settles (exec_db f) (Wrote f)
  unfolding exec_db
  Settles-exec_db f = record {
    run = λ w.
        settles-write f (w.env.uuid w.at) (w.env.db_now w.at) w.db (w.env.fails w.at) _
          (record w { at = suc w.at }) refl refl;
  }

  settles-change :
      (Q : A → World → Type 0) (E : World → Type 0) (f : Error → Error) (r : Result A) (w : World)
      → Ends r w Q E
      → Ends (change_error f r) w Q E
  settles-change Q E f (ok a) w h = h
  settles-change Q E f (err x) w h = h

  pub Settles-wrapping :
      {R : Db → A → Db → Type 0} (s : String) (m : Exec A) → Settles m R → Settles (wrapping s m) R
  unfolding wrapping map_error
  Settles-wrapping s m h = record {
    run = λ w. settles-change _ _ (wrapped s) (m w).0 (m w).1 (h.run w);
  }

  all_or_nothing :
      (d : Db) (r : Result A) (w : World) → w.db ≡ d → Ends r w (λ a w'. Unit) (λ w'. w'.db ≡ d)
  all_or_nothing d (ok a) w e = tt
  all_or_nothing d (err x) w e = e

  pub AllOrNothing-IsRead : (m : Exec A) → IsRead m → AllOrNothing m
  AllOrNothing-IsRead m h = record {
    run = λ w. all_or_nothing w.db (m w).0 (m w).1 (Reads-same m h w);
  }

  pub AllOrNothing-Ends :
      (m : Exec A) (Q : World → A → World → Type 0)
      → ((w : World) → Ends (m w).0 (m w).1 (Q w) (λ w'. w'.db ≡ w.db))
      → AllOrNothing m
  AllOrNothing-Ends m Q h = record {
    run = λ w. Ends-mono _ _ _ (m w).0 (m w).1 (λ a w' q. tt) (h w);
  }

  pub AllOrNothing-Settles : {R : Db → A → Db → Type 0} (m : Exec A) → Settles m R → AllOrNothing m
  AllOrNothing-Settles m h = Settles-mono m (λ d a d' r. tt) h

module _ {B : Type 0} where
  returns_after :
      (S : B → World → Type 0) (f : Exec B) (b : B) (w : World) (d d' : Db)
      → w.db ≡ d'
      → Succeeds f b
      → ((w' : World) → w'.db ≡ d' → S b w')
      → Ends (f w).0 (f w).1 S (λ w'. w'.db ≡ d)
  returns_after S f b w d d' same h k =
      subst (λ r. Ends r (f w).1 S (λ w'. w'.db ≡ d)) (sym (h.run w).0)
        (k (f w).1 ((h.run w).1 ∙ same))

module _ {A B : Type 0} where
  settles-then :
      (R : Db → A → Db → Type 0) (d : Db) (f : A → Exec B) (g : A → B) (r : Result A) (w : World)
      → ((a : A) → Succeeds (f a) (g a))
      → Ends r w (λ a w'. R d a w'.db) (λ w'. w'.db ≡ d)
      → Ends
          (continue r f w).0
          (continue r f w).1
          (λ b w'. (a : A) × R d a w'.db × (b ≡ g a))
          (λ w'. w'.db ≡ d)
  settles-then R d f g (ok a) w k h =
      returns_after (λ b w'. (a : A) × R d a w'.db × (b ≡ g a)) (f a) (g a) w d w.db refl (k a)
        (λ w' e. (a, subst (R d a) (sym e) h, refl))
  settles-then R d f g (err x) w k h = h

  -- What follows does not fail and does not write.
  pub Settles-then :
      {R : Db → A → Db → Type 0} (m : Exec A) (f : A → Exec B) (g : A → B)
      → Settles m R
      → ((a : A) → Succeeds (f a) (g a))
      → Settles (m >>= f) (λ d b d'. (a : A) × R d a d' × (b ≡ g a))
  unfolding ◌>>=◌
  Settles-then {R} m f g h k = record {
    run = λ w. settles-then R w.db f g (m w).0 (m w).1 k (h.run w);
  }

  -- One row at least must be affected, and where none is, nothing changes.
  settles-checked :
      (R : Db → A → Db → Type 0) (d : Db) (test : A → Bool) (e : Error) (m : Exec B) (b : B)
      (r : Result A) (w : World)
      → ((a : A) (d' : Db) → R d a d' → test a ≡ false → d' ≡ d)
      → Succeeds m b
      → Ends r w (λ a w'. R d a w'.db) (λ w'. w'.db ≡ d)
      → Ends
          (continue r (λ a. require (test a) e >> m) w).0
          (continue r (λ a. require (test a) e >> m) w).1
          (λ b w'. Unit)
          (λ w'. w'.db ≡ d)
  unfolding require ◌>>=◌ pure raise
  settles-checked R d test e m b (ok a) w k h q = checked (test a) refl
    where
      checked :
          (t : Bool)
          → test a ≡ t
          → Ends ((require t e >> m) w).0 ((require t e >> m) w).1 (λ b w'. Unit) (λ w'. w'.db ≡ d)
      checked true i = returns_after (λ b w'. Unit) m b w d w.db refl h (λ w' e. tt)
      checked false i = k a w.db q i
  settles-checked R d test e m b (err x) w k h q = q

  pub AllOrNothing-checked :
      {R : Db → A → Db → Type 0} (m : Exec A) (test : A → Bool) (e : Error) (n : Exec B) (b : B)
      → Settles m R
      → ((a : A) (d d' : Db) → R d a d' → test a ≡ false → d' ≡ d)
      → Succeeds n b
      → AllOrNothing (m >>= λ a. require (test a) e >> n)
  unfolding ◌>>=◌
  AllOrNothing-checked {R} m test e n b h k s = record {
    run = λ w. settles-checked R w.db test e n b (m w).0 (m w).1 (λ a. k a w.db) s (h.run w);
  }

module _ {A : Type 0} where
  settles-required :
      (R : Db → A → Db → Type 0) (d : Db) (test : A → Bool) (e : Error) (r : Result A) (w : World)
      → ((a : A) (d' : Db) → R d a d' → test a ≡ false → d' ≡ d)
      → Ends r w (λ a w'. R d a w'.db) (λ w'. w'.db ≡ d)
      → Ends
          (continue r (λ a. require (test a) e) w).0
          (continue r (λ a. require (test a) e) w).1
          (λ b w'. Unit)
          (λ w'. w'.db ≡ d)
  unfolding require pure raise
  settles-required R d test e (ok a) w k q = checked (test a) refl
    where
      checked :
          (t : Bool)
          → test a ≡ t
          → Ends (require t e w).0 (require t e w).1 (λ b w'. Unit) (λ w'. w'.db ≡ d)
      checked true i = tt
      checked false i = k a w.db q i
  settles-required R d test e (err x) w k q = q

  pub AllOrNothing-required :
      {R : Db → A → Db → Type 0} (m : Exec A) (test : A → Bool) (e : Error)
      → Settles m R
      → ((a : A) (d d' : Db) → R d a d' → test a ≡ false → d' ≡ d)
      → AllOrNothing (m >>= λ a. require (test a) e)
  unfolding ◌>>=◌
  AllOrNothing-required {R} m test e h k = record {
    run = λ w. settles-required R w.db test e (m w).0 (m w).1 (λ a. k a w.db) (h.run w);
  }
