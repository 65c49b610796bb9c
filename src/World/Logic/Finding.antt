-- ===== src/World/Logic/Finding.antt =====
-- What a function that only reads finds.
use go_event_ticket_reservat.Prelude.{String, ◌≡◌, refl, subst, Bool, true, false, ℕ}
use go_event_ticket_reservat.Errors.{Error, Result, ok, err, wrapped}
use go_event_ticket_reservat.World.Rows.{Db, Command, Metrics, Env, World}
use go_event_ticket_reservat.World.Exec.{
  Exec, pure, raise, lift, attempt, map_error, wrapping, sample, time_now, require, query, send,
  count, change_error, continue, answer, ◌>>=◌,
}

module _ {A : Type 0} where
  abbrev pub Ends : Result A → World → (A → World → Type 0) → (World → Type 0) → Type 0
  Ends (ok a) w Q E = Q a w
  Ends (err e) w Q E = E w

  pub Ends-mono :
      (Q S : A → World → Type 0) (E : World → Type 0) (r : Result A) (w : World)
      → ((a : A) (w : World) → Q a w → S a w)
      → Ends r w Q E
      → Ends r w S E
  Ends-mono Q S E (ok a) w f h = f a w h
  Ends-mono Q S E (err e) w f h = h

  -- `m` does not write: what it returns is `R` of the database.
  pub record Reads (m : Exec A) (R : A → Db → Type 0) : Type 0 where
    pub run :
        (w : World) → Ends (m w).0 (m w).1 (λ a w'. (w'.db ≡ w.db) × R a w.db) (λ w'. w'.db ≡ w.db)

  pub Reads-pure : (a : A) → Reads (pure a) (λ b d. b ≡ a)
  unfolding pure
  Reads-pure a = record { run = λ w. (refl, refl) }

  pub Reads-lift : (r : Result A) → Reads (lift r) (λ a d. r ≡ ok a)
  unfolding lift
  Reads-lift (ok a) = record { run = λ w. (refl, refl) }
  Reads-lift (err e) = record { run = λ w. refl }

  pub Reads-sample : (f : Env → ℕ → A) → Reads (sample f) (λ a d. Unit)
  unfolding sample
  Reads-sample f = record { run = λ w. (refl, tt) }

  pub Reads-send : (c : Command) (f : Env → ℕ → A) → Reads (send c f) (λ a d. Unit)
  unfolding send
  Reads-send c f = record { run = λ w. (refl, tt) }

  pub Reads-raise : (e : Error) → Reads (raise {A = A} e) (λ a d. Unit)
  unfolding raise
  Reads-raise e = record { run = λ w. refl }

  Ends-answer :
      (f : Env → Db → Result A) (v : Env) (d : Db) (w : World) (fails : Bool) (r : Result A)
      → f v d ≡ r
      → w.db ≡ d
      → Ends
          (answer fails r)
          w
          (λ a w'. (w'.db ≡ d) × ((e : Env) × (f e d ≡ ok a)))
          (λ w'. w'.db ≡ d)
  Ends-answer f v d w true r e same = same
  Ends-answer f v d w false (ok a) e same = (same, (v, e))
  Ends-answer f v d w false (err x) e same = same

  pub Reads-query : (f : Env → Db → Result A) → Reads (query f) (λ a d. (e : Env) × (f e d ≡ ok a))
  unfolding query
  Reads-query f = record { run = λ w. Ends-answer f w.env w.db _ (w.env.fails w.at) _ refl refl }

  pub Ends-change :
      (Q : A → World → Type 0) (E : World → Type 0) (f : Error → Error) (r : Result A) (w : World)
      → Ends r w Q E
      → Ends (change_error f r) w Q E
  Ends-change Q E f (ok a) w h = h
  Ends-change Q E f (err e) w h = h

  pub Reads-map_error :
      {R : A → Db → Type 0} (f : Error → Error) (m : Exec A) → Reads m R → Reads (map_error f m) R
  unfolding map_error
  Reads-map_error f m h = record { run = λ w. Ends-change _ _ f (m w).0 (m w).1 (h.run w) }

  pub Reads-wrapping :
      {R : A → Db → Type 0} (s : String) (m : Exec A) → Reads m R → Reads (wrapping s m) R
  unfolding wrapping
  Reads-wrapping s m h = Reads-map_error (wrapped s) m h

  pub Reads-mono :
      {R S : A → Db → Type 0} (m : Exec A)
      → ((a : A) (d : Db) → R a d → S a d)
      → Reads m R
      → Reads m S
  Reads-mono m f h = record {
    run = λ w. Ends-mono _ _ _ (m w).0 (m w).1 (λ a w' p. (p.0, f a w.db p.1)) (h.run w);
  }

  Ends-same :
      (R : A → Db → Type 0) (d : Db) (r : Result A) (w : World)
      → Ends r w (λ a w'. (w'.db ≡ d) × R a d) (λ w'. w'.db ≡ d)
      → w.db ≡ d
  Ends-same R d (ok a) w h = h.0
  Ends-same R d (err e) w h = h

  pub Reads-same : {R : A → Db → Type 0} (m : Exec A) → Reads m R → (w : World) → (m w).1.db ≡ w.db
  Reads-same {R} m h w = Ends-same R w.db (m w).0 (m w).1 (h.run w)

pub Reads-attempt :
    {A : Type 0} {R : A → Db → Type 0} (m : Exec A) → Reads m R → Reads (attempt m) (λ r d. Unit)
unfolding attempt
Reads-attempt m h = record { run = λ w. (Reads-same m h w, tt) }

pub Reads-time_now : Reads time_now (λ a d. Unit)
unfolding time_now
Reads-time_now = Reads-sample _

pub Reads-require : (b : Bool) (e : Error) → Reads (require b e) (λ a d. b ≡ true)
unfolding require raise pure
Reads-require true e = record { run = λ w. (refl, refl) }
Reads-require false e = record { run = λ w. refl }

pub Reads-count : (f : Metrics → Metrics) → Reads (count f) (λ a d. Unit)
unfolding count
Reads-count f = record { run = λ w. (refl, tt) }

module _ {A B : Type 0} where
  Ends-reads :
      (R : A → Db → Type 0) (S : B → Db → Type 0) (d : Db) (f : A → Exec B) (r : Result A)
      (w : World)
      → ((a : A) → R a d → Reads (f a) S)
      → Ends r w (λ a w'. (w'.db ≡ d) × R a d) (λ w'. w'.db ≡ d)
      → Ends (continue r f w).0 (continue r f w).1 (λ b w'. (w'.db ≡ d) × S b d) (λ w'. w'.db ≡ d)
  Ends-reads R S d f (ok a) w k (same, h) =
      subst (λ d. Ends (f a w).0 (f a w).1 (λ b w'. (w'.db ≡ d) × S b d) (λ w'. w'.db ≡ d)) same
        ((k a h).run w)
  Ends-reads R S d f (err e) w k h = h

  pub Reads-bind :
      {R : A → Db → Type 0} {S : B → Db → Type 0} (m : Exec A) (f : A → Exec B)
      → Reads m R
      → ((a : A) (d : Db) → R a d → Reads (f a) S)
      → Reads (m >>= f) S
  unfolding ◌>>=◌
  Reads-bind {R} {S} m f h k = record {
    run = λ w. Ends-reads R S w.db f (m w).0 (m w).1 (λ a. k a w.db) (h.run w);
  }

  Ends-then :
      (R : A → Db → Type 0) (S : A → B → Db → Type 0) (d : Db) (f : A → Exec B) (r : Result A)
      (w : World)
      → ((a : A) → Reads (f a) (S a))
      → Ends r w (λ a w'. (w'.db ≡ d) × R a d) (λ w'. w'.db ≡ d)
      → Ends
          (continue r f w).0
          (continue r f w).1
          (λ b w'. (w'.db ≡ d) × ((a : A) × R a d × S a b d))
          (λ w'. w'.db ≡ d)
  Ends-then R S d f (ok a) w k (same, h) =
      Ends-mono _ _ _ (f a w).0 (f a w).1 (λ b w' p. (p.0, (a, h, p.1)))
        (subst (λ d. Ends (f a w).0 (f a w).1 (λ b w'. (w'.db ≡ d) × S a b d) (λ w'. w'.db ≡ d))
          same ((k a).run w))
  Ends-then R S d f (err e) w k h = h

  -- Two reads, with what is known of both results
  pub Reads-then :
      {R : A → Db → Type 0} {S : A → B → Db → Type 0} (m : Exec A) (f : A → Exec B)
      → Reads m R
      → ((a : A) → Reads (f a) (S a))
      → Reads (m >>= f) (λ b d. (a : A) × R a d × S a b d)
  unfolding ◌>>=◌
  Reads-then {R} {S} m f h k = record {
    run = λ w. Ends-then R S w.db f (m w).0 (m w).1 k (h.run w);
  }
