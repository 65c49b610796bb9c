-- ===== src/World/Logic/Keeping.antt =====
-- Which properties of the database a function keeps.
use go_event_ticket_reservat.Prelude.{
  String, ◌≡◌, refl, sym, subst, Bool, true, false, ℕ, if◌then◌else◌,
}
use go_event_ticket_reservat.Errors.{Error, Result, ok, err, driver, wrapped}
use go_event_ticket_reservat.World.Rows.{Db, Env, World}
use go_event_ticket_reservat.World.Exec.{
  Exec, Statement, exec_db, write_db, attempt, map_error, wrapping, deferred, continue, ◌>>=◌,
}
use go_event_ticket_reservat.World.Logic.Finding.{Ends, Reads, Reads-same}

module _ {A : Type 0} where
  -- From a database with `R`, `m` keeps `P`.
  pub record Keeps (R P : Db → Type 0) (m : Exec A) : Type 0 where
    pub run : (w : World) → R w.db → P w.db → P (m w).1.db

  -- A read keeps everything.
  pub Keeps-Reads : {S : A → Db → Type 0} (R P : Db → Type 0) (m : Exec A) → Reads m S → Keeps R P m
  Keeps-Reads R P m h = record { run = λ w r p. subst P (sym (Reads-same m h w)) p }

  -- What is kept may be used.
  pub Keeps-own : {R P : Db → Type 0} (m : Exec A) → Keeps (λ d. R d × P d) P m → Keeps R P m
  Keeps-own m h = record { run = λ w r p. h.run w (r, p) p }

  pub Keeps-weaken :
      {R S P : Db → Type 0} (m : Exec A) → ((d : Db) → S d → R d) → Keeps R P m → Keeps S P m
  Keeps-weaken m f h = record { run = λ w s p. h.run w (f w.db s) p }

  keeps-write :
      (P : Db → Type 0) (f : Statement A) (v : Env) (n : ℕ) (d : Db) (w : World) (fails : Bool)
      (r : Result (A × Db))
      → f (v.uuid n) (v.db_now n) d ≡ r
      → ((fresh : ℕ → String) (now : ℕ) (d' : Db) (a : A) → f fresh now d ≡ ok (a, d') → P d')
      → P w.db
      → P (write_db (if fails then err driver else r) w).1.db
  keeps-write P f v n d w true r e k p = p
  keeps-write P f v n d w false (ok (a, d')) e k p = k _ _ d' a e
  keeps-write P f v n d w false (err x) e k p = p

  -- A statement outside a transaction
  pub Keeps-exec_db :
      {R P : Db → Type 0} (f : Statement A)
      → ((fresh : ℕ → String) (now : ℕ) (d d' : Db) (a : A)
          → P d
          → f fresh now d ≡ ok (a, d')
          → P d')
      → Keeps R P (exec_db f)
  unfolding exec_db
  Keeps-exec_db {P} f k = record {
    run = λ w r p.
        keeps-write P f w.env w.at w.db _ (w.env.fails w.at) _ refl
          (λ fresh now d' a. k fresh now w.db d' a p) p;
  }

  pub Keeps-map_error :
      {R P : Db → Type 0} (f : Error → Error) (m : Exec A) → Keeps R P m → Keeps R P (map_error f m)
  unfolding map_error
  Keeps-map_error f m h = record { run = h.run }

  pub Keeps-wrapping :
      {R P : Db → Type 0} (s : String) (m : Exec A) → Keeps R P m → Keeps R P (wrapping s m)
  unfolding wrapping
  Keeps-wrapping s m h = Keeps-map_error (wrapped s) m h

  pub Keeps-deferred :
      {B : Type 0} {R P : Db → Type 0} (m : Exec A) (n : World → B × World)
      → Keeps R P m
      → ((w : World) → (n w).1.db ≡ w.db)
      → Keeps R P (deferred m n)
  unfolding deferred
  Keeps-deferred {P} m n h k = record { run = λ w r p. subst P (sym (k (m w).1)) (h.run w r p) }

  pub Keeps-if :
      {R P : Db → Type 0} (b : Bool) (m n : Exec A)
      → Keeps R P m
      → Keeps R P n
      → Keeps R P (if b then m else n)
  Keeps-if true m n h k = h
  Keeps-if false m n h k = k

pub Keeps-attempt :
    {A : Type 0} {R P : Db → Type 0} (m : Exec A) → Keeps R P m → Keeps R P (attempt m)
unfolding attempt
Keeps-attempt m h = record { run = h.run }

module _ {A B : Type 0} where
  Ends-keeps :
      (S : A → Db → Type 0) (P : Db → Type 0) (d : Db) (f : A → Exec B) (r : Result A) (w : World)
      → ((a : A) (w : World) → w.db ≡ d → S a d → P w.db → P (f a w).1.db)
      → P d
      → Ends r w (λ a w'. (w'.db ≡ d) × S a d) (λ w'. w'.db ≡ d)
      → P (continue r f w).1.db
  Ends-keeps S P d f (ok a) w k p (same, h) = k a w same h (subst P (sym same) p)
  Ends-keeps S P d f (err e) w k p same = subst P (sym same) p

  -- After a read, its result may be used.
  pub Keeps-read :
      {R P : Db → Type 0} {S : A → Db → Type 0} (m : Exec A) (f : A → Exec B)
      → Reads m S
      → ((a : A) → Keeps (λ d. R d × S a d) P (f a))
      → Keeps R P (m >>= f)
  unfolding ◌>>=◌
  Keeps-read {R} {P} {S} m f h k = record {
    run = λ w r p.
        Ends-keeps S P w.db f (m w).0 (m w).1
          (λ a w' same s q. (k a).run w' (subst R (sym same) r, subst (S a) (sym same) s) q) p
          (h.run w);
  }

  keeps-continue :
      (P : Db → Type 0) (f : A → Exec B) (r : Result A) (w : World)
      → ((a : A) (w : World) → P w.db → P (f a w).1.db)
      → P w.db
      → P (continue r f w).1.db
  keeps-continue P f (ok a) w k p = k a w p
  keeps-continue P f (err e) w k p = p

  pub Keeps-bind :
      {R P : Db → Type 0} (m : Exec A) (f : A → Exec B)
      → Keeps R P m
      → ((a : A) → Keeps (λ d. Unit) P (f a))
      → Keeps R P (m >>= f)
  unfolding ◌>>=◌
  Keeps-bind {P} m f h k = record {
    run = λ w r p. keeps-continue P f (m w).0 (m w).1 (λ a w. (k a).run w tt) (h.run w r p);
  }
