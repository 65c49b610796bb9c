-- ===== src/Http/Rules.antt =====
-- Rules for handlers: which statuses they answer, and what a refusal leaves of the database.
use go_event_ticket_reservat.Prelude.{
  ℕ, String, ◌≡◌, refl, sym, subst, ◌∙◌, Bool, true, false, Option, none, some, if◌then◌else◌,
  nat_beq, List, [], ◌∷◌,
}
use go_event_ticket_reservat.Errors.{Error, Result, ok, err}
use go_event_ticket_reservat.World.Rows.{Db, World}
use go_event_ticket_reservat.World.Exec.{Exec}
use go_event_ticket_reservat.World.Logic.{Ends}
use go_event_ticket_reservat.Http.{
  HttpError, http_error, other_error, Reply, returned, failed, Handler, done, refuse, call, bind_or,
  to_reply, follow, ◌>>=◌,
}
use go_event_ticket_reservat.Http.Validator.{Packages, Field, validate, to_http_error}

-- A status that a list has
abbrev pub one_of : List ℕ → ℕ → Bool
one_of [] k = false
one_of (c ∷ cs) k = if nat_beq c k then true else one_of cs k

abbrev pub Refused : List ℕ → HttpError → Type 0
Refused codes (http_error code message) = one_of codes code ≡ true
Refused codes (other_error message) = ⊥

module _ {A : Type 0} where
  -- Of a reply: `Q` of what it returns, or `E` of its error
  abbrev pub Says : (A → Type 0) → (HttpError → Type 0) → Reply A → Type 0
  Says Q E (returned a) = Q a
  Says Q E (failed e) = E e

  -- Before the service is called: nothing happens but a refusal.
  pub record Guards (codes : List ℕ) (m : Handler A) : Type 0 where
    pub run : (w : World) → Says (λ a. Unit) (Refused codes) (m w).0 × ((m w).1 ≡ w)

  -- It returns `Q`, or it refuses and the database before and after it are related by `U`.
  pub record Answers (codes : List ℕ) (U : Db → Db → Type 0) (Q : A → Type 0) (m : Handler A)
      : Type 0 where
    pub run : (w : World) → Says Q (λ e. Refused codes e × U w.db (m w).1.db) (m w).0

  pub Guards-done : (codes : List ℕ) (a : A) → Guards codes (done a)
  unfolding done
  Guards-done codes a = record { run = λ w. (tt, refl) }

  pub Guards-bind_or :
      (codes : List ℕ) (o : Option A) (message : String)
      → one_of codes 400 ≡ true
      → Guards codes (bind_or o message)
  unfolding bind_or refuse done
  Guards-bind_or codes none message e = record { run = λ w. (e, refl) }
  Guards-bind_or codes (some a) message e = record { run = λ w. (tt, refl) }

  pub Answers-refuse :
      {codes : List ℕ} {U : Db → Db → Type 0} {Q : A → Type 0} (code : ℕ) (message : String)
      → one_of codes code ≡ true
      → ((d : Db) → U d d)
      → Answers codes U Q (refuse code message)
  unfolding refuse
  Answers-refuse code message e same = record { run = λ w. (e, same w.db) }

  pub Answers-if :
      {codes : List ℕ} {U : Db → Db → Type 0} {Q : A → Type 0} (b : Bool) (m n : Handler A)
      → Answers codes U Q m
      → Answers codes U Q n
      → Answers codes U Q (if b then m else n)
  Answers-if true m n h k = h
  Answers-if false m n h k = k

Guards-error :
    (codes : List ℕ) (o : Option String) → one_of codes 400 ≡ true → Guards codes (to_http_error o)
unfolding refuse done
Guards-error codes none e = record { run = λ w. (tt, refl) }
Guards-error codes (some message) e = record { run = λ w. (e, refl) }

pub Guards-validate :
    (codes : List ℕ) (p : Packages) (fields : List Field)
    → one_of codes 400 ≡ true
    → Guards codes (validate p fields)
unfolding validate
Guards-validate codes p fields e = Guards-error codes (p.validate_struct fields) e

-- What a service's failure leaves
abbrev pub Leaves : (Db → Db → Type 0) → {A : Type 0} → Exec A → Type 0
Leaves U m = (w : World) → Ends (m w).0 (m w).1 (λ a w'. Unit) (λ w'. U w.db w'.db)

module _ {A B : Type 0} (codes : List ℕ) where
  Guards-follow :
      (f : A → Handler B) (r : Reply A) (w w' : World)
      → ((a : A) → Guards codes (f a))
      → Says (λ a. Unit) (Refused codes) r × (w' ≡ w)
      → Says (λ a. Unit) (Refused codes) (follow r f w').0 × ((follow r f w').1 ≡ w)
  Guards-follow f (returned a) w w' k (_, same) = (((k a).run w').0, ((k a).run w').1 ∙ same)
  Guards-follow f (failed e) w w' k h = h

  pub Guards-bind :
      (m : Handler A) (f : A → Handler B)
      → Guards codes m
      → ((a : A) → Guards codes (f a))
      → Guards codes (m >>= f)
  unfolding ◌>>=◌
  Guards-bind m f h k = record { run = λ w. Guards-follow f (m w).0 w (m w).1 k (h.run w) }

  Answers-follow :
      (U : Db → Db → Type 0) (Q : B → Type 0) (f : A → Handler B) (r : Reply A) (w w' : World)
      → ((a : A) → Answers codes U Q (f a))
      → ((d : Db) → U d d)
      → Says (λ a. Unit) (Refused codes) r × (w' ≡ w)
      → Says Q (λ e. Refused codes e × U w.db (follow r f w').1.db) (follow r f w').0
  Answers-follow U Q f (returned a) w w' k same (_, e) =
      subst (λ v. Says Q (λ x. Refused codes x × U v.db (f a w').1.db) (f a w').0) e ((k a).run w')
  Answers-follow U Q f (failed x) w w' k same (h, e) =
      (h, subst (λ v. U w.db v.db) (sym e) (same w.db))

  pub Answers-after :
      {U : Db → Db → Type 0} {Q : B → Type 0} (m : Handler A) (f : A → Handler B)
      → ((d : Db) → U d d)
      → Guards codes m
      → ((a : A) → Answers codes U Q (f a))
      → Answers codes U Q (m >>= f)
  unfolding ◌>>=◌
  Answers-after {U} {Q} m f same h k = record {
    run = λ w. Answers-follow U Q f (m w).0 w (m w).1 k same (h.run w);
  }

  answers_call :
      (U : Db → Db → Type 0) (Q : B → Type 0) (f : Error → HttpError) (g : A → B) (d : Db)
      (r : Result A) (w : World)
      → ((e : Error) → Refused codes (f e))
      → ((a : A) → Q (g a))
      → Ends r w (λ a w'. Unit) (λ w'. U d w'.db)
      → let (q, w') = follow (to_reply f r) (λ a. done (g a)) w in
        Says Q (λ e. Refused codes e × U d w'.db) q
  unfolding done
  answers_call U Q f g d (ok a) w k q h = q a
  answers_call U Q f g d (err e) w k q h = (k e, h)

  pub Answers-call :
      {U : Db → Db → Type 0} {Q : B → Type 0} (m : Exec A) (f : Error → HttpError) (g : A → B)
      → Leaves U m
      → ((e : Error) → Refused codes (f e))
      → ((a : A) → Q (g a))
      → Answers codes U Q (call m f >>= λ a. done (g a))
  unfolding ◌>>=◌ call
  Answers-call {U} {Q} m f g h k q = record {
    run = λ w. answers_call U Q f g w.db (m w).0 (m w).1 k q (h w);
  }
