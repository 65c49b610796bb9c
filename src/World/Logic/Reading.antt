-- ===== src/World/Logic/Reading.antt =====
-- Functions that do not write.
use go_event_ticket_reservat.Prelude.{String, Bool, true, false, if◌then◌else◌}
use go_event_ticket_reservat.Errors.{Error, Result}
use go_event_ticket_reservat.World.Rows.{Db, Env}
use go_event_ticket_reservat.World.Exec.{
  Exec, pure, lift, attempt, map_error, wrapping, require, query, ◌>>=◌,
}
use go_event_ticket_reservat.World.Logic.Finding.{
  Reads, Reads-pure, Reads-lift, Reads-sample, Reads-send, Reads-raise, Reads-query,
  Reads-map_error, Reads-wrapping, Reads-mono, Reads-same, Reads-attempt, Reads-time_now,
  Reads-require, Reads-count, Reads-bind, Reads-then,
}

-- A function that does not write
abbrev pub IsRead : {A : Type 0} → Exec A → Type 0
IsRead m = Reads m (λ a d. Unit)

module _ {A : Type 0} where
  pub IsRead-Reads : {R : A → Db → Type 0} (m : Exec A) → Reads m R → IsRead m
  IsRead-Reads m h = Reads-mono m (λ a d r. tt) h

  pub IsRead-pure : (a : A) → IsRead (pure a)
  IsRead-pure a = IsRead-Reads (pure a) (Reads-pure a)

  pub IsRead-lift : (r : Result A) → IsRead (lift r)
  IsRead-lift r = IsRead-Reads (lift r) (Reads-lift r)

  pub IsRead-query : (f : Env → Db → Result A) → IsRead (query f)
  IsRead-query f = IsRead-Reads (query f) (Reads-query f)

  pub IsRead-map_error : (f : Error → Error) (m : Exec A) → IsRead m → IsRead (map_error f m)
  IsRead-map_error f m h = Reads-map_error f m h

  pub IsRead-wrapping : (s : String) (m : Exec A) → IsRead m → IsRead (wrapping s m)
  IsRead-wrapping s m h = Reads-wrapping s m h

  pub IsRead-if : (b : Bool) (m n : Exec A) → IsRead m → IsRead n → IsRead (if b then m else n)
  IsRead-if true m n h k = h
  IsRead-if false m n h k = k

pub IsRead-attempt : {A : Type 0} (m : Exec A) → IsRead m → IsRead (attempt m)
IsRead-attempt m h = Reads-attempt m h

pub IsRead-require : (b : Bool) (e : Error) → IsRead (require b e)
IsRead-require b e = IsRead-Reads (require b e) (Reads-require b e)

pub IsRead-bind :
    {A B : Type 0} (m : Exec A) (f : A → Exec B)
    → IsRead m
    → ((a : A) → IsRead (f a))
    → IsRead (m >>= f)
IsRead-bind m f h k = Reads-bind m f h (λ a d r. k a)

pub ruleset read_rules = (
  IsRead-pure, IsRead-lift, Reads-raise, Reads-sample, Reads-send, IsRead-query, IsRead-map_error,
  IsRead-wrapping, IsRead-if, IsRead-attempt, IsRead-require, IsRead-bind, Reads-time_now,
  Reads-count,
)
