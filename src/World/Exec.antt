-- ===== src/World/Exec.antt =====
-- A Go function with effects: it returns a value or an error, and what it wrote stays.
use go_event_ticket_reservat.Prelude.{ℕ, suc, String, Bool, Option, none, some, ◌∷◌, if◌then◌else◌}
use go_event_ticket_reservat.Errors.{Error, Result, ok, err, driver, wrapped, text}
use go_event_ticket_reservat.World.Rows.{Db, Command, Metrics, Env, World}

abbrev pub Exec : Type 0 → Type 0
Exec A = World → Result A × World

module _ {A : Type 0} where
  unfoldable pub pure : A → Exec A
  pure a w = (ok a, w)

  unfoldable pub raise : Error → Exec A
  raise e w = (err e, w)

  -- `return f()` for a function without effects
  unfoldable pub lift : Result A → Exec A
  lift r w = (r, w)

  -- `a, err := f()`: the error is looked at before anything returns
  unfoldable pub attempt : Exec A → Exec (Result A)
  attempt m w = let (r, w') = m w in (ok r, w')

  abbrev pub change_error : (Error → Error) → Result A → Result A
  change_error f (ok a) = ok a
  change_error f (err e) = err (f e)

  -- `if err != nil { return f(err) }`
  unfoldable pub map_error : (Error → Error) → Exec A → Exec A
  map_error f m w = let (r, w') = m w in (change_error f r, w')

  -- `if err != nil { return fmt.Errorf(message, err) }`
  unfoldable pub wrapping : String → Exec A → Exec A
  unfolding map_error
  wrapping message = map_error (wrapped message)

  -- `defer d()` before `m`
  unfoldable pub deferred {κ} : {B : Type κ} → Exec A → (World → B × World) → Exec A
  deferred m d w = let (r, w') = m w in (r, (d w').1)

  -- The next answer of the environment.
  unfoldable pub sample : (Env → ℕ → A) → Exec A
  sample f w = (ok (f w.env w.at), record w { at = suc w.at })

module _ {A B : Type 0} where
  abbrev pub continue : Result A → (A → Exec B) → Exec B
  continue (ok a) f w = f a w
  continue (err e) f w = (err e, w)

  infixl 10 ◌>>=◌ ◌>>◌
  unfoldable pub ◌>>=◌ : Exec A → (A → Exec B) → Exec B
  ◌>>=◌ m f w = let (r, w') = m w in continue r f w'

  abbrev pub ◌>>◌ : Exec A → Exec B → Exec B
  m >> n = m >>= λ _. n

unfoldable pub time_now : Exec ℕ
unfolding sample
time_now = sample (λ e n. e.now n)

-- `if !b { return e }`
unfoldable pub require : Bool → Error → Exec (Unit {0})
unfolding pure raise
require b e = if b then pure tt else raise e

-- A statement in SQL: from the new ids, the order of texts, the server's clock and the database to
-- its result and the database after it, or its error.
abbrev pub Statement : Type 0 → Type 0
Statement A = (ℕ → String) → ℕ → Db → Result (A × Db)

-- fmt.Errorf("無効なトランザクション")
abbrev pub invalid_tx : Error
invalid_tx = text "無効なトランザクション"

module _ {A : Type 0} where
  -- A query outside a transaction. The environment gives the order of texts.
  abbrev pub answer : Bool → Result A → Result A
  answer fails r = if fails then err driver else r

  unfoldable pub query : (Env → Db → Result A) → Exec A
  query f w = (answer (w.env.fails w.at) (f w.env w.db), record w { at = suc w.at })

  -- A write outside a transaction commits by itself.
  abbrev pub write_db : Result (A × Db) → World → Result A × World
  write_db (ok (a, d)) w = (ok a, record w { db = d })
  write_db (err e) w = (err e, w)

  unfoldable pub exec_db : Statement A → Exec A
  exec_db f w =
      write_db
        (if w.env.fails w.at then err driver else f (w.env.uuid w.at) (w.env.db_now w.at) w.db)
        (record w { at = suc w.at })

  abbrev pub write_tx : Result (A × Db) → World → Result A × World
  write_tx (ok (a, d)) w = (ok a, record w { tx = some d })
  write_tx (err e) w = (err e, w)

  abbrev pub in_tx : Statement A → Option Db → Exec A
  in_tx f none w = (err invalid_tx, w)
  in_tx f (some d) w =
      write_tx (if w.env.fails w.at then err driver else f (w.env.uuid w.at) (w.env.db_now w.at) d)
        (record w { at = suc w.at })

  -- ExecContext and QueryRowContext on the open transaction.
  unfoldable pub exec_tx : Statement A → Exec A
  exec_tx f w = in_tx f w.tx w

  -- A command to Redis and its reply.
  unfoldable pub send : Command → (Env → ℕ → A) → Exec A
  send c f w = (ok (f w.env w.at), record w { at = suc w.at; sent = c ∷ w.sent })

-- `if m := metrics.Get(); m != nil { ... }`
abbrev map_metrics : (Metrics → Metrics) → Option Metrics → Option Metrics
map_metrics f none = none
map_metrics f (some m) = some (f m)

unfoldable pub count : (Metrics → Metrics) → Exec (Unit {0})
count f w = (ok tt, record w { metrics = map_metrics f w.metrics })
