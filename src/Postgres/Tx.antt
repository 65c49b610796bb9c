-- ===== src/Postgres/Tx.antt =====
-- internal/infrastructure/postgres/transaction.go. An open transaction is a copy of the database,
-- which Commit puts in its place.
pub mod Rules
pub mod Settles
pub mod Plain
pub mod Single
use go_event_ticket_reservat.Prelude.{suc, Bool, true, false, Option, none, some, if◌then◌else◌}
use go_event_ticket_reservat.Errors.{Result, ok, err, driver}
use go_event_ticket_reservat.World.Rows.{Db, World}
use go_event_ticket_reservat.World.Exec.{Exec, invalid_tx}

abbrev begin_copy : Bool → World → Result (Unit {0}) × World
begin_copy true w = (err driver, w)
begin_copy false w = (ok tt, record w { tx = some w.db })

-- TxManager.Begin
unfoldable pub begin : Exec (Unit {0})
begin w = begin_copy (w.env.fails w.at) (record w { at = suc w.at })

abbrev commit_copy : Option Db → Bool → World → Result (Unit {0}) × World
commit_copy none fails w = (err driver, w)
commit_copy (some d) fails w =
    if fails then (err driver, record w { tx = none }) else (ok tt, record w { db = d; tx = none })

-- TxWrapper.Commit; a transaction is done after it, committed or not.
unfoldable pub commit : Exec (Unit {0})
commit w = commit_copy w.tx (w.env.fails w.at) (record w { at = suc w.at })

-- TxWrapper.Rollback; after Commit it does nothing.
unfoldable pub rollback : World → Result (Unit {0}) × World
rollback w = (ok tt, record w { tx = none })

abbrev unwrap : Option Db → Result (Unit {0})
unwrap none = err invalid_tx
unwrap (some d) = ok tt

-- UnwrapTx, and the test of its result
unfoldable pub unwrap_tx : Exec (Unit {0})
unwrap_tx w = (unwrap w.tx, w)
