-- ===== src/Postgres/Tx/Plain.antt =====
-- A transaction whose errors are not wrapped and that ends with its commit, as in
-- CancelExpiredReservations.
use go_event_ticket_reservat.Prelude.{◌≡◌, refl, subst, Bool, true, false, Option, none, some, suc}
use go_event_ticket_reservat.World.Rows.{Db, World}
use go_event_ticket_reservat.World.Exec.{Exec, deferred, continue, ◌>>=◌}
use go_event_ticket_reservat.World.Logic.{Ends}
use go_event_ticket_reservat.Postgres.Tx.{begin, begin_copy, commit, commit_copy, rollback}
use go_event_ticket_reservat.Postgres.Tx.Settles.{Settles, Lands, settles-deferred}

commit_lands :
    (tx : Option Db) (d d₀ : Db) (fails : Bool) (w : World)
    → tx ≡ some d
    → w.db ≡ d₀
    → Ends
        (commit_copy tx fails w).0
        (commit_copy tx fails w).1
        (λ c w'. w'.db ≡ d)
        (λ w'. w'.db ≡ d₀)
commit_lands none d d₀ fails w e same = same
commit_lands (some c) d d₀ true w e same = same
commit_lands (some c) d d₀ false w e same = let here : c ≡ d = cc in here

pub Lands-commit_last : Lands commit (λ d _ d'. d' ≡ d)
unfolding commit
Lands-commit_last = record {
  run = λ w d e. commit_lands w.tx d w.db (w.env.fails w.at) (record w { at = suc w.at }) e refl;
}

module _ {A : Type 0} where
  plain_lands :
      (R : Db → A → Db → Type 0) (body : Exec A) (d : Db) (fails : Bool) (w : World)
      → Lands body R
      → w.db ≡ d
      → let (r, w') =
          continue (begin_copy fails w).0 (λ _. deferred body rollback) (begin_copy fails w).1 in
        Ends r w' (λ a w'. R d a w'.db) (λ w'. w'.db ≡ d)
  unfolding deferred rollback
  plain_lands R body d true w h same = same
  plain_lands R body d false w h same =
      let c = record w { tx = some w.db } in
      subst
        (λ k.
          Ends (deferred body rollback c).0 (deferred body rollback c).1 (λ a w'. R k a w'.db)
            (λ w'. w'.db ≡ k))
        same
        (settles-deferred R w.db (body c).0 (body c).1 (rollback (body c).1).1 refl
          (h.run c w.db refl))

  pub Settles-plain_transaction :
      {R : Db → A → Db → Type 0} (body : Exec A)
      → Lands body R
      → Settles (begin >>= λ _. deferred body rollback) R
  unfolding ◌>>=◌ begin
  Settles-plain_transaction {R} body h = record {
    run = λ w. plain_lands R body w.db (w.env.fails w.at) (record w { at = suc w.at }) h refl;
  }
