-- ===== src/Postgres/Events/Version.antt =====
-- The optimistic lock of Update, and what Create keeps, in
-- internal/infrastructure/postgres/event_repository.go.
use go_event_ticket_reservat.Prelude.{
  nat_beq, Bool-cases, inl, inr, ℕ, suc, ◌≡◌, refl, String, List, [], ◌∷◌, Bool, arith, eq_iff,
}
use go_event_ticket_reservat.Prelude.Tables.{count_where, update_where}
use go_event_ticket_reservat.Errors.{Error, ok, err, event, event_not_found, wrapped, driver}
use go_event_ticket_reservat.Domain.Event.{Event}
use go_event_ticket_reservat.World.Rows.{World, EventRow}
use go_event_ticket_reservat.World.Exec.{
  ◌>>=◌, wrapping, map_error, exec_db, require, pure, raise, time_now, sample,
}
use go_event_ticket_reservat.Postgres.Timestamp.{timestamp}
use go_event_ticket_reservat.Postgres.Events.{
  text_or_empty, null_if_empty, event_row, is_version, updated_event, to_entity, update,
}

text-null : (s : String) → text_or_empty (null_if_empty s) ≡ s
text-null s = ground (arith, eq_iff s "")

-- An event as it is read after it was written: the columns round its times.
abbrev pub rounded : Event → Event
rounded e = record e {
  start_at = timestamp e.start_at;
  end_at = timestamp e.end_at;
  created_at = timestamp e.created_at;
  updated_at = timestamp e.updated_at;
}

-- Writing an event as a row and reading it again gives it the row's id.
pub to_entity-event_row :
    (id : String) (e : Event) → to_entity (event_row id e) ≡ rounded (record e { id = id })
unfolding to_entity
to_entity-event_row id e = rw (text-null e.description, text-null e.venue) refl

stale_rows :
    (e late : Event) (now : ℕ) (rs : List EventRow)
    → late.id ≡ e.id
    → late.version ≡ e.version
    → count_where (is_version late) (update_where (is_version e) (updated_event e now) rs) ≡ 0
stale_rows e late now [] i v = refl
stale_rows e late now (r ∷ rs) i v =
    ground (arith, stale_rows e late now rs i v, eq_iff r.id e.id, eq_iff r.id late.id)

pub update_none :
    {A : Type 0} (p : A → Bool) (f : A → A) (xs : List A)
    → count_where p xs ≡ 0
    → update_where p f xs ≡ xs
update_none p f [] e = refl
update_none p f (x ∷ xs) e = ground (arith, update_none p f xs)

-- What an Update that succeeds does
update_lem :
    (e done : Event) (w : World)
    → (update e w).0 ≡ ok done
    → (update e w).1.db ≡ record w.db {
      events = update_where (is_version e) (updated_event e (w.env.now w.at)) w.db.events;
    }
unfolding update ◌>>=◌ wrapping map_error exec_db require pure raise time_now sample
update_lem e done w ran = elim (Bool-cases (w.env.fails (suc w.at))) [
  | inl f ↦ let no : (update e w).0 ≡ err (wrapped "イベント更新に失敗しました" driver) = rw f refl in absurd cc
  | inr f ↦ elim (Bool-cases (nat_beq (count_where (is_version e) w.db.events) 0)) [
    | inl z ↦ let no : (update e w).0 ≡ err (event event_not_found) = rw (f, z) refl in absurd cc
    | inr z ↦ rw (f, z) refl
  ]
]

-- An Update that no row has the version of
late_lem :
    (late : Event) (w : World)
    → count_where (is_version late) w.db.events ≡ 0
    → ((x : Error) × ((update late w).0 ≡ err x)) × ((update late w).1.db ≡ w.db)
unfolding update ◌>>=◌ wrapping map_error exec_db require pure raise time_now sample
late_lem late w none_left = elim (Bool-cases (w.env.fails (suc w.at))) [
  | inl f ↦ ((wrapped "イベント更新に失敗しました" driver, rw f refl), rw f refl)
  | inr f ↦ (
    (event event_not_found, rw (f, none_left) refl),
    rw (f, none_left, update_none _ _ w.db.events none_left) refl,
  )
]

-- Of two Updates of the same event that start from the same version, the second fails and changes
-- nothing if the first succeeds.
pub update-Once :
    (e late done : Event) (w : World)
    → late.id ≡ e.id
    → late.version ≡ e.version
    → (update e w).0 ≡ ok done
    → ((x : Error) × ((update late (update e w).1).0 ≡ err x))
      × ((update late (update e w).1).1.db ≡ (update e w).1.db)
update-Once e late done w i v ran =
    late_lem late (update e w).1
      (rw (update_lem e done w ran) (stale_rows e late (w.env.now w.at) w.db.events i v))
