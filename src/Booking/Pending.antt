-- ===== src/Booking/Pending.antt =====
-- The reservations that GetExpiredPending returns: each is pending, and no two have one id.
use go_event_ticket_reservat.Prelude.{
  ℕ, ◌≤◌, String, ◌≡◌, refl, Bool, true, false, some, List, [], ◌∷◌, arith, eq_iff, ◌==◌,
  if◌then◌else◌,
}
use go_event_ticket_reservat.Prelude.Tables.{find_where, count_where, select_where}
use go_event_ticket_reservat.Prelude.Tables.Laws.{find-update, find_passes}
use go_event_ticket_reservat.Domain.Seat.{Seat}
use go_event_ticket_reservat.Domain.Reservation.{Reservation}
use go_event_ticket_reservat.World.Rows.{Db, ReservationRow}
use go_event_ticket_reservat.Postgres.Reservations.{
  row_has_id, links_of, to_entity, is_old_pending, updated_row,
}
use go_event_ticket_reservat.Booking.{Consistent, reservation_at}
use go_event_ticket_reservat.Booking.Finish.{ReadFrom, Moved}

abbrev pub Ready : Db → Reservation → Type 0
Ready d r = (row : ReservationRow) × ReadFrom d row r

-- No reservation of the list has the id.
abbrev pub Apart : String → List Reservation → Type 0
Apart id [] = Unit
Apart id (r ∷ rs) = ((id == r.id) ≡ false) × Apart id rs

abbrev pub AllReady : Db → List Reservation → Type 0
AllReady d [] = Unit
AllReady d (r ∷ rs) = Ready d r × Apart r.id rs × AllReady d rs

module _ {res : Reservation} {touch : Seat → Bool} {f : Seat → Seat} {d d' : Db}
    (m : Moved res touch f d d') where
  Ready-moved : (r : Reservation) → (res.id == r.id) ≡ false → Ready d r → Ready d' r
  Ready-moved r other (row, from) =
      let here : row.id ≡ r.id =
        (eq_iff row.id r.id).0 (find_passes (row_has_id r.id) d.reservations row from.found) in
      let spared : row_has_id res.id row ≡ false =
        ground (arith, here, eq_iff res.id r.id, eq_iff row.id res.id) in
      (
        row,
        record {
          found =
              rw
                (
                  m.rows,
                  find-update (row_has_id r.id) (row_has_id res.id) (updated_row res) d.reservations
                      (λ r. refl),
                  from.found,
                )
                (ground (arith, spared));
          is_pending = from.is_pending;
          seat_ids = rw m.links from.seat_ids;
        },
      )

  -- The others stay as they were read.
  pub AllReady-moved : (rs : List Reservation) → Apart res.id rs → AllReady d rs → AllReady d' rs
  AllReady-moved [] a h = tt
  AllReady-moved (r ∷ rs) a h = (Ready-moved r a.0 h.0, h.1, AllReady-moved rs a.1 h.2)

-- The rows of a table by their ids
abbrev Others : String → List ReservationRow → Type 0
Others id [] = Unit
Others id (x ∷ xs) = ((id == x.id) ≡ false) × Others id xs

abbrev Distinct : List ReservationRow → Type 0
Distinct [] = Unit
Distinct (x ∷ xs) = Others x.id xs × Distinct xs

abbrev FoundIn : List ReservationRow → List ReservationRow → Type 0
FoundIn whole [] = Unit
FoundIn whole (x ∷ xs) = (find_where (row_has_id x.id) whole ≡ some x) × FoundIn whole xs

Others-of_count :
    (id : String) (xs : List ReservationRow) → count_where (row_has_id id) xs ≤ 0 → Others id xs
Others-of_count id [] h = tt
Others-of_count id (x ∷ xs) h =
    (ground (arith, eq_iff id x.id, eq_iff x.id id), Others-of_count id xs (ground arith))

Distinct-of_unique :
    (xs : List ReservationRow) → ((k : String) → count_where (row_has_id k) xs ≤ 1) → Distinct xs
Distinct-of_unique [] u = tt
Distinct-of_unique (x ∷ xs) u = (
  Others-of_count x.id xs (ground (arith, u x.id, eq_iff x.id x.id)),
  Distinct-of_unique xs (λ k. ground (arith, u k)),
)

found_behind :
    (x : ReservationRow) (whole xs : List ReservationRow)
    → Others x.id xs
    → FoundIn whole xs
    → FoundIn (x ∷ whole) xs
found_behind x whole [] o h = tt
found_behind x whole (y ∷ ys) o h = (ground arith, found_behind x whole ys o.1 h.1)

FoundIn-self : (xs : List ReservationRow) → Distinct xs → FoundIn xs xs
FoundIn-self [] h = tt
FoundIn-self (x ∷ xs) h =
    (ground (arith, eq_iff x.id x.id), found_behind x xs xs h.0 (FoundIn-self xs h.1))

abbrev pub entities : Db → List ReservationRow → List Reservation
entities d [] = []
entities d (row ∷ rows) = to_entity row (links_of row.id d.reservation_seats) ∷ entities d rows

module _ (d : Db) (cutoff : ℕ) where
  rest : List ReservationRow → List ReservationRow
  rest xs = select_where (is_old_pending cutoff) xs

  Apart-if :
      (id : String) (x : ReservationRow) (xs : List ReservationRow) (b : Bool)
      → (id == x.id) ≡ false
      → Apart id (entities d xs)
      → Apart id (entities d (if b then x ∷ xs else xs))
  unfolding to_entity
  Apart-if id x xs true e h = (e, h)
  Apart-if id x xs false e h = h

  Apart-entities :
      (id : String) (xs : List ReservationRow) → Others id xs → Apart id (entities d (rest xs))
  unfolding rest
  Apart-entities id [] o = tt
  Apart-entities id (x ∷ xs) o =
      Apart-if id x (rest xs) (is_old_pending cutoff x) o.0 (Apart-entities id xs o.1)

  Ready-row :
      (x : ReservationRow)
      → reservation_at d x.id ≡ some x
      → is_old_pending cutoff x ≡ true
      → Ready d (to_entity x (links_of x.id d.reservation_seats))
  unfolding to_entity
  Ready-row x found old = (x, record { found = found; is_pending = ground arith; seat_ids = refl })

  ready_if :
      (x : ReservationRow) (xs : List ReservationRow) (b : Bool)
      → is_old_pending cutoff x ≡ b
      → reservation_at d x.id ≡ some x
      → Apart x.id (entities d xs)
      → AllReady d (entities d xs)
      → AllReady d (entities d (if b then x ∷ xs else xs))
  ready_if x xs true e found a h = (Ready-row x found e, unfold to_entity in a, h)
  ready_if x xs false e found a h = h

  ready_entities :
      (xs : List ReservationRow)
      → FoundIn d.reservations xs
      → Distinct xs
      → AllReady d (entities d (rest xs))
  unfolding rest
  ready_entities [] f h = tt
  ready_entities (x ∷ xs) f h =
      ready_if x (rest xs) (is_old_pending cutoff x) refl f.0 (Apart-entities x.id xs h.0)
        (ready_entities xs f.1 h.1)

  -- What GetExpiredPending returns from a consistent database
  pub AllReady-expired :
      Consistent d → AllReady d (entities d (select_where (is_old_pending cutoff) d.reservations))
  unfolding rest
  AllReady-expired c =
      let apart = Distinct-of_unique d.reservations c.rows_unique in
      ready_entities d.reservations (FoundIn-self d.reservations apart) apart
