-- ===== src/Application/Cleaner/Swept.antt =====
-- What a round of internal/worker/expired_reservation_cleaner.go leaves of a reservation that it
-- cancels.
use go_event_ticket_reservat.Prelude.{
  ℕ, String, ◌≡◌, refl, sym, subst, ap, ◌∙◌, Bool-cases, inl, inr, true, false, none, some, List,
  [], ◌∷◌, if◌then◌else◌, eq_iff,
}
use go_event_ticket_reservat.Prelude.Tables.{find_where, select_where, contains}
use go_event_ticket_reservat.Prelude.Tables.Laws.{find-update, find_passes}
use go_event_ticket_reservat.Domain.Seat
use go_event_ticket_reservat.Domain.Seat.{Seat}
use go_event_ticket_reservat.Domain.Reservation.{Reservation, cancelled}
use go_event_ticket_reservat.World.Rows.{Db, ReservationRow}
use go_event_ticket_reservat.Postgres.Seats.{has_id, released_row}
use go_event_ticket_reservat.Postgres.Reservations.{
  row_has_id, updated_row, is_old_pending, links_of, to_entity,
}
use go_event_ticket_reservat.Booking.{seat_at, reservation_at}
use go_event_ticket_reservat.Booking.Finish.{Moved}
use go_event_ticket_reservat.Booking.Pending.{entities}
use go_event_ticket_reservat.Application.ReservationService.Ended.{names}

abbrev pub Free : Seat → Type 0
Free s = (s.status ≡ Seat.available) × (s.reserved_by ≡ none)

-- The row with the id is cancelled, and the seats with the ids are there and free.
pub record Swept (d : Db) (id : String) (seat_ids : List String) : Type 0 where
  pub row : ReservationRow
  pub found : reservation_at d id ≡ some row
  pub is_cancelled : row.status ≡ cancelled
  pub seats :
      (sid : String) → contains seat_ids sid ≡ true → (s : Seat) × (seat_at d sid ≡ some s) × Free s

module _ {done : Reservation} {now : ℕ} {d d' : Db} (is : done.status ≡ cancelled)
    (m : Moved done (names done.seat_ids) (released_row now) d d') where
  abbrev next_row : ReservationRow → ReservationRow
  next_row r = if row_has_id done.id r then updated_row done r else r

  row_at :
      (id : String) (row : ReservationRow)
      → reservation_at d id ≡ some row
      → reservation_at d' id ≡ some (next_row row)
  row_at id row e =
      rw
        (
          m.rows,
          find-update (row_has_id id) (row_has_id done.id) (updated_row done) d.reservations
              (λ r. refl),
          e,
        )
        refl

  abbrev next_seat : Seat → Seat
  next_seat s = if names done.seat_ids s then released_row now s else s

  seat_after :
      (sid : String) (s : Seat) → seat_at d sid ≡ some s → seat_at d' sid ≡ some (next_seat s)
  seat_after sid s e =
      rw
        (
          m.seats,
          find-update (has_id sid) (names done.seat_ids) (released_row now) d.seats (λ t. refl),
          e,
        )
        refl

  Free-next : (s : Seat) → (contains done.seat_ids s.id ≡ false → Free s) → Free (next_seat s)
  Free-next s free = elim (Bool-cases (names done.seat_ids s)) [
    | inl h ↦ rw h (refl, refl)
    | inr h ↦ rw h (free h)
  ]

  -- The reservation of this round
  pub Swept-now :
      (row : ReservationRow)
      → reservation_at d done.id ≡ some row
      → ((sid : String) → contains done.seat_ids sid ≡ true → (s : Seat) × (seat_at d sid ≡ some s))
      → Swept d' done.id done.seat_ids
  Swept-now row e there =
      let here = find_passes (row_has_id done.id) d.reservations row e in
      record {
        row = next_row row;
        found = row_at done.id row e;
        is_cancelled = rw here is;
        seats = λ sid named.
            let (s, at) = there sid named in
            let same : s.id ≡ sid = (eq_iff s.id sid).0 (find_passes (has_id sid) d.seats s at) in
            (
              next_seat s,
              seat_after sid s at,
              Free-next s (λ not. absurd (cc (ap (contains done.seat_ids) same, not, named))),
            );
      }

  -- The reservations of the rounds before
  pub Swept-moved :
      (id : String) (seat_ids : List String) → Swept d id seat_ids → Swept d' id seat_ids
  Swept-moved id seat_ids h = record {
    row = next_row h.row;
    found = row_at id h.row h.found;
    is_cancelled = elim (Bool-cases (row_has_id done.id h.row)) [
      | inl e ↦ rw e is
      | inr e ↦ rw e h.is_cancelled
    ];
    seats = λ sid named.
        let (s, at, free) = h.seats sid named in
        (next_seat s, seat_after sid s at, Free-next s (λ _. free));
  }

abbrev pub AllSwept : Db → List Reservation → Type 0
AllSwept d [] = Unit
AllSwept d (r ∷ rs) = Swept d r.id r.seat_ids × AllSwept d rs

-- All that GetExpiredPending has returned are swept: an old pending row is among them.
pub AllSwept-row :
    (cutoff : ℕ) (before d : Db) (xs : List ReservationRow) (id : String) (row : ReservationRow)
    → AllSwept d (entities before (select_where (is_old_pending cutoff) xs))
    → find_where (row_has_id id) xs ≡ some row
    → is_old_pending cutoff row ≡ true
    → Swept d id (links_of id before.reservation_seats)
unfolding to_entity
AllSwept-row cutoff before d [] id row all e old = absurd cc
AllSwept-row cutoff before d (x ∷ xs) id row all e old =
    elim (Bool-cases (is_old_pending cutoff x)) [
      | inl due ↦
          let same : select_where (is_old_pending cutoff) (x ∷ xs)
              ≡ x ∷ select_where (is_old_pending cutoff) xs =
            rw due refl in
          let all' : AllSwept d (entities before (x ∷ select_where (is_old_pending cutoff) xs)) =
            subst (λ k. AllSwept d (entities before k)) same all in
          elim (Bool-cases (row_has_id id x)) [
            | inl here ↦
                subst (λ k. Swept d k (links_of k before.reservation_seats))
                  ((eq_iff x.id id).0 here) all'.0
            | inr other ↦
                let skips : find_where (row_has_id id) (x ∷ xs) ≡ find_where (row_has_id id) xs =
                  rw other refl in
                AllSwept-row cutoff before d xs id row all'.1 (sym skips ∙ e) old
          ]
      | inr late ↦
          let same : select_where (is_old_pending cutoff) (x ∷ xs)
              ≡ select_where (is_old_pending cutoff) xs =
            rw late refl in
          let all' : AllSwept d (entities before (select_where (is_old_pending cutoff) xs)) =
            subst (λ k. AllSwept d (entities before k)) same all in
          elim (Bool-cases (row_has_id id x)) [
            | inl here ↦
                let first : find_where (row_has_id id) (x ∷ xs) ≡ some x = rw here refl in
                let is : x ≡ row = cc (first, e) in absurd (cc (late, old, is))
            | inr other ↦
                let skips : find_where (row_has_id id) (x ∷ xs) ≡ find_where (row_has_id id) xs =
                  rw other refl in
                AllSwept-row cutoff before d xs id row all' (sym skips ∙ e) old
          ]
    ]
