-- ===== src/Booking/Reserve.antt =====
-- The transaction of CreateReservation keeps the tables consistent.
use go_event_ticket_reservat.Prelude.{
  ℕ, ◌≤◌, String, ◌≡◌, refl, subst, sym, ◌∙◌, inl, inr, true, none, some, List, [], ◌∷◌, ◌++◌,
  arith, eq_iff, length, ◌==◌, ◌||◌, ◌&&◌, Bool-cases, ◌≢◌, if◌then◌else◌,
}
use go_event_ticket_reservat.Prelude.Tables.{find_where, count_where, update_where, contains}
use go_event_ticket_reservat.Prelude.Tables.Laws.{
  map_row, or_row, find-update, find_passes, find-append, count-append, count-update, count_none,
  contains_found,
}
use go_event_ticket_reservat.Domain.Seat
use go_event_ticket_reservat.Domain.Seat.{Seat}
use go_event_ticket_reservat.Domain.Reservation.{Reservation, pending}
use go_event_ticket_reservat.World.Rows.{Db, ReservationRow}
use go_event_ticket_reservat.Postgres.Seats.{has_id, can_reserve, reserved_row}
use go_event_ticket_reservat.Postgres.Reservations.{row_has_id, row_has_key, reservation_row}
use go_event_ticket_reservat.Booking.{
  seat_at, reservation_at, linked, held_status, Held, Consistent,
}

-- What INSERT INTO reservations does, if it succeeds.
pub record Inserted (id : String) (r : Reservation) (d d' : Db) : Type 0 where
  pub new_id : find_where (row_has_id id) d.reservations ≡ none
  pub new_key : find_where (row_has_key r.idempotency_key) d.reservations ≡ none
  pub rows : d'.reservations ≡ d.reservations ++ reservation_row id r ∷ []
  pub seats : d'.seats ≡ d.seats
  pub links : d'.reservation_seats ≡ d.reservation_seats

-- What the inserts into reservation_seats do together.
pub record Linked (id : String) (sids : List String) (d d' : Db) : Type 0 where
  pub rows : d'.reservations ≡ d.reservations
  pub seats : d'.seats ≡ d.seats
  pub links : (r s : String) → linked d' r s ≡ (linked d r s || ((id == r) && contains sids s))

-- What the UPDATE of ReserveSeats does, if as many rows are affected as there are ids.
pub record Reserved (id : String) (sids : List String) (now : ℕ) (d d' : Db) : Type 0 where
  pub full : count_where (can_reserve sids) d.seats ≡ length sids
  pub rows : d'.reservations ≡ d.reservations
  pub seats : d'.seats ≡ update_where (can_reserve sids) (reserved_row id now) d.seats
  pub links : d'.reservation_seats ≡ d.reservation_seats

module _ (id : String) (r : Reservation) (sids : List String) (now : ℕ) (d d₁ d₂ d₃ : Db)
    (c : Consistent d) (i : Inserted id r d d₁) (l : Linked id sids d₁ d₂)
    (u : Reserved id sids now d₂ d₃) where
  pub rows₃ : d₃.reservations ≡ d.reservations ++ reservation_row id r ∷ []
  rows₃ = u.rows ∙ l.rows ∙ i.rows

  seats₂ : d₂.seats ≡ d.seats
  seats₂ = l.seats ∙ i.seats

  pub linked₃ :
      (rid sid : String)
      → linked d₃ rid sid ≡ (linked d rid sid || ((id == rid) && contains sids sid))
  linked₃ rid sid = rw (u.links, ← i.links) (l.links rid sid)

  pub row₃ :
      (rid : String)
      → reservation_at d₃ rid
        ≡ or_row (reservation_at d rid) (if id == rid then some (reservation_row id r) else none)
  row₃ rid = rw rows₃ (find-append (row_has_id rid) d.reservations _)

  seat₃ :
      (sid : String)
      → seat_at d₃ sid
        ≡ map_row (λ s. if can_reserve sids s then reserved_row id now s else s) (seat_at d sid)
  seat₃ sid = rw (u.seats, seats₂) (find-update (has_id sid) _ _ d.seats (λ s. refl))

  full : length sids ≤ count_where (can_reserve sids) d.seats
  full = rw (← seats₂) (omega (arith, u.full))

  taken_row :
      (sid : String) (s : Seat)
      → seat_at d sid ≡ some s
      → Seat.status_beq s.status Seat.available ≡ true
      → contains sids sid ≡ true
      → seat_at d₃ sid ≡ some (reserved_row id now s)
  taken_row sid s at free asked =
      rw (seat₃, at)
        (ground (
          arith,
          subst (λ k. contains sids k ≡ true)
              (sym ((eq_iff s.id sid).0 (find_passes (has_id sid) d.seats s at))) asked,
        ))

  -- The seats of the new reservation were available, and are its own now.
  new-Held : (sid : String) → linked d₃ id sid ≡ true → Held d₃ sid id Seat.reserved
  new-Held sid lk = elim (Bool-cases (linked d id sid)) [
    | inl old ↦ absurd (ground (arith, c.links_known id sid old, i.new_id))
    | inr fresh ↦
        let asked : contains sids sid ≡ true = ground (arith, linked₃ id sid, eq_iff id id) in
        let (s, at, free) =
          contains_found (λ (s : Seat). s.id) (λ s. Seat.status_beq s.status Seat.available) d.seats
            c.seats_unique sids sid full asked in
        (reserved_row id now s, taken_row sid s at free asked, refl, refl)
  ]

  -- The seats of another active reservation were not available, and stay as they are.
  old-Held :
      (rid sid : String) (st : Seat.Status)
      → Held d sid rid st
      → st ≢ Seat.available
      → Held d₃ sid rid st
  old-Held rid sid st (s, at, status, by) ne = (s, ground (arith, seat₃ sid), status, by)

  not_available :
      (r : ReservationRow) (st : Seat.Status) → held_status r.status ≡ some st → st ≢ Seat.available
  not_available r st e = ground arith

  held₃ :
      (rid sid : String) (row : ReservationRow) (st : Seat.Status)
      → r.status ≡ pending
      → linked d₃ rid sid ≡ true
      → reservation_at d₃ rid ≡ some row
      → held_status row.status ≡ some st
      → Held d₃ sid rid st
  held₃ rid sid row st new lk found active = elim (Bool-cases (id == rid)) [
    | inl e ↦
        let same : id ≡ rid = (eq_iff id rid).0 e in
        let fresh : some (reservation_row id r) ≡ some row =
          ground (arith, row₃ rid, i.new_id, same) in
        let status : st ≡ Seat.reserved = ground (arith, fresh, new) in
        subst (λ k. Held d₃ sid k st) same
          (rw status (new-Held sid (subst (λ k. linked d₃ k sid ≡ true) (sym same) lk)))
    | inr e ↦
        old-Held rid sid st
          (c.held rid sid row st (ground (arith, linked₃ rid sid)) (ground (arith, row₃ rid))
            active)
          (not_available row st active)
  ]

  one_key : (k : String) → count_where (row_has_key k) d₃.reservations ≤ 1
  one_key k =
      rw (rows₃, count-append)
        (elim (Bool-cases (r.idempotency_key == k)) [
          | inr e ↦ ground (arith, c.keys_unique k)
          | inl e ↦
              let none_before =
                count_none (row_has_key r.idempotency_key) d.reservations i.new_key in
              ground (
                arith,
                subst (λ j. count_where (row_has_key j) d.reservations ≡ 0)
                    ((eq_iff r.idempotency_key k).0 e) none_before,
              )
        ])

  one_row : (k : String) → count_where (row_has_id k) d₃.reservations ≤ 1
  one_row k =
      rw (rows₃, count-append)
        (elim (Bool-cases (id == k)) [
          | inr e ↦ ground (arith, c.rows_unique k)
          | inl e ↦
              let none_before = count_none (row_has_id id) d.reservations i.new_id in
              ground (
                arith,
                subst (λ j. count_where (row_has_id j) d.reservations ≡ 0) ((eq_iff id k).0 e)
                    none_before,
              )
        ])

  -- From a consistent database, a new pending reservation whose seats were all free leads to a
  -- consistent one.
  pub reserve-Consistent : r.status ≡ pending → Consistent d₃
  reserve-Consistent new = record {
    seats_unique = λ k.
        rw (u.seats, seats₂)
          (omega (
            arith,
            count-update (has_id k) (can_reserve sids) (reserved_row id now) d.seats (λ s. refl),
            c.seats_unique k,
          ));
    rows_unique = one_row;
    keys_unique = one_key;
    links_known = λ rid sid lk. ground (arith, linked₃ rid sid, row₃ rid, c.links_known rid sid);
    held = λ rid sid row st. held₃ rid sid row st new;
  }
