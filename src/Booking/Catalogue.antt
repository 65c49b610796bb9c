-- ===== src/Booking/Catalogue.antt =====
-- The statements on events and seats outside a transaction keep the booking tables consistent.
use go_event_ticket_reservat.Prelude.{
  ℕ, suc, ◌≤◌, String, ◌≡◌, refl, subst, true, not, none, some, List, [], ◌∷◌, ◌++◌, inl, inr,
  arith, eq_iff, ◌==◌, Bool-cases, is_some,
}
use go_event_ticket_reservat.Prelude.Tables.{find_where, count_where, select_where}
use go_event_ticket_reservat.Prelude.Tables.Laws.{
  find-append, find-select, count-append, count_none, count-select-le, select_passes, find_both,
}
use go_event_ticket_reservat.Errors.{Result, ok, err, Result-cases}
use go_event_ticket_reservat.Domain.Seat.{Seat}
use go_event_ticket_reservat.World.Rows.{Db}
use go_event_ticket_reservat.Postgres.Seats.{has_id, insert_seat, insert_seats, seat_row, and_then}
use go_event_ticket_reservat.Postgres.Reservations.{is_link}
use go_event_ticket_reservat.Postgres.Events.{delete_event, is_seat_of, event_has_id}
use go_event_ticket_reservat.Booking.{Consistent, seat_at}

-- Nothing that `Consistent` speaks of has changed.
pub Consistent-same :
    (d d' : Db)
    → d'.seats ≡ d.seats
    → d'.reservations ≡ d.reservations
    → d'.reservation_seats ≡ d.reservation_seats
    → Consistent d
    → Consistent d'
Consistent-same d d' s r l c = record {
  seats_unique = λ k. rw s (c.seats_unique k);
  rows_unique = λ k. rw r (c.rows_unique k);
  keys_unique = λ k. rw r (c.keys_unique k);
  links_known = rw (l, r) c.links_known;
  held = rw (l, r, s) c.held;
}

one_seat :
    (d : Db) (t : Seat) (k : String)
    → find_where (has_id t.id) d.seats ≡ none
    → count_where (has_id k) d.seats ≤ 1
    → count_where (has_id k) (d.seats ++ t ∷ []) ≤ 1
one_seat d t k new u = rw count-append (elim (Bool-cases (t.id == k)) [
  | inr e ↦ ground arith
  | inl e ↦
      let none_before = count_none (has_id t.id) d.seats new in
      let none_now : count_where (has_id k) d.seats ≡ 0 =
        subst (λ j. count_where (has_id j) d.seats ≡ 0) ((eq_iff t.id k).0 e) none_before in
      ground arith
])

-- A seat with a new id
add_seat-Consistent :
    (d : Db) (t : Seat)
    → find_where (has_id t.id) d.seats ≡ none
    → Consistent d
    → Consistent (record d { seats = d.seats ++ t ∷ [] })
add_seat-Consistent d t new c = record {
  seats_unique = λ k. one_seat d t k new (c.seats_unique k);
  rows_unique = c.rows_unique;
  keys_unique = c.keys_unique;
  links_known = c.links_known;
  held = λ rid sid r st lk found active.
      let (s, at, status, by) = c.held rid sid r st lk found active in
      (s, rw (find-append, at) refl, status, by);
}

pub insert_seat-Consistent :
    (id i : String) (t : Seat) (d d' : Db)
    → Consistent d
    → insert_seat id t d ≡ ok (i, d')
    → Consistent d'
unfolding insert_seat
insert_seat-Consistent id i t d d' c e =
    let same : record d { seats = d.seats ++ seat_row id t ∷ [] } ≡ d' = ground arith in
    subst Consistent same (add_seat-Consistent d (seat_row id t) (ground arith) c)

module _ (fresh : ℕ → String) where
  mutual_seats :
      (t : Seat) (r : Result (String × Db)) (rest : Db → Result (List Seat × Db)) (ts : List Seat)
      (d' : Db)
      → ((i : String) (d : Db) → r ≡ ok (i, d) → Consistent d)
      → ((d d' : Db) (ts : List Seat) → Consistent d → rest d ≡ ok (ts, d') → Consistent d')
      → and_then t r rest ≡ ok (ts, d')
      → Consistent d'
  mutual_seats t (err x) rest ts d' one more e = cc
  mutual_seats t (ok (i, d)) rest ts d' one more e = elim (Result-cases (rest d)) [
    | inl (x, f) ↦ cc
    | inr ((us, d₁), f) ↦
        let same : d₁ ≡ d' = ground arith in subst Consistent same (more d d₁ us (one i d refl) f)
  ]

  pub insert_seats-Consistent :
      (ts : List Seat) (i : ℕ) (d d' : Db) (us : List Seat)
      → Consistent d
      → insert_seats fresh i ts d ≡ ok (us, d')
      → Consistent d'
  unfolding insert_seats
  insert_seats-Consistent [] i d d' us c e =
      let same : d ≡ d' = ground arith in subst Consistent same c
  insert_seats-Consistent (t ∷ ts) i d d' us c e =
      mutual_seats t (insert_seat (fresh i) t d) (insert_seats fresh (suc i) ts) us d'
        (λ j d₁. insert_seat-Consistent (fresh i) j t d d₁ c)
        (λ d₁ d₂ vs c₁. insert_seats-Consistent ts (suc i) d₁ d₂ vs c₁) e

-- A seat of a reservation that is left is a seat of another event.
kept_seat :
    (id rid sid : String) (d : Db) (s : Seat)
    → seat_at d sid ≡ some s
    → count_where (has_id sid) d.seats ≤ 1
    → is_some (
        find_where
          (is_link rid sid)
          (select_where (λ l. not (is_seat_of id d.seats l)) d.reservation_seats))
      ≡ true
    → find_where (has_id sid) (select_where (λ s. not (s.event_id == id)) d.seats) ≡ some s
kept_seat id rid sid d s at u lk =
    let ((r, k), is, spared, _) = select_passes (is_link rid sid) _ d.reservation_seats lk in
    find-select (has_id sid) _ d.seats s at
      (elim (Bool-cases (s.event_id == id)) [
        | inr e ↦ ground (arith, e)
        | inl e ↦ absurd (
            ground
              (arith, find_both (has_id sid) (λ s. s.event_id == id) d.seats s at e, eq_iff k sid))
      ])
      u

delete_rows-Consistent :
    (id : String) (d : Db)
    → Consistent d
    → Consistent (record d {
      events = select_where (λ e. not (event_has_id id e)) d.events;
      seats = select_where (λ s. not (s.event_id == id)) d.seats;
      reservation_seats = select_where (λ l. not (is_seat_of id d.seats l)) d.reservation_seats;
    })
delete_rows-Consistent id d c = record {
  seats_unique = λ k.
      omega
        (arith, count-select-le (has_id k) (λ s. not (s.event_id == id)) d.seats, c.seats_unique k);
  rows_unique = c.rows_unique;
  keys_unique = c.keys_unique;
  links_known = λ rid sid lk.
      let (_, _, _, old) = select_passes (is_link rid sid) _ d.reservation_seats lk in
      c.links_known rid sid old;
  held = λ rid sid r st lk found active.
      let (_, _, _, old) = select_passes (is_link rid sid) _ d.reservation_seats lk in
      let (s, at, status, by) = c.held rid sid r st old found active in
      (s, kept_seat id rid sid d s at (c.seats_unique sid) lk, status, by);
}

pub delete_event-Consistent :
    (id : String) (fresh : ℕ → String) (now n : ℕ) (d d' : Db)
    → Consistent d
    → delete_event id fresh now d ≡ ok (n, d')
    → Consistent d'
unfolding delete_event
delete_event-Consistent id fresh now n d d' c e =
    elim (Bool-cases (is_some (find_where (event_has_id id) d.events))) [
      | inr k ↦ let same : d ≡ d' = ground arith in subst Consistent same c
      | inl k ↦ subst Consistent (ground arith) (delete_rows-Consistent id d c)
    ]
