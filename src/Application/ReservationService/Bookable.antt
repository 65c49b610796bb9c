-- ===== src/Application/ReservationService/Bookable.antt =====
-- When a request can be granted by CreateReservation of
-- internal/application/reservation_service.go, and what its loop over the seats then finds.
use go_event_ticket_reservat.Prelude.{
  ℕ, ◌≤◌, String, ◌≡◌, refl, sym, ap, ◌∙◌, Bool, true, false, Bool-cases, inl, inr, none, some,
  List, [], ◌∷◌, ◌==◌, eq_iff, ltb, length, is_some, arith, ◌||◌, Option-cases,
}
use go_event_ticket_reservat.Prelude.Tables.{
  find_where, count_where, select_where, sort_by, contains,
}
use go_event_ticket_reservat.Prelude.Tables.Laws.{find-select}
use go_event_ticket_reservat.Prelude.Tables.Found.{Distinct, some-sort, count-contains}
use go_event_ticket_reservat.Domain.Seat
use go_event_ticket_reservat.Domain.Seat.{Seat, is_available}
use go_event_ticket_reservat.World.Rows.{Db, Env, EventRow}
use go_event_ticket_reservat.Postgres.Seats.{has_id, can_reserve}
use go_event_ticket_reservat.Postgres.Events.{event_has_id}
use go_event_ticket_reservat.Postgres.Reservations.{row_has_id, row_has_key}
use go_event_ticket_reservat.Booking.{seat_at, Consistent}
use go_event_ticket_reservat.Application.ReservationService.{
  ReservationService, CreateReservationInput, seat_map, lookup,
}
use go_event_ticket_reservat.Application.ReservationService.Priced.{
  AllOf, AllOf-sort, AllOf-select, AllOf-mono, seat_map-AllOf, lookup-Entry,
}

-- A seat with the id, of the event and free
abbrev pub FreeSeat : Db → String → String → Type 0
FreeSeat d event_id sid =
    (s : Seat) × (seat_at d sid ≡ some s) × (s.event_id ≡ event_id) × (s.status ≡ Seat.available)

-- The request is complete, its key is new, the event is there and has not started, the seats are
-- different, of the event and free, the ids that the database makes are new, and Redis grants the
-- lock if there is a lock manager.
pub record Bookable (s : ReservationService) (input : CreateReservationInput) (e : Env) (d : Db)
    : Type 0 where
  pub has_event : (input.event_id == "") ≡ false
  pub has_user : (input.user_id == "") ≡ false
  pub has_key : (input.idempotency_key == "") ≡ false
  pub row : EventRow
  pub found : find_where (event_has_id input.event_id) d.events ≡ some row
  pub is_open : (n : ℕ) → ltb (e.now n) row.start_at ≡ true
  pub new_key : find_where (row_has_key input.idempotency_key) d.reservations ≡ none
  pub new_id : (n : ℕ) → find_where (row_has_id (e.uuid n 0)) d.reservations ≡ none
  pub first : String
  pub rest : List String
  pub seat_ids : input.seat_ids ≡ first ∷ rest
  pub distinct : Distinct input.seat_ids
  pub free : (sid : String) → contains input.seat_ids sid ≡ true → FreeSeat d input.event_id sid
  pub granted : s.lock_manager ≡ true → (n : ℕ) → e.reply_set_nx n ≡ some true

module _ {A : Type 0} (q : A → Bool) where
  no_other : (xs : List A) (a : A) → count_where q xs ≡ 0 → AllOf (λ t. q t ≡ true → t ≡ a) xs
  unfolding AllOf
  no_other [] a e = tt
  no_other (x ∷ xs) a e = ((λ h. absurd (ground arith)), no_other xs a (ground arith))

  -- The row that is found is the only one, if the key is unique.
  one_row :
      (xs : List A) (a : A)
      → count_where q xs ≤ 1
      → find_where q xs ≡ some a
      → AllOf (λ t. q t ≡ true → t ≡ a) xs
  unfolding AllOf
  one_row [] a u e = tt
  one_row (x ∷ xs) a u e = elim (Bool-cases (q x)) [
    | inl h ↦ ((λ _. ground arith), no_other xs a (ground arith))
    | inr h ↦ ((λ k. absurd (cc (sym h ∙ k))), one_row xs a (ground arith) (ground arith))
  ]

some-lookup :
    (sid : String) (ss : List Seat) (m : List (String × Seat))
    → is_some (lookup sid (seat_map ss m))
      ≡ (is_some (find_where (has_id sid) ss) || is_some (lookup sid m))
some-lookup sid [] m = refl
some-lookup sid (s ∷ ss) m = ground (arith, some-lookup sid ss ((s.id, s) ∷ m))

-- The seats of the event, as the service reads and keeps them
abbrev pub read_seats : Env → Db → String → List Seat
read_seats e d event_id =
    sort_by (λ s t. e.collate s.seat_number t.seat_number)
      (select_where (λ s. s.event_id == event_id) d.seats)

-- The loop finds each seat, and it is free.
pub Free-lookup :
    (e : Env) (d : Db) (event_id sid : String)
    → Consistent d
    → FreeSeat d event_id sid
    → (s : Seat) × (lookup sid (seat_map (read_seats e d event_id) []) ≡ some s)
      × (is_available s ≡ true)
unfolding AllOf
Free-lookup e d event_id sid c (s, at, of_event, is_free) =
    let of : (s.event_id == event_id) ≡ true = (eq_iff s.event_id event_id).1 of_event in
    let selected =
      find-select (has_id sid) (λ (t : Seat). t.event_id == event_id) d.seats s at of
        (c.seats_unique sid) in
    let le = λ (a b : Seat). e.collate a.seat_number b.seat_number in
    let listed =
      some-sort (has_id sid) le (select_where (λ (t : Seat). t.event_id == event_id) d.seats)
      ∙ ap is_some selected in
    let kept =
      seat_map-AllOf (λ t. has_id sid t ≡ true → t ≡ s) (read_seats e d event_id) []
        (AllOf-sort _ le _ (
          AllOf-mono (λ a h. h.0) _
            (AllOf-select _ _ d.seats (one_row (has_id sid) d.seats s (c.seats_unique sid) at))))
        tt in
    let there : is_some (lookup sid (seat_map (read_seats e d event_id) [])) ≡ true =
      some-lookup sid (read_seats e d event_id) [] ∙ rw listed refl in
    elim (Option-cases (lookup sid (seat_map (read_seats e d event_id) []))) [
      | inl gone ↦ absurd (cc (sym (ap is_some gone) ∙ there))
      | inr (t, is) ↦
          let (same, own) =
            lookup-Entry (λ t. has_id sid t ≡ true → t ≡ s) sid
              (seat_map (read_seats e d event_id) []) t kept is in
          (t, is, rw (same ((eq_iff t.id sid).1 own), is_free) refl)
    ]

-- The UPDATE of ReserveSeats affects as many rows as there are ids.
pub can_reserve-count :
    (d : Db) (event_id : String) (ids : List String)
    → Consistent d
    → Distinct ids
    → ((sid : String) → contains ids sid ≡ true → FreeSeat d event_id sid)
    → count_where (can_reserve ids) d.seats ≡ length ids
can_reserve-count d event_id ids c distinct free =
    count-contains (λ (s : Seat). s.id) (λ s. Seat.status_beq s.status Seat.available) ids d.seats
      c.seats_unique distinct
      (λ k asked. let (s, at, _, is_free) = free k asked in (s, at, rw is_free refl))
