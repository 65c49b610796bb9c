-- ===== src/Application/ReservationService/Ended.antt =====
-- The branches of ConfirmReservation and CancelReservation in
-- internal/application/reservation_service.go.
use go_event_ticket_reservat.Prelude.{
  length, inl, inr, suc, refl, ℕ, String, ◌≡◌, ap, List, Bool, arith, ◌≤◌, subst, sym, ◌∙◌,
}
use go_event_ticket_reservat.Prelude.Tables.{contains, count_where}
use go_event_ticket_reservat.Errors.{Result, ok, err, Result-cases}
use go_event_ticket_reservat.Domain.Seat.{Seat}
use go_event_ticket_reservat.Domain.Reservation
use go_event_ticket_reservat.Domain.Reservation.{Reservation, new_reservation, confirmed, cancelled}
use go_event_ticket_reservat.World.Rows.{Db, World, ReservationRow}
use go_event_ticket_reservat.World.Exec.{◌>>=◌, time_now, sample, lift}
use go_event_ticket_reservat.World.Logic.{Ends, Reads-lift, Reads-time_now}
use go_event_ticket_reservat.Postgres.Tx.Settles.{
  Settles, Settles-mono, Settles-transaction, Settles-read, Lands-bind, Lands-commit, Succeeds-pure,
  Succeeds-count, Succeeds-bind,
}
use go_event_ticket_reservat.Postgres.Seats.{can_confirm, confirmed_row, released_row}
use go_event_ticket_reservat.Postgres.Reservations
use go_event_ticket_reservat.Postgres.Reservations.{row_has_key, links_of, to_entity}
use go_event_ticket_reservat.Booking.Finish.{ReadFrom, Moved}
use go_event_ticket_reservat.Booking.Moves.{
  Moved-then, confirm_seats-Does, release_seats-Does, update-Does,
}
use go_event_ticket_reservat.Application.ReservationService.{
  ReservationService, store_confirmed, confirm_reservation, store_cancelled, cancel_reservation,
}
use go_event_ticket_reservat.Application.ReservationService.Finish.{
  Loaded, get_by_id-Reads, ReadFrom-Loaded, Loaded-id, cancel_lem, confirm_lem,
}
use go_event_ticket_reservat.Application.ReservationService.Outcome.{invalidate-Succeeds}

-- What is written when the reservation `id` is confirmed or cancelled: it is the one that is
-- returned, it was pending, and its row and the seats that pass `touch` change.
pub record Finished (id : String) (touch : List String → Seat → Bool) (f : ℕ → Seat → Seat) (d : Db)
    (res : Reservation) (d' : Db) : Type 0 where
  pub is_asked : res.id ≡ id
  pub row : ReservationRow
  pub from : ReadFrom d row res
  pub now : ℕ
  pub is_moved : Moved res (touch res.seat_ids) (f now) d d'

abbrev pub Wrote :
    Reservation → (List String → Seat → Bool) → (ℕ → Seat → Seat) → Db → Reservation → Db → Type 0
Wrote res touch f d out d' = (out ≡ res) × ((now : ℕ) × Moved res (touch res.seat_ids) (f now) d d')

wrote :
    (res out : Reservation) (touch : List String → Seat → Bool) (f : ℕ → Seat → Seat) (now : ℕ)
    (d d₂ d' : Db)
    → Moved res (touch res.seat_ids) (f now) d d₂
    → (out ≡ res) × (d' ≡ d₂)
    → Wrote res touch f d out d'
wrote res out touch f now d d₂ d' m (is, same) =
    (is, (now, subst (Moved res (touch res.seat_ids) (f now) d) (sym same) m))

-- The same, and as many of its seats were reserved as it names.
abbrev pub WroteAll : Reservation → Db → Reservation → Db → Type 0
WroteAll res d out d' =
    (count_where (can_confirm res.seat_ids) d.seats ≡ length res.seat_ids)
    × Wrote res can_confirm confirmed_row d out d'

pub store_confirmed-WroteAll : (res : Reservation) → Settles (store_confirmed res) (WroteAll res)
unfolding store_confirmed
store_confirmed-WroteAll res =
    Settles-mono _
      (λ d out d' h. (
        h.2.full,
        wrote res out can_confirm confirmed_row h.2.now d h.3.1 d'
            (Moved-then res _ _ d h.1 h.3.1 h.2.touched h.3.2) h.3.3,
      ))
      (Settles-transaction _ _ (
        Lands-bind _ _ (confirm_seats-Does res.seat_ids) λ _.
          Lands-bind _ _ (update-Does res)
            λ _. Lands-commit _ _ (Succeeds-bind _ _ (Succeeds-count _) (Succeeds-pure res))))

store_confirmed-Settles :
    (res : Reservation) → Settles (store_confirmed res) (Wrote res can_confirm confirmed_row)
store_confirmed-Settles res = Settles-mono _ (λ d out d' h. h.1) (store_confirmed-WroteAll res)

abbrev pub names : List String → Seat → Bool
names ids s = contains ids s.id

pub store_cancelled-Settles :
    (s : ReservationService) (res : Reservation)
    → Settles (store_cancelled s res) (Wrote res names released_row)
unfolding store_cancelled
store_cancelled-Settles s res =
    Settles-mono _
      (λ d out d' h.
        wrote res out names released_row h.2.0 d h.3.1 d'
          (Moved-then res _ _ d h.1 h.3.1 h.2.1 h.3.2) h.3.3)
      (Settles-transaction _ _ (
        Lands-bind _ _ (release_seats-Does res.seat_ids) λ _. Lands-bind _ _ (update-Does res) λ _.
          Lands-commit _ _ (
            Succeeds-bind _ _ (Succeeds-count _)
              (Succeeds-bind _ _ (invalidate-Succeeds s res.event_id) (Succeeds-pure res)))))

finished :
    (id : String) (touch : List String → Seat → Bool) (f : ℕ → Seat → Seat) (d d' : Db)
    (res done out : Reservation)
    → Loaded d id res
    → (res.status ≡ Reservation.pending) × (done.id ≡ res.id) × (done.seat_ids ≡ res.seat_ids)
    → Wrote done touch f d out d'
    → Finished id touch f d out d'
finished id touch f d d' res done out l (is, same, seats) (e, (now, m)) =
    let (row, from) = ReadFrom-Loaded d id res done l is same seats in
    subst (λ k. Finished id touch f d k d') (sym e)
      (record {
        is_asked = same ∙ Loaded-id d id res l;
        row = row;
        from = from;
        now = now;
        is_moved = m;
      })

in_time :
    (checked now : ℕ) (r done : Reservation)
    → Reservation.confirm checked now r ≡ ok done
    → checked ≤ done.expires_at
unfolding Reservation.confirm Reservation.is_expired
in_time checked now r done e = ground arith

confirmed_lem :
    (id : String) (checked now : ℕ) (d d' : Db) (res done out : Reservation)
    → Loaded d id res
    → Reservation.confirm checked now res ≡ ok done
    → Wrote done can_confirm confirmed_row d out d'
    → (out.status ≡ confirmed) × Finished id can_confirm confirmed_row d out d'
confirmed_lem id checked now d d' res done out l e w =
    let (is, same, seats, after) = confirm_lem checked now res done e in
    (
      ap (λ (k : Reservation). k.status) w.0 ∙ after,
      finished id can_confirm confirmed_row d d' res done out l (is, same, seats) w,
    )

pub Ends-ok :
    {A : Type 0} (r : Result A) (w : World) (a : A) (Q : A → World → Type 0) (E : World → Type 0)
    → r ≡ ok a
    → Ends r w Q E
    → Q a w
Ends-ok r w a Q E e h = subst (λ k. Ends k w Q E) e h

Ends-and :
    {A : Type 0} (r : Result A) (w : World) (P : A → Type 0) (Q : A → World → Type 0)
    (E : World → Type 0)
    → ((a : A) → r ≡ ok a → P a)
    → Ends r w Q E
    → Ends r w (λ a w'. P a × Q a w') E
Ends-and (ok a) w P Q E k h = (k a refl, h)
Ends-and (err e) w P Q E k h = h

-- The time that the clock gives after the reservation was read
abbrev pub time_checked : String → World → ℕ
time_checked id w = let w₁ = (Reservations.get_by_id id w).1 in w₁.env.now w₁.at

confirmed_in_time :
    (id : String) (w : World) (res : Reservation)
    → (confirm_reservation id w).0 ≡ ok res
    → time_checked id w ≤ res.expires_at
unfolding confirm_reservation ◌>>=◌ time_now sample lift
confirmed_in_time id w res ran = elim (Result-cases (Reservations.get_by_id id w).0) [
  | inl (x, e) ↦ let no : (confirm_reservation id w).0 ≡ err x = rw e refl in absurd cc
  | inr (r, e) ↦
      let w₁ = (Reservations.get_by_id id w).1 in
      let w₃ = record w₁ { at = suc (suc w₁.at) } in
      let asked = Reservation.confirm (w₁.env.now w₁.at) (w₁.env.now (suc w₁.at)) r in
      elim (Result-cases asked) [
        | inl (x, f) ↦ let no : (confirm_reservation id w).0 ≡ err x = rw (e, f) refl in absurd cc
        | inr (done, f) ↦
            let stored : (store_confirmed done w₃).0 ≡ ok res = sym (rw (e, f) refl) ∙ ran in
            let (is, _) =
              Ends-ok _ (store_confirmed done w₃).1 res _ _ stored
                ((store_confirmed-Settles done).run w₃) in
            rw is (in_time _ _ r done f)
      ]
]

confirm_reservation-Settles :
    (id : String)
    → Settles
        (confirm_reservation id)
        (λ d res d'. (res.status ≡ confirmed) × Finished id can_confirm confirmed_row d res d')
unfolding confirm_reservation
confirm_reservation-Settles id =
    Settles-mono _
      (λ d out d' h. confirmed_lem id h.2.0 h.2.2.0 d d' h.0 h.2.2.2.0 out h.1 h.2.2.2.1 h.2.2.2.2)
      (Settles-read _ _ (get_by_id-Reads id) λ res. Settles-read _ _ Reads-time_now λ checked.
        Settles-read _ _ Reads-time_now
          λ now. Settles-read _ _ (Reads-lift _) λ done. store_confirmed-Settles done)

pub confirm_reservation-Outcome :
    (id : String) (w : World)
    → Ends
        (confirm_reservation id w).0
        (confirm_reservation id w).1
        (λ res w'.
          (time_checked id w ≤ res.expires_at)
          × ((res.status ≡ confirmed) × Finished id can_confirm confirmed_row w.db res w'.db))
        (λ w'. w'.db ≡ w.db)
confirm_reservation-Outcome id w =
    Ends-and (confirm_reservation id w).0 _ _ _ _ (confirmed_in_time id w)
      ((confirm_reservation-Settles id).run w)

cancelled_lem :
    (id : String) (now : ℕ) (d d' : Db) (res done out : Reservation)
    → Loaded d id res
    → Reservation.cancel now res ≡ ok done
    → Wrote done names released_row d out d'
    → (out.status ≡ cancelled) × Finished id names released_row d out d'
cancelled_lem id now d d' res done out l e w =
    let (is, same, seats, after) = cancel_lem now res done e in
    (
      ap (λ (k : Reservation). k.status) w.0 ∙ after,
      finished id names released_row d d' res done out l (is, same, seats) w,
    )

-- CancelReservation fails and leaves the database as it was, or the reservation `id` was pending,
-- and its row becomes cancelled and all its seats available.
pub cancel_reservation-Outcome :
    (s : ReservationService) (id : String) (w : World)
    → Ends
        (cancel_reservation s id w).0
        (cancel_reservation s id w).1
        (λ res w'. (res.status ≡ cancelled) × Finished id names released_row w.db res w'.db)
        (λ w'. w'.db ≡ w.db)
unfolding cancel_reservation
cancel_reservation-Outcome s id w =
    (Settles-mono _ (λ d out d' h. cancelled_lem id h.2.0 d d' h.0 h.2.2.0 out h.1 h.2.2.1 h.2.2.2)
        (Settles-read _ _ (get_by_id-Reads id) λ res.
          Settles-read _ _ Reads-time_now
            λ now. Settles-read _ _ (Reads-lift _) λ done. store_cancelled-Settles s done)).run
      w
