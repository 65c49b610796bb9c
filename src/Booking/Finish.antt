-- ===== src/Booking/Finish.antt =====
-- The transactions of ConfirmReservation and CancelReservation, and of each round of
-- CancelExpiredReservations, keep the tables consistent if the reservation that they write was read
-- from the same database.
use go_event_ticket_reservat.Prelude.{
  ◌≤◌, String, ◌≡◌, refl, subst, sym, ap, ◌∙◌, inl, inr, Bool, true, false, some, ℕ, arith, eq_iff,
  ◌==◌, Bool-cases, Option-cases, if◌then◌else◌,
}
use go_event_ticket_reservat.Prelude.Tables.{count_where, update_where, contains}
use go_event_ticket_reservat.Prelude.Tables.Laws.{map_row, find-update, find_passes, count-update}
use go_event_ticket_reservat.Domain.Seat
use go_event_ticket_reservat.Domain.Seat.{Seat}
use go_event_ticket_reservat.Domain.Reservation.{Reservation, pending, confirmed, cancelled}
use go_event_ticket_reservat.World.Rows.{Db, ReservationRow}
use go_event_ticket_reservat.Postgres.Seats.{has_id, can_confirm, confirmed_row, released_row}
use go_event_ticket_reservat.Postgres.Reservations.{row_has_id, row_has_key, links_of, updated_row}
use go_event_ticket_reservat.Booking.{
  seat_at, reservation_at, linked, held_status, Held, Consistent, contains-links_of,
}

-- `res` is the pending reservation `row` of `d`, but for the status and the stamps.
pub record ReadFrom (d : Db) (row : ReservationRow) (res : Reservation) : Type 0 where
  pub found : reservation_at d res.id ≡ some row
  pub is_pending : row.status ≡ pending
  pub seat_ids : res.seat_ids ≡ links_of res.id d.reservation_seats

-- The reservation is there, and its seats are those that are linked to it.
pub record Names (d : Db) (row : ReservationRow) (res : Reservation) : Type 0 where
  pub found : reservation_at d res.id ≡ some row
  pub asked : (sid : String) → contains res.seat_ids sid ≡ linked d res.id sid

pub ReadFrom-Names :
    (d : Db) (row : ReservationRow) (res : Reservation) → ReadFrom d row res → Names d row res
ReadFrom-Names d row res from = record {
  found = from.found;
  asked = λ sid. rw from.seat_ids (contains-links_of res.id sid d.reservation_seats);
}

-- The reservation's seats name it.
abbrev pub Owns : Db → Reservation → Type 0
Owns d res =
    (sid : String)
    → linked d res.id sid ≡ true
    → (t : Seat) × (seat_at d sid ≡ some t) × (t.reserved_by ≡ some res.id)

-- The seats that pass `touch` are changed by `f`, and the reservation's row is written.
pub record Moved (res : Reservation) (touch : Seat → Bool) (f : Seat → Seat) (d d' : Db)
    : Type 0 where
  pub rows : d'.reservations ≡ update_where (row_has_id res.id) (updated_row res) d.reservations
  pub seats : d'.seats ≡ update_where touch f d.seats
  pub links : d'.reservation_seats ≡ d.reservation_seats

module _ (res : Reservation) (row : ReservationRow) (touch : Seat → Bool) (f : Seat → Seat)
    (d d' : Db) (c : Consistent d) (from : Names d row res) (before : Owns d res)
    (m : Moved res touch f d d')
    (named : (s : Seat) → touch s ≡ true → contains res.seat_ids s.id ≡ true)
    (keeps : (s : Seat) → (f s).id ≡ s.id) where
  pub linked' : (rid sid : String) → linked d' rid sid ≡ linked d rid sid
  linked' rid sid = rw m.links refl

  pub row' :
      (rid : String)
      → reservation_at d' rid
        ≡ map_row (λ r. if row_has_id res.id r then updated_row res r else r) (reservation_at d rid)
  row' rid = rw m.rows (find-update (row_has_id rid) _ (updated_row res) d.reservations (λ r. refl))

  seat' :
      (sid : String) → seat_at d' sid ≡ map_row (λ s. if touch s then f s else s) (seat_at d sid)
  seat' sid =
      rw m.seats (find-update (has_id sid) touch f d.seats (λ s. ap (λ k. k == sid) (keeps s)))

  -- The seat of another active reservation is not touched.
  untouched :
      (rid sid : String) (st : Seat.Status) (s : Seat)
      → (res.id == rid) ≡ false
      → seat_at d sid ≡ some s
      → s.reserved_by ≡ some rid
      → touch s ≡ false
  untouched rid sid st s other at by = elim (Bool-cases (touch s)) [
    | inr e ↦ e
    | inl e ↦
        let here : s.id ≡ sid = (eq_iff s.id sid).0 (find_passes (has_id sid) d.seats s at) in
        let lk : linked d res.id sid ≡ true =
          sym (from.asked sid) ∙ subst (λ k. contains res.seat_ids k ≡ true) here (named s e) in
        let (t, at', by') = before sid lk in
        absurd (ground (arith, at, at', by, by', eq_iff res.id rid))
  ]

  other-Held :
      (rid sid : String) (r : ReservationRow) (st : Seat.Status)
      → (res.id == rid) ≡ false
      → linked d rid sid ≡ true
      → reservation_at d rid ≡ some r
      → held_status r.status ≡ some st
      → Held d' sid rid st
  other-Held rid sid r st other lk found active =
      let (s, at, status, by) = c.held rid sid r st lk found active in
      let same = untouched rid sid st s other at by in (s, rw (seat', at, same) refl, status, by)

  other_row :
      (rid : String) (r : ReservationRow)
      → (res.id == rid) ≡ false
      → reservation_at d' rid ≡ some r
      → reservation_at d rid ≡ some r
  other_row rid r other found = elim (Option-cases (reservation_at d rid)) [
    | inl e ↦ ground (arith, row' rid)
    | inr (r₀, e) ↦
        let here : r₀.id ≡ rid =
          (eq_iff r₀.id rid).0 (find_passes (row_has_id rid) d.reservations r₀ e) in
        let spared : row_has_id res.id r₀ ≡ false =
          ground (arith, here, eq_iff res.id rid, eq_iff r₀.id res.id) in
        ground (arith, row' rid, spared)
  ]

  own_row : reservation_at d' res.id ≡ some (updated_row res row)
  own_row =
      let here = find_passes (row_has_id res.id) d.reservations row from.found in
      ground (arith, row' res.id, here, from.found)

  one_key : (k : String) → count_where (row_has_key k) d'.reservations ≤ 1
  one_key k = rw m.rows (
      omega (
        arith,
        count-update (row_has_key k) (row_has_id res.id) (updated_row res) d.reservations
            (λ r. refl),
        c.keys_unique k,
      ))

  one_row : (k : String) → count_where (row_has_id k) d'.reservations ≤ 1
  one_row k = rw m.rows (
      omega (
        arith,
        count-update (row_has_id k) (row_has_id res.id) (updated_row res) d.reservations
            (λ r. refl),
        c.rows_unique k,
      ))

  one_seat : (k : String) → count_where (has_id k) d'.seats ≤ 1
  one_seat k = rw m.seats (
      omega (
        arith,
        count-update (has_id k) touch f d.seats (λ s. ap (λ j. j == k) (keeps s)),
        c.seats_unique k,
      ))

  module _
      (own : (sid : String) (st : Seat.Status)
        → linked d res.id sid ≡ true
        → held_status res.status ≡ some st
        → Held d' sid res.id st) where
    held' :
        (rid sid : String) (r : ReservationRow) (st : Seat.Status)
        → linked d' rid sid ≡ true
        → reservation_at d' rid ≡ some r
        → held_status r.status ≡ some st
        → Held d' sid rid st
    held' rid sid r st lk found active =
        let lk₀ : linked d rid sid ≡ true = sym (linked' rid sid) ∙ lk in
        elim (Bool-cases (res.id == rid)) [
          | inr e ↦ other-Held rid sid r st e lk₀ (other_row rid r e found) active
          | inl e ↦
              let same : res.id ≡ rid = (eq_iff res.id rid).0 e in
              subst (λ k. Held d' sid k st) same
                (own sid st (subst (λ k. linked d k sid ≡ true) (sym same) lk₀)
                  (ground (arith, own_row, same)))
        ]

    -- What is left to show is that the reservation holds its seats after the change.
    pub move-Consistent : Consistent d'
    move-Consistent = record {
      seats_unique = one_seat;
      rows_unique = one_row;
      keys_unique = one_key;
      links_known = λ rid sid lk. ground (arith, linked' rid sid, row' rid, c.links_known rid sid);
      held = held';
    }

module _ (res : Reservation) (row : ReservationRow) (now : ℕ) (d d' : Db) (c : Consistent d)
    (from : Names d row res) (is : row.status ≡ pending) where
  before : (sid : String) → linked d res.id sid ≡ true → Held d sid res.id Seat.reserved
  before sid lk = c.held res.id sid row Seat.reserved lk from.found (rw is refl)

  owns : Owns d res
  owns sid lk = let (t, at, _, by) = before sid lk in (t, at, by)

  module _ (m : Moved res (can_confirm res.seat_ids) (confirmed_row now) d d') where
    confirmed_seat :
        (sid : String) (s : Seat)
        → linked d res.id sid ≡ true
        → seat_at d sid ≡ some s
        → s.status ≡ Seat.reserved
        → seat_at d' sid ≡ some (confirmed_row now s)
    confirmed_seat sid s lk at status =
        let here = (eq_iff s.id sid).0 (find_passes (has_id sid) d.seats s at) in
        let asked : contains res.seat_ids s.id ≡ true =
          subst (λ k. contains res.seat_ids k ≡ true) (sym here) (from.asked sid ∙ lk) in
        rw
          (
            m.seats,
            find-update (has_id sid) (can_confirm res.seat_ids) (confirmed_row now) d.seats
                (λ s. refl),
            at,
          )
          (ground arith)

    confirmed-Held : (sid : String) → linked d res.id sid ≡ true → Held d' sid res.id Seat.confirmed
    confirmed-Held sid lk =
        let (s, at, status, by) = before sid lk in
        (confirmed_row now s, confirmed_seat sid s lk at status, refl, by)

    -- From a consistent database, confirming a pending reservation leads to a consistent one.
    pub confirm-Consistent : res.status ≡ confirmed → Consistent d'
    confirm-Consistent done =
        move-Consistent res row (can_confirm res.seat_ids) (confirmed_row now) d d' c from owns m
          (λ s e. ground arith) (λ s. refl)
          λ sid st lk active.
            let is : st ≡ Seat.confirmed = ground arith in rw is (confirmed-Held sid lk)

  -- From a consistent database, cancelling a pending reservation leads to a consistent one.
  pub release-Consistent :
      Moved res (λ s. contains res.seat_ids s.id) (released_row now) d d'
      → res.status ≡ cancelled
      → Consistent d'
  release-Consistent m done =
      move-Consistent res row (λ s. contains res.seat_ids s.id) (released_row now) d d' c from owns
        m (λ s e. e) (λ s. refl) λ sid st lk active. absurd (ground arith)
