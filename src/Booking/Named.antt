-- ===== src/Booking/Named.antt =====
-- A reservation that was read earlier: what others' transactions leave of it, and when its own
-- confirmation is safe.
use go_event_ticket_reservat.Prelude.{
  ℕ, String, ◌≡◌, ◌≢◌, refl, sym, subst, ◌∙◌, Bool, true, false, none, List, [], ◌∷◌, arith, eq_iff,
  length, ◌==◌, Bool-cases, inl, inr, if◌then◌else◌,
}
use go_event_ticket_reservat.Prelude.Tables.{count_where, contains}
use go_event_ticket_reservat.Prelude.Tables.Laws.{find-update, contains_found}
use go_event_ticket_reservat.Domain.Seat
use go_event_ticket_reservat.Domain.Seat.{Seat}
use go_event_ticket_reservat.Domain.Reservation
use go_event_ticket_reservat.Domain.Reservation.{Reservation, pending, confirmed, cancelled}
use go_event_ticket_reservat.World.Rows.{Db, ReservationRow}
use go_event_ticket_reservat.Postgres.Seats.{can_confirm, confirmed_row}
use go_event_ticket_reservat.Postgres.Reservations.{row_has_id, updated_row}
use go_event_ticket_reservat.Booking.{Consistent, linked, reservation_at}
use go_event_ticket_reservat.Booking.Reserve.{Inserted, Linked, Reserved, row₃, linked₃}
use go_event_ticket_reservat.Booking.Finish.{Names, Moved, move-Consistent, confirm-Consistent}

abbrev pub Named : Db → Reservation → Type 0
Named d r = (row : ReservationRow) × Names d row r

pub Named-Moved :
    {res : Reservation} {touch : Seat → Bool} {f : Seat → Seat} {d d' : Db}
    → Moved res touch f d d'
    → (r : Reservation) → Named d r
    → Named d' r
Named-Moved {res} {d} {d'} m r (row, n) = (
  (if row_has_id res.id row then updated_row res row else row),
  record {
    found =
        rw
          (
            m.rows,
            find-update (row_has_id r.id) (row_has_id res.id) (updated_row res) d.reservations
                (λ k. refl),
            n.found,
          )
          refl;
    asked = λ sid. n.asked sid ∙ rw m.links refl;
  },
)

pub Named-reserved :
    (id : String) (res : Reservation) (sids : List String) (now : ℕ) (d d₁ d₂ d₃ : Db)
    → Consistent d
    → Inserted id res d d₁
    → Linked id sids d₁ d₂
    → Reserved id sids now d₂ d₃
    → (r : Reservation) → Named d r
    → Named d₃ r
Named-reserved id res sids now d d₁ d₂ d₃ c i l u r (row, n) =
    let other : (id == r.id) ≡ false = elim (Bool-cases (id == r.id)) [
      | inr e ↦ e
      | inl e ↦
          let same : id ≡ r.id = (eq_iff id r.id).0 e in
          let gone : reservation_at d r.id ≡ none =
            subst (λ k. reservation_at d k ≡ none) same i.new_id in
          absurd (cc (n.found))
    ] in
    (
      row,
      record {
        found = row₃ id res sids now d d₁ d₂ d₃ c i l u r.id ∙ rw n.found refl;
        asked = λ sid.
            n.asked sid ∙ sym (linked₃ id res sids now d d₁ d₂ d₃ c i l u r.id sid ∙ ground arith);
      },
    )

module _ (res : Reservation) (row : ReservationRow) (now : ℕ) (d d' : Db) (c : Consistent d)
    (n : Names d row res) (m : Moved res (can_confirm res.seat_ids) (confirmed_row now) d d')
    (full : count_where (can_confirm res.seat_ids) d.seats ≡ length res.seat_ids)
    (done : res.status ≡ confirmed) where
  -- A seat that is named first is not both reserved and confirmed.
  not_again : (k : String) (ids : List String) → res.seat_ids ≡ k ∷ ids → row.status ≢ confirmed
  not_again k ids e is =
      let asks : contains res.seat_ids k ≡ true = rw e (ground (arith, eq_iff k k)) in
      let (a, at, free) =
        contains_found (λ (s : Seat). s.id) (λ s. Seat.status_beq s.status Seat.reserved) d.seats
          c.seats_unique res.seat_ids k (omega (arith, full)) asks in
      let (s, at', status, _) =
        c.held res.id k row Seat.confirmed (sym (n.asked k) ∙ asks) n.found (rw is refl) in
      ground (arith, at, at', status, free)

  none_named : res.seat_ids ≡ [] → (sid : String) → linked d res.id sid ≡ false
  none_named e sid = sym (n.asked sid) ∙ rw e refl

  again-Consistent :
      (ids : List String) → res.seat_ids ≡ ids → row.status ≡ confirmed → Consistent d'
  again-Consistent (k ∷ ids) e is = absurd (not_again k ids e is)
  again-Consistent [] e is =
      move-Consistent res row (can_confirm res.seat_ids) (confirmed_row now) d d' c n
        (λ sid lk. absurd (ground (arith, none_named e sid, lk))) m (λ s h. ground arith)
        (λ s. refl) (λ sid st lk active. absurd (ground (arith, none_named e sid, lk)))

  by_status : (st : Reservation.Status) → row.status ≡ st → st ≢ cancelled → Consistent d'
  by_status pending e live = confirm-Consistent res row now d d' c n e m done
  by_status confirmed e live = again-Consistent res.seat_ids refl e
  by_status cancelled e live = absurd (live refl)

  -- A confirmation is safe unless its reservation has been cancelled since: if it has been confirmed
  -- since, either it has no seats or the transaction fails.
  pub confirm_again-Consistent : row.status ≢ cancelled → Consistent d'
  confirm_again-Consistent live = by_status row.status refl live
