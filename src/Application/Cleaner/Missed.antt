-- ===== src/Application/Cleaner/Missed.antt =====
-- The rows that a round of internal/worker/expired_reservation_cleaner.go has still to cancel.
use go_event_ticket_reservat.Prelude.{
  ℕ, String, ◌≡◌, refl, sym, subst, Bool, Bool-cases, inl, inr, true, false, not, ◌&&◌, ◌||◌, ◌==◌,
  eq_iff, List, [], ◌∷◌, length, arith,
}
use go_event_ticket_reservat.Prelude.Tables.{count_where, select_where, update_where}
use go_event_ticket_reservat.Domain.Reservation.{Reservation, pending, cancelled}
use go_event_ticket_reservat.World.Rows.{Db, ReservationRow}
use go_event_ticket_reservat.Postgres.Reservations.{
  row_has_id, updated_row, is_old_pending, links_of, to_entity,
}
use go_event_ticket_reservat.Booking.Pending.{entities}

-- A reservation of the list has the id.
pub named : List Reservation → String → Bool
named [] k = false
named (r ∷ rs) k = r.id == k || named rs k

module _ (cutoff : ℕ) where
  -- A row that is old and pending, and no reservation of the list is its own
  pub missed : List Reservation → ReservationRow → Bool
  missed rs r = is_old_pending cutoff r && not (named rs r.id)

  pub missed-step :
      (res done : Reservation) (rest : List Reservation) (xs : List ReservationRow)
      → done.id ≡ res.id
      → done.status ≡ cancelled
      → count_where (missed (res ∷ rest)) xs ≡ 0
      → count_where (missed rest) (update_where (row_has_id done.id) (updated_row done) xs) ≡ 0
  unfolding missed named
  missed-step res done rest [] same is h = refl
  missed-step res done rest (x ∷ xs) same is h =
      ground (arith, missed-step res done rest xs same is, eq_iff x.id done.id, eq_iff res.id x.id)

  pub Covers : List Reservation → List ReservationRow → Type 0
  Covers rs [] = Unit
  Covers rs (x ∷ xs) = (is_old_pending cutoff x ≡ true → named rs x.id ≡ true) × Covers rs xs

  Covers-cons :
      (r : Reservation) (rs : List Reservation) (xs : List ReservationRow)
      → Covers rs xs
      → Covers (r ∷ rs) xs
  unfolding Covers named
  Covers-cons r rs [] h = tt
  Covers-cons r rs (x ∷ xs) h = (λ e. ground (arith, h.0 e), Covers-cons r rs xs h.1)

  pub Covers-entities :
      (d : Db) (xs : List ReservationRow)
      → Covers (entities d (select_where (is_old_pending cutoff) xs)) xs
  unfolding Covers named to_entity
  Covers-entities d [] = tt
  Covers-entities d (x ∷ xs) = elim (Bool-cases (is_old_pending cutoff x)) [
    | inl e ↦
        let same : select_where (is_old_pending cutoff) (x ∷ xs)
            ≡ x ∷ select_where (is_old_pending cutoff) xs =
          rw e refl in
        subst (λ k. Covers (entities d k) (x ∷ xs)) (sym same)
          (
            λ _. ground (arith, eq_iff x.id x.id),
            Covers-cons (to_entity x (links_of x.id d.reservation_seats)) _ xs
                (Covers-entities d xs),
          )
    | inr e ↦
        let same : select_where (is_old_pending cutoff) (x ∷ xs)
            ≡ select_where (is_old_pending cutoff) xs =
          rw e refl in
        subst (λ k. Covers (entities d k) (x ∷ xs)) (sym same) (λ f. cc, Covers-entities d xs)
  ]

  pub missed-Covers :
      (rs : List Reservation) (xs : List ReservationRow)
      → Covers rs xs
      → count_where (missed rs) xs ≡ 0
  unfolding Covers missed
  missed-Covers rs [] h = refl
  missed-Covers rs (x ∷ xs) h = elim (Bool-cases (is_old_pending cutoff x)) [
    | inl e ↦ ground (arith, h.0 e, missed-Covers rs xs h.1)
    | inr e ↦ ground (arith, e, missed-Covers rs xs h.1)
  ]

  pub length-entities :
      (d : Db) (xs : List ReservationRow)
      → length (entities d (select_where (is_old_pending cutoff) xs))
        ≡ count_where (is_old_pending cutoff) xs
  length-entities d [] = refl
  length-entities d (x ∷ xs) = elim (Bool-cases (is_old_pending cutoff x)) [
    | inl e ↦ rw e (omega (arith, length-entities d xs))
    | inr e ↦ rw e (omega (arith, length-entities d xs))
  ]

pub missed-nil :
    (cutoff : ℕ) (xs : List ReservationRow)
    → count_where (missed cutoff []) xs ≡ count_where (is_old_pending cutoff) xs
unfolding missed named
missed-nil cutoff [] = refl
missed-nil cutoff (x ∷ xs) = ground (arith, missed-nil cutoff xs)

-- All of the list are pending.
abbrev pub AllPending : List Reservation → Type 0
AllPending [] = Unit
AllPending (r ∷ rs) = (r.status ≡ pending) × AllPending rs

pub AllPending-entities :
    (cutoff : ℕ) (d : Db) (xs : List ReservationRow)
    → AllPending (entities d (select_where (is_old_pending cutoff) xs))
unfolding to_entity
AllPending-entities cutoff d [] = tt
AllPending-entities cutoff d (x ∷ xs) = elim (Bool-cases (is_old_pending cutoff x)) [
  | inl e ↦ rw e (ground (arith, e), AllPending-entities cutoff d xs)
  | inr e ↦ rw e (AllPending-entities cutoff d xs)
]
