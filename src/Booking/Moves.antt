-- ===== src/Booking/Moves.antt =====
-- What ConfirmSeats, ReleaseSeats and Update do to the copy in a transaction.
use go_event_ticket_reservat.Prelude.{
  length, nat_beq, true, ℕ, String, ◌≡◌, refl, subst, sym, ◌∙◌, Bool, false, List, [], ◌∷◌, arith,
}
use go_event_ticket_reservat.Prelude.Tables.{update_where, count_where, contains}
use go_event_ticket_reservat.Prelude.Tables.Laws.{update_nothing, count_nothing}
use go_event_ticket_reservat.Errors.{ok}
use go_event_ticket_reservat.Domain.Seat.{Seat}
use go_event_ticket_reservat.Domain.Reservation.{Reservation}
use go_event_ticket_reservat.World.Rows.{Db}
use go_event_ticket_reservat.Postgres.Tx.Rules.{
  Does, Does-pure, Does-exec_tx, Does-wrapping, Does-mono, Does-require, Does-unwrap_tx, Does-bind,
}
use go_event_ticket_reservat.Postgres.Seats.{
  confirm_seats, release_seats, can_confirm, confirmed_row, released_row, update_confirmed,
  update_released,
}
use go_event_ticket_reservat.Postgres.Reservations.{
  update, update_reservation, row_has_id, updated_row,
}
use go_event_ticket_reservat.Booking.Finish.{Moved}

-- Only the seats that pass `touch` change.
pub record Touched (touch : Seat → Bool) (f : Seat → Seat) (d d' : Db) : Type 0 where
  pub rows : d'.reservations ≡ d.reservations
  pub seats : d'.seats ≡ update_where touch f d.seats
  pub links : d'.reservation_seats ≡ d.reservation_seats

-- As many of the seats that are named were reserved as are named, and they are confirmed.
pub record Confirms (sids : List String) (d d' : Db) : Type 0 where
  pub now : ℕ
  pub full : count_where (can_confirm sids) d.seats ≡ length sids
  pub touched : Touched (can_confirm sids) (confirmed_row now) d d'

-- Only the row of `r` changes.
pub record Updated (r : Reservation) (d d' : Db) : Type 0 where
  pub rows : d'.reservations ≡ update_where (row_has_id r.id) (updated_row r) d.reservations
  pub seats : d'.seats ≡ d.seats
  pub links : d'.reservation_seats ≡ d.reservation_seats

Touched-none :
    (touch : Seat → Bool) (f : Seat → Seat) (d d' : Db)
    → ((s : Seat) → touch s ≡ false)
    → d' ≡ d
    → Touched touch f d d'
Touched-none touch f d d' h same =
    subst (Touched touch f d) (sym same)
      (record { rows = refl; seats = sym (update_nothing touch f d.seats h); links = refl })

pub Moved-then :
    (r : Reservation) (touch : Seat → Bool) (f : Seat → Seat) (d d₁ d' : Db)
    → Touched touch f d d₁
    → Updated r d₁ d'
    → Moved r touch f d d'
Moved-then r touch f d d₁ d' t u = record {
  rows =
      subst (λ k. d'.reservations ≡ update_where (row_has_id r.id) (updated_row r) k) t.rows u.rows;
  seats = u.seats ∙ t.seats;
  links = u.links ∙ t.links;
}

confirmed_lem :
    (sids : List String) (d d₀ d₁ d' : Db) (rows now : ℕ) (fresh : ℕ → String)
    → d₀ ≡ d
    → update_confirmed sids fresh now d₀ ≡ ok (rows, d₁)
    → (nat_beq rows (length sids) ≡ true) × (d' ≡ d₁)
    → Confirms sids d d'
confirmed_lem sids d d₀ d₁ d' rows now fresh e ran (full, same) =
    let ran' : update_confirmed sids fresh now d ≡ ok (rows, d₁) =
      subst (λ k. update_confirmed sids fresh now k ≡ ok (rows, d₁)) e ran in
    record {
      now = now;
      full = ground arith;
      touched = record { rows = ground arith; seats = ground arith; links = ground arith };
    }

pub confirm_seats-Does :
    (sids : List String) → Does (confirm_seats sids) (λ _ d d'. Confirms sids d d')
unfolding confirm_seats
confirm_seats-Does [] =
    Does-mono _
      (λ _ d d' h. record {
        now = 0;
        full = count_nothing (can_confirm []) d.seats (λ s. refl);
        touched = Touched-none _ _ d d' (λ s. refl) h.1;
      })
      (Does-pure tt)
confirm_seats-Does (sid ∷ sids) =
    Does-mono _
      (λ _ d d' h.
        confirmed_lem (sid ∷ sids) d h.1 h.3.1 d' h.3.0 h.3.2.1 h.3.2.0 h.2 h.3.2.2 h.3.3)
      (Does-bind _ _ Does-unwrap_tx λ _ _ _ _.
        Does-bind _ _ (Does-wrapping _ _ (Does-exec_tx _)) λ rows _ _ _. Does-require _ _)

released_lem :
    (sids : List String) (d d₀ d' : Db) (now : ℕ) (fresh : ℕ → String)
    → d₀ ≡ d
    → update_released sids fresh now d₀ ≡ ok (tt, d')
    → (now : ℕ) × Touched (λ s. contains sids s.id) (released_row now) d d'
released_lem sids d d₀ d' now fresh e ran =
    let ran' : update_released sids fresh now d ≡ ok (tt, d') =
      subst (λ k. update_released sids fresh now k ≡ ok (tt, d')) e ran in
    (now, record { rows = ground arith; seats = ground arith; links = ground arith })

pub release_seats-Does :
    (sids : List String)
    → Does
        (release_seats sids)
        (λ _ d d'. (now : ℕ) × Touched (λ s. contains sids s.id) (released_row now) d d')
unfolding release_seats
release_seats-Does [] =
    Does-mono _ (λ _ d d' h. (0, Touched-none _ _ d d' (λ s. refl) h.1)) (Does-pure tt)
release_seats-Does (sid ∷ sids) =
    Does-mono _ (λ _ d d' h. released_lem (sid ∷ sids) d h.1 d' h.3.1 h.3.0 h.2 h.3.2)
      (Does-bind _ _ Does-unwrap_tx λ _ _ _ _. Does-exec_tx _)

updated_lem :
    (r : Reservation) (d d₀ d₁ d' : Db) (rows now : ℕ) (fresh : ℕ → String)
    → d₀ ≡ d
    → update_reservation r fresh now d₀ ≡ ok (rows, d₁)
    → d' ≡ d₁
    → Updated r d d'
updated_lem r d d₀ d₁ d' rows now fresh e ran same =
    let ran' : update_reservation r fresh now d ≡ ok (rows, d₁) =
      subst (λ k. update_reservation r fresh now k ≡ ok (rows, d₁)) e ran in
    record { rows = ground arith; seats = ground arith; links = ground arith }

pub update-Does : (r : Reservation) → Does (update r) (λ _ d d'. Updated r d d')
unfolding update
update-Does r =
    Does-mono _ (λ _ d d' h. updated_lem r d h.1 h.3.1 d' h.3.0 h.3.2.1 h.3.2.0 h.2 h.3.2.2 h.3.3.1)
      (Does-bind _ _ Does-unwrap_tx λ _ _ _ _.
        Does-bind _ _ (Does-wrapping _ _ (Does-exec_tx _)) λ rows _ _ _. Does-require _ _)
