-- ===== src/Booking/Effects.antt =====
-- What the repositories' functions do to the copy in a transaction.
use go_event_ticket_reservat.Prelude.{
  ℕ, String, ◌≡◌, refl, subst, sym, ◌∙◌, true, List, [], ◌∷◌, ◌++◌, arith, eq_iff, is_some, length,
  nat_beq, ◌==◌, ◌||◌, ◌&&◌, ap,
}
use go_event_ticket_reservat.Prelude.Tables.{find_where, contains}
use go_event_ticket_reservat.Prelude.Tables.Laws.{find-append, count_nothing, update_nothing}
use go_event_ticket_reservat.Errors.{ok}
use go_event_ticket_reservat.Domain.Reservation.{Reservation}
use go_event_ticket_reservat.World.Rows.{Db}
use go_event_ticket_reservat.Postgres.Tx.Rules.{
  Does, Does-pure, Does-exec_tx, Does-map_error, Does-wrapping, Does-mono, Does-require,
  Does-unwrap_tx, Does-bind,
}
use go_event_ticket_reservat.Postgres.Seats.{
  reserve_seats, can_reserve, reserved_row, update_reserved,
}
use go_event_ticket_reservat.Postgres.Reservations.{
  create, insert_reservation, insert_link, insert_links, is_link, create_error,
}
use go_event_ticket_reservat.Booking.{linked}
use go_event_ticket_reservat.Booking.Reserve.{Inserted, Linked, Reserved}

insert_reservation_lem :
    (id i : String) (r : Reservation) (d d' : Db)
    → insert_reservation id r d ≡ ok (i, d')
    → (i ≡ id) × Inserted id r d d'
unfolding insert_reservation
insert_reservation_lem id i r d d' e = (
  ground arith,
  record {
    new_id = ground arith;
    new_key = ground arith;
    rows = ground arith;
    seats = ground arith;
    links = ground arith;
  },
)

insert_link_lem :
    (id sid : String) (d d' : Db)
    → insert_link id sid d ≡ ok (tt, d')
    → d' ≡ record d { reservation_seats = d.reservation_seats ++ (id, sid) ∷ [] }
unfolding insert_link
insert_link_lem id sid d d' e = ground arith

Linked-nil : (id : String) (d : Db) → Linked id [] d d
Linked-nil id d = record { rows = refl; seats = refl; links = λ r s. ground arith }

linked-append :
    (id sid r s : String) (sids : List String) (d : Db)
    → (is_some (find_where (is_link r s) (d.reservation_seats ++ (id, sid) ∷ []))
        || ((id == r) && contains sids s))
      ≡ (linked d r s || ((id == r) && contains (sid ∷ sids) s))
linked-append id sid r s sids d =
    rw (find-append (is_link r s) d.reservation_seats ((id, sid) ∷ []))
      (ground (arith, eq_iff sid s, eq_iff s sid))

Linked-cons :
    (id sid : String) (sids : List String) (d d₁ d₂ : Db)
    → insert_link id sid d ≡ ok (tt, d₁)
    → Linked id sids d₁ d₂
    → Linked id (sid ∷ sids) d d₂
Linked-cons id sid sids d d₁ d₂ e l =
    let step = insert_link_lem id sid d d₁ e in
    record {
      rows = l.rows ∙ ap (λ (k : Db). k.reservations) step;
      seats = l.seats ∙ ap (λ (k : Db). k.seats) step;
      links = λ r s. l.links r s ∙ rw step (linked-append id sid r s sids d);
    }

insert_links-Does :
    (id : String) (sids : List String) → Does (insert_links id sids) (λ _ d d'. Linked id sids d d')
unfolding insert_links
insert_links-Does id [] =
    Does-mono _ (λ a d d' h. subst (Linked id [] d) (sym h.1) (Linked-nil id d)) (Does-pure tt)
insert_links-Does id (sid ∷ sids) =
    Does-mono _ (λ b d d'' h. Linked-cons id sid sids d h.1 d'' h.2.2 h.3)
      (Does-bind _ _ (Does-wrapping _ _ (Does-exec_tx _)) (λ _ d d' _. insert_links-Does id sids))

-- Create: the row of the reservation, and then its links
pub record Created (r stored : Reservation) (d d' : Db) : Type 0 where
  pub id : String
  pub middle : Db
  pub is_stored : stored ≡ record r { id = id }
  pub inserted : Inserted id r d middle
  pub links : Linked id r.seat_ids middle d'

created :
    (r stored : Reservation) (d d₀ d₁ d₂ d' : Db) (id new : String)
    → d₀ ≡ d
    → insert_reservation new r d₀ ≡ ok (id, d₁)
    → Linked id r.seat_ids d₁ d₂
    → (stored ≡ record r { id = id }) × (d' ≡ d₂)
    → Created r stored d d'
created r stored d d₀ d₁ d₂ d' id new e ran l (is, same) =
    let ran' : insert_reservation new r d ≡ ok (id, d₁) =
      subst (λ k. insert_reservation new r k ≡ ok (id, d₁)) e ran in
    let (i, ins) = insert_reservation_lem new id r d d₁ ran' in
    record {
      id = id;
      middle = d₁;
      is_stored = is;
      inserted = subst (λ k. Inserted k r d d₁) (sym i) ins;
      links = subst (Linked id r.seat_ids d₁) (sym same) l;
    }

pub create-Does : (r : Reservation) → Does (create r) (λ stored d d'. Created r stored d d')
unfolding create
create-Does r =
    Does-mono _
      (λ b d d' h. created r b d h.1 h.3.1 h.3.3.1 d' h.3.0 (h.3.2.0 0) h.2 h.3.2.2 h.3.3.2 h.3.3.3)
      (Does-bind _ _ Does-unwrap_tx λ _ _ _ _.
        Does-bind _ _ (Does-map_error create_error _ (Does-exec_tx _))
          λ id _ _ _. Does-bind _ _ (insert_links-Does id r.seat_ids) λ _ _ _ _. Does-pure _)

Reserved-none : (id : String) (now : ℕ) (d : Db) → Reserved id [] now d d
Reserved-none id now d = record {
  full = count_nothing (can_reserve []) d.seats (λ s. refl);
  rows = refl;
  seats = sym (update_nothing (can_reserve []) (reserved_row id now) d.seats (λ s. refl));
  links = refl;
}

reserved :
    (sids : List String) (id : String) (d d₀ d₁ d' : Db) (rows now : ℕ) (fresh : ℕ → String)
    → d₀ ≡ d
    → update_reserved sids id fresh now d₀ ≡ ok (rows, d₁)
    → (nat_beq rows (length sids) ≡ true) × (d' ≡ d₁)
    → (now : ℕ) × Reserved id sids now d d'
reserved sids id d d₀ d₁ d' rows now fresh e ran (full, same) =
    let ran' : update_reserved sids id fresh now d ≡ ok (rows, d₁) =
      subst (λ k. update_reserved sids id fresh now k ≡ ok (rows, d₁)) e ran in
    (
      now,
      record {
        full = ground arith;
        rows = ground arith;
        seats = ground arith;
        links = ground arith;
      },
    )

-- ReserveSeats, if it succeeds: every id had an available seat, which is now reserved.
pub reserve_seats-Does :
    (sids : List String) (id : String)
    → Does (reserve_seats sids id) (λ _ d d'. (now : ℕ) × Reserved id sids now d d')
unfolding reserve_seats
reserve_seats-Does [] id =
    Does-mono _ (λ _ d d' h. (0, subst (Reserved id [] 0 d) (sym h.1) (Reserved-none id 0 d)))
      (Does-pure tt)
reserve_seats-Does (sid ∷ sids) id =
    Does-mono _
      (λ b d d' h. reserved (sid ∷ sids) id d h.1 h.3.1 d' h.3.0 h.3.2.1 h.3.2.0 h.2 h.3.2.2 h.3.3)
      (Does-bind _ _ Does-unwrap_tx λ _ _ _ _.
        Does-bind _ _ (Does-wrapping _ _ (Does-exec_tx _)) λ rows _ _ _. Does-require _ _)
