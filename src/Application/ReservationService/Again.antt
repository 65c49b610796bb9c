-- ===== src/Application/ReservationService/Again.antt =====
-- A request of CreateReservation that is sent again.
use go_event_ticket_reservat.Prelude.{
  ℕ, suc, String, ◌≡◌, refl, sym, subst, ap, ◌∙◌, inl, inr, Bool-cases, false, some, none, List,
  arith, eq_iff, ◌⊎◌, ◌==◌, ◌||◌, ◌&&◌,
}
use go_event_ticket_reservat.Prelude.Tables.{find_where, contains}
use go_event_ticket_reservat.Prelude.Tables.Laws.{find-append}
use go_event_ticket_reservat.Errors.{ok}
use go_event_ticket_reservat.Domain.Reservation.{Reservation, new_reservation}
use go_event_ticket_reservat.World.Rows.{Db, World, ReservationRow}
use go_event_ticket_reservat.World.Exec.{pure, attempt, map_error, wrapping, query, ◌>>=◌}
use go_event_ticket_reservat.Postgres.Timestamp.{timestamp}
use go_event_ticket_reservat.Postgres.Reservations
use go_event_ticket_reservat.Postgres.Reservations.{
  row_has_id, row_has_key, reservation_row, links_of, to_entity, get_by_idempotency_key,
}
use go_event_ticket_reservat.Booking.{Consistent, linked, contains-links_of}
use go_event_ticket_reservat.Booking.Reserve.{Reserved, rows₃, linked₃}
use go_event_ticket_reservat.Application.ReservationService.{
  ReservationService, CreateReservationInput, create_reservation, unless_existing,
}
use go_event_ticket_reservat.Application.ReservationService.Outcome.{
  New, Outcome, existing, new, create_reservation-Outcome,
}
use go_event_ticket_reservat.Application.ReservationService.Ended.{Ends-ok}

-- A time as it was, or rounded by its column
abbrev pub Kept : ℕ → ℕ → Type 0
Kept t u = (u ≡ t) ⊎ (u ≡ timestamp t)

-- The same reservation; its seats may be listed in another order, and three times be rounded.
pub record Same (res again : Reservation) : Type 0 where
  pub rest : again ≡ record res {
    seat_ids = again.seat_ids;
    expires_at = again.expires_at;
    created_at = again.created_at;
    updated_at = again.updated_at;
  }
  pub seats : (sid : String) → contains again.seat_ids sid ≡ contains res.seat_ids sid
  pub expires : Kept res.expires_at again.expires_at
  pub created : Kept res.created_at again.created_at
  pub updated : Kept res.updated_at again.updated_at

fresh_link :
    (d : Db) (id sid : String) (sids : List String)
    → Consistent d
    → find_where (row_has_id id) d.reservations ≡ none
    → (linked d id sid || ((id == id) && contains sids sid)) ≡ contains sids sid
fresh_link d id sid sids c unknown = elim (Bool-cases (linked d id sid)) [
  | inl old ↦ absurd (ground (arith, c.links_known id sid old, unknown))
  | inr e ↦ ground (arith, e, eq_iff id id)
]

module _ (input : CreateReservationInput) where
  -- The row with the key of the input stands for the reservation.
  record Filed (res : Reservation) (d : Db) : Type 0 where
    row : ReservationRow
    found : find_where (row_has_key input.idempotency_key) d.reservations ≡ some row
    same : Same res (to_entity row (links_of row.id d.reservation_seats))

  Filed-New : (d d' : Db) (res : Reservation) → Consistent d → New input d res d' → Filed res d'
  unfolding new_reservation to_entity
  Filed-New d d' res c n =
      let r =
        new_reservation n.now input.event_id input.user_id input.idempotency_key input.seat_ids
          n.total in
      let st = n.is_stored in
      let made = st.is_created in
      let id_is : res.id ≡ made.id = ap (λ (k : Reservation). k.id) made.is_stored in
      let u = subst (λ k. Reserved k r.seat_ids st.now st.middle d') id_is st.is_reserved in
      let rows =
        rows₃ made.id r r.seat_ids st.now d made.middle st.middle d' c made.inserted made.links u in
      let links =
        linked₃ made.id r r.seat_ids st.now d made.middle st.middle d' c made.inserted made.links
          u in
      record {
        row = reservation_row made.id r;
        found =
            rw
              (
                rows,
                find-append (row_has_key input.idempotency_key) d.reservations,
                made.inserted.new_key,
              )
              (ground (arith, eq_iff input.idempotency_key input.idempotency_key));
        same = record {
          rest = rw made.is_stored refl;
          seats = λ sid.
              contains-links_of made.id sid d'.reservation_seats
              ∙ links made.id sid
              ∙ fresh_link d made.id sid input.seat_ids c made.inserted.new_id
              ∙ sym (ap (λ (k : Reservation). contains k.seat_ids sid) made.is_stored);
          expires = inr (rw made.is_stored refl);
          created = inr (rw made.is_stored refl);
          updated = inr (rw made.is_stored refl);
        };
      }

  Filed-Outcome :
      (d d' : Db) (res : Reservation) → Consistent d → Outcome input d res d' → Filed res d'
  Filed-Outcome d d' res c (new n) = Filed-New d d' res c n
  Filed-Outcome d d' res c (existing e) = record {
    row = e.row;
    found = rw e.unchanged e.found;
    same =
        subst (λ k. Same res (to_entity e.row (links_of e.row.id k.reservation_seats)))
          (sym e.unchanged)
          (subst (λ k. Same k (to_entity e.row (links_of e.row.id d.reservation_seats))) (sym e.is)
            (record {
              rest = refl;
              seats = λ sid. refl;
              expires = inl refl;
              created = inl refl;
              updated = inl refl;
            }));
  }

-- After a request that succeeded from a consistent database, any request with the same key, when no
-- other call has changed the database since and the driver does not fail, returns the same
-- reservation, whatever else it asks for, and changes nothing; its seats may be listed in another
-- order, and its times, which are of UTC, be rounded to the microseconds that the columns keep.
pub create_reservation-Again :
    (s : ReservationService) (input again : CreateReservationInput) (w w' : World)
    (res : Reservation)
    → Consistent w.db
    → (create_reservation s input w).0 ≡ ok res
    → w'.db ≡ (create_reservation s input w).1.db
    → again.idempotency_key ≡ input.idempotency_key
    → ((n : ℕ) → w'.env.fails n ≡ false)
    → ((out : Reservation) × ((create_reservation s again w').0 ≡ ok out) × Same res out)
      × ((create_reservation s again w').1.db ≡ w'.db)
unfolding create_reservation unless_existing get_by_idempotency_key Reservations.get_seat_ids
    map_error wrapping query attempt pure ◌>>=◌
create_reservation-Again s input again w w' res c ran same key works =
    let made =
      Ends-ok _ (create_reservation s input w).1 res _ _ ran
        (create_reservation-Outcome input s w) in
    let f = Filed-Outcome input w.db w'.db res c (subst (Outcome input w.db res) (sym same) made) in
    let found : find_where (row_has_key again.idempotency_key) w'.db.reservations ≡ some f.row =
      rw key f.found in
    (
      (
        to_entity f.row (links_of f.row.id w'.db.reservation_seats),
        rw (works w'.at, found, works (suc w'.at)) refl,
        f.same,
      ),
      rw (works w'.at, found, works (suc w'.at)) refl,
    )
