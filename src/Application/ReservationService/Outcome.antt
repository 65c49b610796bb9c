-- ===== src/Application/ReservationService/Outcome.antt =====
-- The branches of CreateReservation in internal/application/reservation_service.go.
use go_event_ticket_reservat.Prelude.{ℕ, String, ◌≡◌, some, List, [], arith, subst, sym, ◌∙◌}
use go_event_ticket_reservat.Prelude.Tables.{find_where}
use go_event_ticket_reservat.Prelude.Int.{ℤ, pos}
use go_event_ticket_reservat.Domain.Seat.{Seat}
use go_event_ticket_reservat.Errors.{Result, ok, err, lock_not_acquired}
use go_event_ticket_reservat.Domain.Reservation.{Reservation, new_reservation}
use go_event_ticket_reservat.World.Rows.{Db, Env, World, ReservationRow}
use go_event_ticket_reservat.World.Exec.{Exec}
use go_event_ticket_reservat.World.Logic.{
  Ends, Reads, Reads-pure, Reads-query, Reads-map_error, Reads-mono, Reads-time_now, Reads-count,
  Reads-same, Reads-then, Reads-wrapping, IsRead-attempt, IsRead-lift, IsRead-require,
  IsRead-wrapping,
}
use go_event_ticket_reservat.Postgres.Tx.Settles.{
  Settles, Settles-mono, Settles-Reads, Settles-deferred, Settles-if, Settles-transaction,
  Settles-read, Settles-after, Settles-fail, Lands-bind, Lands-commit, Succeeds, Succeeds-pure,
  Succeeds-count, Succeeds-attempt_then, Succeeds-if, Succeeds-bind, Returned, Reads-attempted,
}
use go_event_ticket_reservat.Postgres.Seats.{row_or_none}
use go_event_ticket_reservat.Postgres.Reservations
use go_event_ticket_reservat.Postgres.Reservations.{row_has_key, links_of, to_entity}
use go_event_ticket_reservat.Redis.Cache
use go_event_ticket_reservat.Redis.Lock.{Lock, release, acquire_lock_with_retry}
use go_event_ticket_reservat.World.Logic.{read_rules}
use go_event_ticket_reservat.Booking.Reserve.{Reserved}
use go_event_ticket_reservat.Booking.Effects.{Created, create-Does, reserve_seats-Does}
use go_event_ticket_reservat.Application.ReservationService.{
  ReservationService, CreateReservationInput, store_reservation, create_checked, with_lock,
  create_new, unless_existing, create_reservation, invalidate_seat_cache, seat_map,
}
use go_event_ticket_reservat.Application.ReservationService.Create.{
  get_event-IsRead, release-IsRead, acquire_rounds-IsRead,
}
use go_event_ticket_reservat.Application.ReservationService.Finish.{get_seat_ids-Reads}
use go_event_ticket_reservat.Application.ReservationService.Priced.{
  Priced, Priced-found, AllOf, Row, Looked, check_seats-Reads, get_by_event_id-Reads,
}

-- The reservation and its links are inserted, and as many available seats as there are ids are
-- reserved for it.
pub record Stored (r stored : Reservation) (d d' : Db) : Type 0 where
  pub middle : Db
  pub now : ℕ
  pub is_created : Created r stored d middle
  pub is_reserved : Reserved stored.id r.seat_ids now middle d'

pub invalidate-Succeeds :
    (s : ReservationService) (id : String) → Succeeds (invalidate_seat_cache s id) tt
unfolding invalidate_seat_cache Cache.invalidate
invalidate-Succeeds s id =
    Succeeds-if _ _ _ (Succeeds-attempt_then _ _ (search read_rules depth 8) (Succeeds-pure tt))
      (Succeeds-pure tt)

pub store_reservation-Settles :
    (s : ReservationService) (r : Reservation)
    → Settles (store_reservation s r r.seat_ids) (λ d stored d'. Stored r stored d d')
unfolding store_reservation
store_reservation-Settles s r =
    Settles-mono _ (λ d stored d' h. stored_lem r stored h.0 d h.1 h.3.1 d' h.2 h.3.2 h.3.3)
      (Settles-transaction _ _ (
        Lands-bind _ _ (create-Does r) λ stored.
          Lands-bind _ _ (reserve_seats-Does r.seat_ids stored.id) λ _. Lands-commit _ _ (
            Succeeds-bind _ _ (Succeeds-count _)
              (Succeeds-bind _ _ (invalidate-Succeeds s stored.event_id) (Succeeds-pure stored)))))
  where
    stored_lem :
        (r out stored : Reservation) (d d₁ d₂ d' : Db)
        → Created r stored d d₁
        → (now : ℕ) × Reserved stored.id r.seat_ids now d₁ d₂
        → (out ≡ stored) × (d' ≡ d₂)
        → Stored r out d d'
    stored_lem r out stored d d₁ d₂ d' c (now, u) (is, same) =
        subst (λ k. Stored r k d d') (sym is)
          (subst (Stored r stored d) (sym same)
            (record { middle = d₁; now = now; is_created = c; is_reserved = u }))

module _ (input : CreateReservationInput) where
  -- A new reservation, from the input, is stored.
  pub record New (d : Db) (res : Reservation) (d' : Db) : Type 0 where
    pub now : ℕ
    pub total : ℤ
    pub priced : Priced d input.event_id input.seat_ids (pos 0) total
    pub is_stored :
        Stored
          (new_reservation now input.event_id input.user_id input.idempotency_key input.seat_ids
            total)
          res
          d
          d'

  -- The reservation with the key of the input is returned.
  pub record Existing (d : Db) (res : Reservation) (d' : Db) : Type 0 where
    pub unchanged : d' ≡ d
    pub row : ReservationRow
    pub found : find_where (row_has_key input.idempotency_key) d.reservations ≡ some row
    pub is : res ≡ to_entity row (links_of row.id d.reservation_seats)

  pub data Outcome (d : Db) (res : Reservation) (d' : Db) : Type 0 where
    existing : Existing d res d' → Outcome d res d'
    new : New d res d' → Outcome d res d'

  -- A new reservation with that total is stored.
  abbrev MadeFor : ℤ → Db → Reservation → Db → Type 0
  MadeFor total d res d' =
      (created : ℕ) × Stored
        (new_reservation created input.event_id input.user_id input.idempotency_key input.seat_ids
          total)
        res d d'

  create_checked-Settles : (s : ReservationService) → Settles (create_checked s input) New
  unfolding create_checked new_reservation
  create_checked-Settles s =
      Settles-after _ _ (IsRead-wrapping _ _ (get_event-IsRead input.event_id)) λ ev.
        Settles-after _ _ Reads-time_now λ now. Settles-after _ _ (IsRead-require _ _) λ _.
          Settles-mono _ (λ d res d' h. made d res d' h.0 h.2.0 h.1 h.2.1 h.2.2)
            (Settles-read _ _ (Reads-wrapping _ _ (get_by_event_id-Reads input.event_id)) λ seats.
              Settles-read {S = MadeFor} _ _ (check_seats-Reads _ input.seat_ids (pos 0)) λ total.
                Settles-after _ _ Reads-time_now λ created. Settles-after _ _ (IsRead-lift _) λ _.
                  Settles-mono _ (λ d res d' h. (created, h))
                    (store_reservation-Settles s (
                      new_reservation created input.event_id input.user_id input.idempotency_key
                        input.seat_ids total)))
    where
      made :
          (d : Db) (res : Reservation) (d' : Db) (seats : List Seat) (total : ℤ)
          → AllOf (Row d input.event_id) seats
          → Looked (seat_map seats []) input.seat_ids (pos 0) total
          → MadeFor total d res d'
          → New d res d'
      made d res d' seats total rows looked (created, h) = record {
        now = created;
        total = total;
        priced = Priced-found d input.event_id seats input.seat_ids total rows looked;
        is_stored = h;
      }

  with_lock-Settles :
      (r : Result Lock) (body : Exec Reservation)
      → Settles body New
      → Settles (with_lock r body) New
  unfolding with_lock
  with_lock-Settles (ok lock) body h =
      Settles-deferred body (release lock) h (Reads-same (release lock) (release-IsRead lock))
  with_lock-Settles (err e) body h = Settles-after _ _ (Reads-count _) (λ _. Settles-fail _)

  create_new-Settles : (s : ReservationService) → Settles (create_new s input) New
  unfolding create_new acquire_lock_with_retry
  create_new-Settles s =
      Settles-if s.lock_manager _ _
        (Settles-after _ _ (IsRead-attempt _ (acquire_rounds-IsRead 3 lock_not_acquired _ _))
          λ r. with_lock-Settles r _ (create_checked-Settles s))
        (create_checked-Settles s)

  abbrev Keyed : Reservation → Db → Type 0
  Keyed res d =
      (row : ReservationRow) × (find_where (row_has_key input.idempotency_key) d.reservations
        ≡ some row)
      × (res ≡ to_entity row (links_of row.id d.reservation_seats))

  get_by_key-Reads : Reads (Reservations.get_by_idempotency_key input.idempotency_key) Keyed
  unfolding Reservations.get_by_idempotency_key
  get_by_key-Reads =
      Reads-mono _ (λ r d h. keyed r d h.0 h.1 h.2.0 h.2.1 h.2.2)
        (Reads-then _ _ (Reads-map_error _ _ (Reads-query _))
          λ row. Reads-then _ _ (get_seat_ids-Reads row.id) λ ids. Reads-pure _)
    where
      keyed :
          (r : Reservation) (d : Db) (row : ReservationRow)
          → (e : Env) × (row_or_none (find_where (row_has_key input.idempotency_key) d.reservations)
              ≡ ok row)
          → (ids : List String) → ids ≡ links_of row.id d.reservation_seats
          → r ≡ to_entity row ids
          → Keyed r d
      keyed r d row (_, e) ids links is = (row, ground arith, rw (← links) is)

  unless_existing-Settles :
      (s : ReservationService) (r : Result Reservation)
      → Settles
          (unless_existing r (create_new s input))
          (λ d res d'. Returned Keyed r d → Outcome d res d')
  unfolding unless_existing
  unless_existing-Settles s (ok found) =
      Settles-mono _
        (λ d res d' h k.
          Outcome.existing (record { unchanged = h.0; row = k.0; found = k.1; is = h.1 ∙ k.2 }))
        (Settles-Reads _ (Reads-pure found))
  unless_existing-Settles s (err e) =
      Settles-if _ _ _ (Settles-mono _ (λ d res d' h k. Outcome.new h) (create_new-Settles s))
        (Settles-fail _)

  -- CreateReservation fails and leaves the database as it was, or it returns the reservation that
  -- has the key of the input and leaves the database as it was, or it stores a new pending
  -- reservation with the input's fields, whose key and id no row had, with a link to each seat, and
  -- reserves as many available seats as there are ids. Its total is the sum in 64 bits of the prices
  -- of its seats, each of which is a row of the event's and free.
  pub create_reservation-Outcome :
      (s : ReservationService) (w : World)
      → Ends
          (create_reservation s input w).0
          (create_reservation s input w).1
          (λ res w'. Outcome w.db res w'.db)
          (λ w'. w'.db ≡ w.db)
  unfolding create_reservation
  create_reservation-Outcome s w =
      (Settles-mono _ (λ d res d' h. h.2 h.1)
          (Settles-read _ _ (Reads-attempted _ get_by_key-Reads) (unless_existing-Settles s))).run
        w
