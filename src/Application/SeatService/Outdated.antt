-- ===== src/Application/SeatService/Outdated.antt =====
-- CreateSeat of internal/application/seat_service.go leaves the count of CountAvailableSeats in the
-- cache as it was.
use go_event_ticket_reservat.Prelude.{
  ℕ, suc, ◌+◌, String, ◌≡◌, refl, sym, ap, ◌∙◌, true, false, Bool-cases, inl, inr, none, some, [],
  ◌∷◌, ◌++◌, eq_iff, arith,
}
use go_event_ticket_reservat.Prelude.Int.{ℤ, pos}
use go_event_ticket_reservat.Prelude.Tables.{count_where}
use go_event_ticket_reservat.Prelude.Tables.Laws.{count-append}
use go_event_ticket_reservat.Errors.{Result, ok, err, driver, is_redis_nil}
use go_event_ticket_reservat.Domain.Seat.{Seat, new_seat}
use go_event_ticket_reservat.World.Rows.{Db, World}
use go_event_ticket_reservat.World.Exec.{
  Exec, pure, lift, attempt, map_error, wrapping, query, exec_db, send, time_now, sample, write_db,
  continue, ◌>>=◌,
}
use go_event_ticket_reservat.World.Logic.{Ends, IsRead-lift, IsRead-wrapping, Reads-time_now}
use go_event_ticket_reservat.Postgres.Tx.Settles.{
  Settles, Settles-mono, Settles-after, Succeeds-pure,
}
use go_event_ticket_reservat.Postgres.Tx.Single.{Settles-exec_db, Settles-then}
use go_event_ticket_reservat.Application.ReservationService.Create.{get_event-IsRead}
use go_event_ticket_reservat.Postgres.Seats
use go_event_ticket_reservat.Postgres.Seats.{seat_row, is_available_of, insert_seat}
use go_event_ticket_reservat.Postgres.Events
use go_event_ticket_reservat.Redis.Cache
use go_event_ticket_reservat.Redis.Cache.{available_count_key}
use go_event_ticket_reservat.Redis.Cache.Replay.{cached}
use go_event_ticket_reservat.Application.SeatService.{
  SeatService, CreateSeatInput, create_seat, count_available_seats, count_and_cache,
}

-- The seats of the event that are free
abbrev pub free_seats : String → Db → ℕ
free_seats event_id d = count_where (is_available_of event_id) d.seats

module _ (s : SeatService) (event_id : String) (w : World) (has : s.cache ≡ true)
    (missed : w.env.reply_get w.at ≡ some none) where
  count_fails : w.env.fails (suc w.at) ≡ true → (count_available_seats s event_id w).0 ≡ err driver
  unfolding count_available_seats count_and_cache Cache.get_available_count attempt map_error send
      lift ◌>>=◌ query is_redis_nil Seats.count_available_by_event_id
  count_fails e = rw (has, missed, e) refl

  record Counted : Type 0 where
    answer : (count_available_seats s event_id w).0 ≡ ok (pos (free_seats event_id w.db))
    kept :
        cached (count_available_seats s event_id w).1.sent (available_count_key event_id)
        ≡ some (pos (free_seats event_id w.db))

  count_works : w.env.fails (suc w.at) ≡ false → Counted
  unfolding count_available_seats count_and_cache Cache.get_available_count attempt map_error send
      lift ◌>>=◌ query is_redis_nil Seats.count_available_by_event_id pure Cache.set_available_count
  count_works e = record {
    answer = rw (has, missed, e) refl;
    kept =
        rw
          (
            has,
            missed,
            e,
            (eq_iff (available_count_key event_id) (available_count_key event_id)).1 refl,
          )
          refl;
  }

  count-Counted : (n : ℤ) → (count_available_seats s event_id w).0 ≡ ok n → Counted
  count-Counted n is = elim (Bool-cases (w.env.fails (suc w.at))) [
    | inl e ↦ absurd (cc (sym (count_fails e) ∙ is))
    | inr e ↦ count_works e
  ]

-- It sends nothing to Redis.
record Quiet {A : Type 0} (m : Exec A) : Type 0 where
  run : (w : World) → (m w).1.sent ≡ w.sent

module _ {A B : Type 0} where
  sent-continue :
      (f : A → Exec B) (r : Result A) (w w₀ : World)
      → ((a : A) → Quiet (f a))
      → w.sent ≡ w₀.sent
      → (continue r f w).1.sent ≡ w₀.sent
  sent-continue f (ok a) w w₀ h e = (h a).run w ∙ e
  sent-continue f (err x) w w₀ h e = e

  Quiet-bind : (m : Exec A) (f : A → Exec B) → Quiet m → ((a : A) → Quiet (f a)) → Quiet (m >>= f)
  unfolding ◌>>=◌
  Quiet-bind m f h k = record { run = λ w. sent-continue f (m w).0 (m w).1 w k (h.run w) }

sent-write_db : {A : Type 0} (r : Result (A × Db)) (w : World) → (write_db r w).1.sent ≡ w.sent
sent-write_db (ok (a, d)) w = refl
sent-write_db (err e) w = refl

create_seat-Quiet : (input : CreateSeatInput) → Quiet (create_seat input)
unfolding create_seat wrapping map_error Events.get_by_id Seats.create query time_now sample lift
    pure exec_db
create_seat-Quiet input =
    Quiet-bind _ _
      (record {
        run = (Quiet-bind _ _ (record { run = λ w. refl }) (λ row. record { run = λ w. refl })).run;
      })
      λ ev.
        Quiet-bind _ _ (record { run = λ w. refl })
          λ now.
            Quiet-bind _ _ (record { run = λ w. refl })
              λ _.
                Quiet-bind _ _ (record { run = λ w. sent-write_db _ (record w { at = suc w.at }) })
                  λ id. record { run = λ w. refl }

-- The row of the new seat
abbrev made_row : CreateSeatInput → ℕ → String → Seat
made_row input now id = seat_row id (new_seat now input.event_id input.seat_number input.price)

insert_seat-rows :
    (id : String) (se : Seat) (i : String) (d d' : Db)
    → insert_seat id se d ≡ ok (i, d')
    → d'.seats ≡ d.seats ++ seat_row id se ∷ []
unfolding insert_seat
insert_seat-rows id se i d d' e = ground arith

create_seat-Adds :
    (input : CreateSeatInput)
    → Settles
        (create_seat input)
        (λ d se d'. (now : ℕ) × (id : String) × (d'.seats ≡ d.seats ++ made_row input now id ∷ []))
unfolding create_seat Seats.create
create_seat-Adds input = Settles-after _ _ (IsRead-wrapping _ _ (get_event-IsRead _)) λ _.
    Settles-after _ _ Reads-time_now λ now. Settles-after _ _ (IsRead-lift _) λ _.
      Settles-mono _ (λ d se d' h. (now, _, insert_seat-rows _ _ _ d d' h.1.2))
        (Settles-then _ _ _ (Settles-exec_db _) (λ id. Succeeds-pure _))

count_hit :
    (s : SeatService) (event_id : String) (w : World) (n : ℤ)
    → s.cache ≡ true
    → w.env.reply_get w.at ≡ some (some n)
    → (count_available_seats s event_id w).0 ≡ ok n
unfolding count_available_seats Cache.get_available_count attempt map_error send lift pure ◌>>=◌
count_hit s event_id w n has hit = rw (has, hit) refl

one_more :
    (input : CreateSeatInput) (now : ℕ) (id : String) (d d' : Db)
    → d'.seats ≡ d.seats ++ made_row input now id ∷ []
    → free_seats input.event_id d' ≡ free_seats input.event_id d + 1
unfolding new_seat
one_more input now id d d' e =
    rw (e, count-append) (ground (arith, eq_iff input.event_id input.event_id))

-- What CreateSeat has added, where it succeeds
added :
    (input : CreateSeatInput) (w : World) (se : Seat)
    → (create_seat input w).0 ≡ ok se
    → free_seats input.event_id (create_seat input w).1.db ≡ free_seats input.event_id w.db + 1
added input w se is =
    succeeded (create_seat input w).0 (create_seat input w).1 is ((create_seat-Adds input).run w)
  where
    succeeded :
        (r : Result Seat) (w' : World)
        → r ≡ ok se
        → Ends r w'
            (λ se w'.
              (now : ℕ) × (id : String) × (w'.db.seats ≡ w.db.seats ++ made_row input now id ∷ []))
            (λ w'. w'.db ≡ w.db)
        → free_seats input.event_id w'.db ≡ free_seats input.event_id w.db + 1
    succeeded (ok se) w' e (now, id, rows) = one_more input now id w.db w'.db rows
    succeeded (err x) w' e h = absurd cc

-- A count that CountAvailableSeats has read from the database and kept in the cache is answered again
-- after CreateSeat has added a seat to the event, as long as the key has not expired and nothing else
-- was sent to Redis: it is one too small then.
pub create_seat-Outdated :
    (s : SeatService) (input : CreateSeatInput) (w w₁ w₂ : World) (n : ℤ) (se : Seat)
    → s.cache ≡ true
    → w.env.reply_get w.at ≡ some none
    → (count_available_seats s input.event_id w).0 ≡ ok n
    → w₁.db ≡ w.db
    → w₁.sent ≡ (count_available_seats s input.event_id w).1.sent
    → (create_seat input w₁).0 ≡ ok se
    → w₂.db ≡ (create_seat input w₁).1.db
    → w₂.sent ≡ (create_seat input w₁).1.sent
    → w₂.env.reply_get w₂.at ≡ some (cached w₂.sent (available_count_key input.event_id))
    → ((count_available_seats s input.event_id w₂).0 ≡ ok (pos (free_seats input.event_id w.db)))
      × (free_seats input.event_id w₂.db ≡ free_seats input.event_id w.db + 1)
create_seat-Outdated s input w w₁ w₂ n se has missed counts same₁ sent₁ makes same₂ sent₂ replies =
    let c = count-Counted s input.event_id w has missed n counts in
    let sent = sent₂ ∙ (create_seat-Quiet input).run w₁ ∙ sent₁ in
    let key = available_count_key input.event_id in
    let hit = replies ∙ ap some (ap (λ cs. cached cs key) sent ∙ c.kept) in
    (
      count_hit s input.event_id w₂ (pos (free_seats input.event_id w.db)) has hit,
      ap (free_seats input.event_id) same₂
          ∙ added input w₁ se makes
          ∙ ap (λ d. free_seats input.event_id d + 1) same₁,
    )
