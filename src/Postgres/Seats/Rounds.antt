-- ===== src/Postgres/Seats/Rounds.antt =====
-- The loop over the batches of CreateBulk in internal/infrastructure/postgres/seat_repository.go ends.
use go_event_ticket_reservat.Prelude.{
  ℕ, zero, suc, ◌+◌, ◌≤◌, ◌≡◌, refl, sym, false, List, [], length, ltb, arith,
}
use go_event_ticket_reservat.Domain.Seat.{Seat}
use go_event_ticket_reservat.World.Exec.{pure}
use go_event_ticket_reservat.Postgres.Seats.{create_bulk_from, create_bulk, batch_size}

ended :
    (rounds i : ℕ) (seats : List Seat)
    → length seats ≤ i
    → create_bulk_from rounds i seats ≡ pure []
unfolding create_bulk_from
ended zero i seats h = refl
ended (suc rounds) i seats h =
    let over : ltb i (length seats) ≡ false = ground (arith, h) in rw over refl

same_rounds :
    (r₁ r₂ i : ℕ) (seats : List Seat)
    → length seats ≤ i + r₁
    → length seats ≤ i + r₂
    → create_bulk_from r₁ i seats ≡ create_bulk_from r₂ i seats
unfolding create_bulk_from
same_rounds zero r₂ i seats h k = sym (ended r₂ i seats (omega (arith, h)))
same_rounds (suc r₁) zero i seats h k = ended (suc r₁) i seats (omega (arith, k))
same_rounds (suc r₁) (suc r₂) i seats h k =
    rw (same_rounds r₁ r₂ (i + batch_size) seats (omega (arith, h)) (omega (arith, k))) refl

-- The loop of CreateBulk ends by its own condition: with as many rounds as there are seats or more it
-- does what CreateBulk does, however many more.
pub create_bulk-Enough :
    (rounds : ℕ) (seats : List Seat)
    → length seats ≤ rounds
    → create_bulk_from rounds 0 seats ≡ create_bulk seats
unfolding create_bulk
create_bulk-Enough rounds seats h =
    same_rounds rounds (length seats) 0 seats (omega (arith, h)) (omega arith)
