-- ===== src/Application/SeatService/Numbered.antt =====
-- The seats that CreateBulkSeats of internal/application/seat_service.go makes.
use go_event_ticket_reservat.Prelude.{
  ℕ, zero, suc, String, ◌≡◌, refl, sym, ap, subst, ◌∙◌, List, [], ◌∷◌, map, length,
}
use go_event_ticket_reservat.Prelude.Int.{ℤ, pos_part}
use go_event_ticket_reservat.Errors.{Result, ok, err}
use go_event_ticket_reservat.Domain.Seat
use go_event_ticket_reservat.Domain.Seat.{Seat, new_seat, Status, available}
use go_event_ticket_reservat.World.Rows.{World}
use go_event_ticket_reservat.World.Exec.{pure, lift, time_now, wrapping, ◌>>=◌}
use go_event_ticket_reservat.Postgres.Events
use go_event_ticket_reservat.Postgres.Seats
use go_event_ticket_reservat.Postgres.Seats.Bulk.{Holds, Holds-continue, given, create_bulk-given}
use go_event_ticket_reservat.Application.SeatService.{
  CreateBulkSeatsInput, seat_number, new_seats, create_bulk_seats,
}

-- Of a seat: its number, its event, its status and its price
abbrev pub plan : Seat → String × String × Status × ℤ
plan s = (s.seat_number, s.event_id, s.status, s.price)

-- `count` seats of the event that are free, at the price, with numbers from `i`
pub planned : CreateBulkSeatsInput → ℕ → ℕ → List (String × String × Status × ℤ)
planned input zero i = []
planned input (suc count) i =
    (seat_number input.prefix i, input.event_id, available, input.price)
    ∷ planned input count (suc i)

length-planned :
    (input : CreateBulkSeatsInput) (count i : ℕ) → length (planned input count i) ≡ count
unfolding planned
length-planned input zero i = refl
length-planned input (suc count) i = ap suc (length-planned input count (suc i))

map-plan : (ss : List Seat) → map plan (given ss) ≡ map plan ss
map-plan [] = refl
map-plan (s ∷ ss) = ap (λ k. plan s ∷ k) (map-plan ss)

always : {A : Type 0} (r : Result A) → Holds (λ a. Unit) r
always (ok a) = tt
always (err e) = tt

new_seats-planned :
    (input : CreateBulkSeatsInput) (rounds i : ℕ) (w : World)
    → Holds (λ ss. map plan ss ≡ planned input rounds i) (new_seats input rounds i w).0
unfolding new_seats planned ◌>>=◌ pure new_seat
new_seats-planned input zero i w = refl
new_seats-planned input (suc rounds) i w =
    Holds-continue (λ a. Unit) (λ ss. map plan ss ≡ planned input (suc rounds) i) _ (time_now w).0
      (time_now w).1 (always (time_now w).0)
      λ now w₁ _.
        Holds-continue (λ a. Unit) (λ ss. map plan ss ≡ planned input (suc rounds) i) _
          (lift
            (Seat.validate (new_seat now input.event_id (seat_number input.prefix i) input.price))
            w₁).0
          (lift
            (Seat.validate (new_seat now input.event_id (seat_number input.prefix i) input.price))
            w₁).1
          (always _)
          λ _ w₂ _.
            Holds-continue (λ ss. map plan ss ≡ planned input rounds (suc i))
              (λ ss. map plan ss ≡ planned input (suc rounds) i) _
              (new_seats input rounds (suc i) w₂).0 (new_seats input rounds (suc i) w₂).1
              (new_seats-planned input rounds (suc i) w₂)
              λ rest w₃ e.
                ap (λ k. (seat_number input.prefix i, input.event_id, available, input.price) ∷ k) e

Holds-all : {A : Type 0} (P : A → Type 0) (r : Result A) → ((a : A) → r ≡ ok a → P a) → Holds P r
Holds-all P (ok a) k = k a refl
Holds-all P (err e) k = tt

-- If CreateBulkSeats succeeds, its seats are as many as were asked for, in the order of their
-- numbers, which go from 1, each free, of the event and at the price that were asked for.
pub create_bulk_seats-planned :
    (input : CreateBulkSeatsInput) (w : World) (out : List Seat)
    → (create_bulk_seats input w).0 ≡ ok out
    → (map plan out ≡ planned input (pos_part input.count) 1) × (length out ≡ pos_part input.count)
unfolding create_bulk_seats ◌>>=◌
create_bulk_seats-planned input w out ran =
    let looked = wrapping "イベント取得に失敗" (Events.get_by_id input.event_id) in
    let P : List Seat → Type 0 = λ ss. map plan ss ≡ planned input (pos_part input.count) 1 in
    let all : Holds P (create_bulk_seats input w).0 =
      Holds-continue (λ a. Unit) P _ (looked w).0 (looked w).1 (always (looked w).0)
        λ _ w₁ _.
          Holds-continue P P _ (new_seats input (pos_part input.count) 1 w₁).0
            (new_seats input (pos_part input.count) 1 w₁).1
            (new_seats-planned input (pos_part input.count) 1 w₁)
            λ ss w₂ e. Holds-all P (Seats.create_bulk ss w₂).0 λ made r.
              sym (map-plan made)
              ∙ ap (map plan) (create_bulk-given ss made w₂ r)
              ∙ map-plan ss
              ∙ e in
    let is : P out = subst (Holds P) ran all in
    (is, sym (length-map out) ∙ ap length is ∙ length-planned input (pos_part input.count) 1)
  where
    length-map : (ss : List Seat) → length (map plan ss) ≡ length ss
    length-map [] = refl
    length-map (s ∷ ss) = ap suc (length-map ss)
