-- ===== src/Application/EventService/Page.antt =====
-- The page that ListEvents of internal/application/event_service.go asks for.
use go_event_ticket_reservat.Prelude.{
  ℕ, zero, suc, ◌≤◌, ◌≡◌, refl, ap, true, false, arith, List, [], ◌∷◌, map, length, leb,
}
use go_event_ticket_reservat.Prelude.Tables.{take, drop, sort_by}
use go_event_ticket_reservat.Errors.{Result, ok}
use go_event_ticket_reservat.Domain.Event.{Event}
use go_event_ticket_reservat.World.Rows.{World}
use go_event_ticket_reservat.World.Exec.{◌>>=◌, wrapping, map_error, query, pure}
use go_event_ticket_reservat.Postgres.Events
use go_event_ticket_reservat.Postgres.Reservations.{page}
use go_event_ticket_reservat.Prelude.Int.{ℤ, pos, negsuc, leb_ℤ, pos_part}
use go_event_ticket_reservat.Application.EventService.{clamp_limit, clamp_offset, list_events}

within : (l : ℤ) → (leb_ℤ (pos 1) (clamp_limit l) ≡ true) × (leb_ℤ (clamp_limit l) (pos 100) ≡ true)
unfolding clamp_limit
within (pos n) = (ground arith, ground arith)
within (negsuc n) = (ground arith, ground arith)

from_zero : (o : ℤ) → leb_ℤ (pos 0) (clamp_offset o) ≡ true
unfolding clamp_offset
from_zero (pos n) = ground arith
from_zero (negsuc n) = ground arith

accepted : {A : Type 0} (l o : ℤ) (r : Result A) → page (clamp_limit l) (clamp_offset o) r ≡ r
unfolding clamp_limit clamp_offset
accepted (pos l) (pos o) r = ground arith
accepted (pos l) (negsuc o) r = ground arith
accepted (negsuc l) (pos o) r = ground arith
accepted (negsuc l) (negsuc o) r = ground arith

at_most : (l : ℤ) → pos_part (clamp_limit l) ≤ 100
unfolding clamp_limit
at_most (pos n) = ground arith
at_most (negsuc n) = ground arith

length-take : {A : Type 0} (n : ℕ) (xs : List A) → length (take n xs) ≤ n
length-take zero xs = omega arith
length-take (suc n) [] = omega arith
length-take (suc n) (x ∷ xs) = omega (arith, length-take n xs)

length-map : {A B : Type 0} (f : A → B) (xs : List A) → length (map f xs) ≡ length xs
length-map f [] = refl
length-map f (x ∷ xs) = ap suc (length-map f xs)

-- ListEvents succeeds if the driver does, whatever limit and offset it is given, with at most a
-- hundred events; it asks for one at least and a hundred at most, from an offset that is not
-- negative.
pub list_events-Page :
    (limit offset : ℤ) (w : World)
    → w.env.fails w.at ≡ false
    → (leb_ℤ (pos 1) (clamp_limit limit) ≡ true)
      × (leb_ℤ (clamp_limit limit) (pos 100) ≡ true)
      × (leb_ℤ (pos 0) (clamp_offset offset) ≡ true)
      × ((es : List Event) × ((list_events limit offset w).0 ≡ ok es) × (length es ≤ 100))
unfolding list_events Events.list ◌>>=◌ wrapping map_error query pure
list_events-Page limit offset w works =
    let rows = take (pos_part (clamp_limit limit)) (
      drop (pos_part (clamp_offset offset))
        (sort_by (λ a b. leb b.start_at a.start_at) w.db.events)) in
    let few : length (map Events.to_entity rows) ≤ 100 = omega (
      arith,
      length-map Events.to_entity rows,
      length-take (pos_part (clamp_limit limit)) (
          drop (pos_part (clamp_offset offset))
            (sort_by (λ a b. leb b.start_at a.start_at) w.db.events)),
      at_most limit,
    ) in
    (
      (within limit).0,
      (within limit).1,
      from_zero offset,
      (map Events.to_entity rows, rw (works, accepted limit offset (ok rows)) refl, few),
    )
