-- ===== src/Postgres/Seats/Entity.antt =====
-- The three UPDATEs of internal/infrastructure/postgres/seat_repository.go against the transitions of
-- internal/domain/seat/entity.go.
use go_event_ticket_reservat.Prelude.{
  ℕ, ◌≡◌, refl, String, List, [], ◌∷◌, Bool, true, false, ◌+◌, ◌&&◌, map, if◌then◌else◌, arith,
}
use go_event_ticket_reservat.Prelude.Tables.{count_where, update_where, contains}
use go_event_ticket_reservat.Errors.{Result, ok, err}
use go_event_ticket_reservat.Domain.Seat
use go_event_ticket_reservat.Domain.Seat.{Seat}
use go_event_ticket_reservat.World.Rows.{Db}
use go_event_ticket_reservat.Postgres.Seats.{
  can_reserve, reserved_row, update_reserved, can_confirm, confirmed_row, update_confirmed,
  released_row, update_released,
}

-- The entity's transition, if it is allowed, on a row, with the next version
abbrev pub moved : (Seat → Result Seat) → List String → Seat → Seat
moved f ids s = if contains ids s.id then next (f s) s else s
  where
    next : Result Seat → Seat → Seat
    next (ok t) s = record t { version = s.version + 1 }
    next (err e) s = s

abbrev pub allowed : (Seat → Result Seat) → List String → Seat → Bool
allowed f ids s = contains ids s.id && is_ok (f s)
  where
    is_ok : Result Seat → Bool
    is_ok (ok t) = true
    is_ok (err e) = false

reserved_seats :
    (ids : List String) (rid : String) (now : ℕ) (ss : List Seat)
    → update_where (can_reserve ids) (reserved_row rid now) ss
      ≡ map (moved (Seat.reserve now rid) ids) ss
unfolding Seat.reserve
reserved_seats ids rid now [] = refl
reserved_seats ids rid now (s ∷ ss) = ground (arith, reserved_seats ids rid now ss)

confirmed_seats :
    (ids : List String) (now : ℕ) (ss : List Seat)
    → update_where (can_confirm ids) (confirmed_row now) ss ≡ map (moved (Seat.confirm now) ids) ss
unfolding Seat.confirm
confirmed_seats ids now [] = refl
confirmed_seats ids now (s ∷ ss) = ground (arith, confirmed_seats ids now ss)

released_seats :
    (ids : List String) (now : ℕ) (ss : List Seat)
    → update_where (λ s. contains ids s.id) (released_row now) ss
      ≡ map (moved (λ s. ok (Seat.release now s)) ids) ss
unfolding Seat.release
released_seats ids now [] = refl
released_seats ids now (s ∷ ss) = ground (arith, released_seats ids now ss)

reserved_count :
    (ids : List String) (rid : String) (now : ℕ) (ss : List Seat)
    → count_where (can_reserve ids) ss ≡ count_where (allowed (Seat.reserve now rid) ids) ss
unfolding Seat.reserve
reserved_count ids rid now [] = refl
reserved_count ids rid now (s ∷ ss) = ground (arith, reserved_count ids rid now ss)

confirmed_count :
    (ids : List String) (now : ℕ) (ss : List Seat)
    → count_where (can_confirm ids) ss ≡ count_where (allowed (Seat.confirm now) ids) ss
unfolding Seat.confirm
confirmed_count ids now [] = refl
confirmed_count ids now (s ∷ ss) = ground (arith, confirmed_count ids now ss)

-- ReserveSeats, ConfirmSeats and ReleaseSeats make, of the seats that are named, the transitions
-- Reserve, Confirm and Release of the entity, those alone that the entity allows, and raise the
-- version with each; the rows affected that the first two report are as many as are allowed.
pub updates-Entity :
    (ids : List String) (rid : String) (fresh : ℕ → String) (now : ℕ) (d : Db)
    → (update_reserved ids rid fresh now d
        ≡ ok (
          count_where (allowed (Seat.reserve now rid) ids) d.seats,
          record d { seats = map (moved (Seat.reserve now rid) ids) d.seats },
        ))
      × (update_confirmed ids fresh now d
          ≡ ok (
            count_where (allowed (Seat.confirm now) ids) d.seats,
            record d { seats = map (moved (Seat.confirm now) ids) d.seats },
          ))
      × (update_released ids fresh now d
          ≡ ok (tt, record d { seats = map (moved (λ s. ok (Seat.release now s)) ids) d.seats }))
updates-Entity ids rid fresh now d = (
  rw (reserved_seats ids rid now d.seats, reserved_count ids rid now d.seats) refl,
  rw (confirmed_seats ids now d.seats, confirmed_count ids now d.seats) refl,
  rw (released_seats ids now d.seats) refl,
)
