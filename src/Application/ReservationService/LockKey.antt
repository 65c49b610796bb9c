-- ===== src/Application/ReservationService/LockKey.antt =====
-- buildSeatLockKey of internal/application/reservation_service.go, for requests of the same seats.
use go_event_ticket_reservat.Prelude.{String, ◌≡◌, ap, List}
use go_event_ticket_reservat.Prelude.Text.{text_append, join}
use go_event_ticket_reservat.Prelude.Text.Sorted.{sort_strings-Permᴰ}
use mathlib.Core.List.{Permᴰ}
use go_event_ticket_reservat.Application.ReservationService.{build_seat_lock_key}

-- Requests of the same seats lock the same key, in whatever order they name them.
pub build_seat_lock_key-Permᴰ :
    (seat_ids others : List String)
    → Permᴰ seat_ids others
    → build_seat_lock_key seat_ids ≡ build_seat_lock_key others
unfolding build_seat_lock_key
build_seat_lock_key-Permᴰ seat_ids others p =
    ap (λ ids. text_append "seats:" (join ids ",")) (sort_strings-Permᴰ seat_ids others p)
