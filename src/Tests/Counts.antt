-- ===== src/Tests/Counts.antt =====
-- Counts in the cache, at concrete inputs.
use go_event_ticket_reservat.Prelude.{◌+◌, ◌≡◌, refl, none, true, some, if◌then◌else◌, ltb, ◌⊎◌}
use go_event_ticket_reservat.Prelude.Int.{pos}
use go_event_ticket_reservat.Prelude.Text.{decimal}
use go_event_ticket_reservat.Errors.{ok, is_redis_nil}
use go_event_ticket_reservat.Domain.Seat
use go_event_ticket_reservat.Domain.Seat.{Seat}
use go_event_ticket_reservat.World.Rows.{World}
use go_event_ticket_reservat.World.Exec.{
  pure, lift, attempt, map_error, wrapping, query, exec_db, send, time_now, sample, ◌>>=◌,
}
use go_event_ticket_reservat.Postgres.Events
use go_event_ticket_reservat.Postgres.Seats
use go_event_ticket_reservat.Redis.Cache
use go_event_ticket_reservat.Redis.Cache.{available_count_key}
use go_event_ticket_reservat.Redis.Cache.Replay.{cached}
use go_event_ticket_reservat.Application.SeatService.{
  SeatService, CreateSeatInput, create_seat, count_available_seats, count_and_cache,
}
use go_event_ticket_reservat.Application.SeatService.Outdated.{free_seats, create_seat-Outdated}
use go_event_ticket_reservat.World.Logic.{Ends}
use go_event_ticket_reservat.Application.ReservationService.{create_reservation, cancel_reservation}
use go_event_ticket_reservat.Application.ReservationService.Invalidated.{
  NoCount, reservations-NoCount,
}
use go_event_ticket_reservat.Tests

abbrev caching : SeatService
caching = record { cache = true }

-- The cache is empty at first, and has a count later.
abbrev before : World
before = record Tests.start {
  db = Tests.booked_db;
  env = record Tests.env { reply_get = λ n. if ltb n 10 then some none else some (some (pos 1)) };
}

abbrev counted : World
counted = record before { sent = (count_available_seats caching "1.0" before).1.sent; at = 7 }

abbrev more_seats : CreateSeatInput
more_seats = record { event_id = "1.0"; seat_number = "B-1"; price = pos 50 }

abbrev grown : World
grown = record before {
  db = (create_seat more_seats counted).1.db;
  sent = (create_seat more_seats counted).1.sent;
  at = 20;
}

counts : (count_available_seats caching "1.0" before).0 ≡ ok (pos 1)
unfolding count_available_seats count_and_cache Cache.get_available_count Cache.set_available_count
    attempt map_error send lift pure ◌>>=◌ query is_redis_nil Seats.count_available_by_event_id
counts = refl

abbrev new_one : Seat
new_one = record {
  id = "9.0";
  event_id = "1.0";
  seat_number = "B-1";
  status = Seat.available;
  price = pos 50;
  reserved_by = none;
  reserved_at = none;
  created_at = 8000;
  updated_at = 8000;
  version = 0;
}

makes : (create_seat more_seats counted).0 ≡ ok new_one
unfolding create_seat wrapping map_error Events.get_by_id Events.to_entity Seats.create
    Seats.insert_seat query time_now sample lift pure exec_db ◌>>=◌ decimal Seat.new_seat
    Seat.validate
makes = refl

replies : grown.env.reply_get grown.at ≡ some (cached grown.sent (available_count_key "1.0"))
unfolding create_seat count_available_seats count_and_cache Cache.get_available_count
    Cache.set_available_count attempt is_redis_nil Seats.count_available_by_event_id send wrapping
    map_error Events.get_by_id Events.to_entity Seats.create Seats.insert_seat query time_now sample
    lift pure exec_db ◌>>=◌ decimal Seat.new_seat Seat.validate
replies = refl

create_seat-Outdated_example :
    ((count_available_seats caching "1.0" grown).0 ≡ ok (pos (free_seats "1.0" before.db)))
    × (free_seats "1.0" grown.db ≡ free_seats "1.0" before.db + 1)
create_seat-Outdated_example =
    create_seat-Outdated caching more_seats before counted grown (pos 1) new_one refl refl counts
      refl refl makes refl refl replies

reservations-NoCount_example :
    Ends
      (create_reservation Tests.service Tests.again before).0
      (create_reservation Tests.service Tests.again before).1
      (λ res w'. (w'.db ≡ before.db) ⊎ NoCount res w')
      (λ w'. w'.db ≡ before.db)
    × Ends
        (cancel_reservation Tests.service "14.0" before).0
        (cancel_reservation Tests.service "14.0" before).1
        NoCount
        (λ w'. w'.db ≡ before.db)
reservations-NoCount_example = reservations-NoCount Tests.service Tests.again "14.0" before refl
