-- ===== src/Http/Seats.antt =====
-- internal/api/handler/seat.go
use go_event_ticket_reservat.Prelude.{ℕ, String, Option, List, [], ◌∷◌, map, ◌==◌, if◌then◌else◌}
use go_event_ticket_reservat.Prelude.Int.{ℤ, pos}
use go_event_ticket_reservat.Domain.Seat
use go_event_ticket_reservat.Domain.Seat.{Seat}
use go_event_ticket_reservat.Application.SeatService
use go_event_ticket_reservat.Application.SeatService.{
  SeatService, CreateSeatInput, CreateBulkSeatsInput,
}
use go_event_ticket_reservat.Http.{Context, http_error, Handler, done, call, bind_or, ◌>>=◌, ◌>>◌}
use go_event_ticket_reservat.Http.Text.{error_text}
use go_event_ticket_reservat.Http.Validator.{
  Packages, Field, string_required, int_required, int_min, int_max, validate,
}

pub record CreateSeatRequest : Type 0 where
  pub seat_number : String
  pub price : ℤ

abbrev pub seat_fields : CreateSeatRequest → List Field
seat_fields req =
    record { name = "SeatNumber"; rules = string_required req.seat_number ∷ [] }
    ∷ record { name = "Price"; rules = int_required req.price ∷ int_min (pos 0) req.price ∷ [] }
    ∷ []

pub record CreateBulkSeatsRequest : Type 0 where
  pub prefix : String
  pub count : ℤ
  pub price : ℤ

abbrev pub bulk_fields : CreateBulkSeatsRequest → List Field
bulk_fields req =
    record { name = "Prefix"; rules = string_required req.prefix ∷ [] }
    ∷ record {
      name = "Count";
      rules =
          int_required req.count ∷ int_min (pos 1) req.count ∷ int_max (pos 1000) req.count ∷ [];
    }
    ∷ record { name = "Price"; rules = int_required req.price ∷ int_min (pos 0) req.price ∷ [] }
    ∷ []

pub record SeatResponse : Type 0 where
  pub id : String
  pub event_id : String
  pub seat_number : String
  pub status : String
  pub price : ℤ
  pub reserved_by : Option String

-- string(s.Status)
unfoldable pub status_text : Seat.Status → String
status_text Seat.available = "available"
status_text Seat.reserved = "reserved"
status_text Seat.confirmed = "confirmed"

unfoldable pub to_seat_response : Seat → SeatResponse
unfolding status_text
to_seat_response s = record {
  id = s.id;
  event_id = s.event_id;
  seat_number = s.seat_number;
  status = status_text s.status;
  price = s.price;
  reserved_by = s.reserved_by;
}

unfoldable pub get_by_event : Packages → Context → Handler (ℕ × List SeatResponse)
get_by_event p c =
    let event_id = c.param "event_id" in
    let available_only = c.query "available" == "true" in
    do
      seats ←
          call
            (if available_only
              then SeatService.get_available_seats_by_event event_id
              else SeatService.get_seats_by_event event_id)
            (λ e. http_error 500 (error_text p.foreign e))
      done (200, map to_seat_response seats)

unfoldable pub create : Packages → Context → Option CreateSeatRequest → Handler (ℕ × SeatResponse)
create p c bound = do
  req ← bind_or bound "無効なリクエスト"
  validate p (seat_fields req)
  let input : CreateSeatInput = record {
    event_id = c.param "event_id";
    seat_number = req.seat_number;
    price = req.price;
  }
  s ← call (SeatService.create_seat input) (λ e. http_error 400 (error_text p.foreign e))
  done (201, to_seat_response s)

unfoldable pub create_bulk :
    Packages → Context → Option CreateBulkSeatsRequest → Handler (ℕ × List SeatResponse)
create_bulk p c bound = do
  req ← bind_or bound "無効なリクエスト"
  validate p (bulk_fields req)
  let input : CreateBulkSeatsInput = record {
    event_id = c.param "event_id";
    prefix = req.prefix;
    count = req.count;
    price = req.price;
  }
  seats ← call (SeatService.create_bulk_seats input) (λ e. http_error 400 (error_text p.foreign e))
  done (201, map to_seat_response seats)

unfoldable pub get_by_id : Packages → Context → Handler (ℕ × SeatResponse)
get_by_id p c = do
  s ← call (SeatService.get_seat (c.param "id")) (λ e. http_error 404 (error_text p.foreign e))
  done (200, to_seat_response s)

-- map[string]int{"count": count}
unfoldable pub count_available : Packages → SeatService → Context → Handler (ℕ × ℤ)
count_available p s c = do
  count ←
      call (SeatService.count_available_seats s (c.param "event_id"))
        (λ e. http_error 500 (error_text p.foreign e))
  done (200, count)
