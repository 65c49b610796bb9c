-- ===== src/Http/Events.antt =====
-- internal/api/handler/event.go
use go_event_ticket_reservat.Prelude.{ℕ, String, Option, List, [], ◌∷◌, map, if◌then◌else◌}
use go_event_ticket_reservat.Prelude.Int.{ℤ, pos}
use go_event_ticket_reservat.Errors.{Error, is_event_not_found}
use go_event_ticket_reservat.Domain.Event.{Event}
use go_event_ticket_reservat.Application.EventService
use go_event_ticket_reservat.Application.EventService.{CreateEventInput, UpdateEventInput}
use go_event_ticket_reservat.Http.{
  Context, HttpError, http_error, Handler, done, call, bind_or, ◌>>=◌, ◌>>◌,
}
use go_event_ticket_reservat.Http.Text.{error_text}
use go_event_ticket_reservat.Http.Validator.{
  Packages, Field, string_required, int_required, int_gt, atoi_or_zero, validate,
}

pub record CreateEventRequest : Type 0 where
  pub name : String
  pub description : String
  pub venue : String
  pub start_at : String
  pub end_at : String
  pub total_seats : ℤ

abbrev pub request_fields : CreateEventRequest → List Field
request_fields req =
    record { name = "Name"; rules = string_required req.name ∷ [] }
    ∷ record { name = "Description"; rules = [] }
    ∷ record { name = "Venue"; rules = [] }
    ∷ record { name = "StartAt"; rules = string_required req.start_at ∷ [] }
    ∷ record { name = "EndAt"; rules = string_required req.end_at ∷ [] }
    ∷ record {
      name = "TotalSeats";
      rules = int_required req.total_seats ∷ int_gt (pos 0) req.total_seats ∷ [];
    }
    ∷ []

pub record EventResponse : Type 0 where
  pub id : String
  pub name : String
  pub description : String
  pub venue : String
  pub start_at : String
  pub end_at : String
  pub total_seats : ℤ
  pub created_at : String
  pub updated_at : String

unfoldable pub to_event_response : Packages → Event → EventResponse
to_event_response p e = record {
  id = e.id;
  name = e.name;
  description = e.description;
  venue = e.venue;
  start_at = p.format_time e.start_at;
  end_at = p.format_time e.end_at;
  total_seats = e.total_seats;
  created_at = p.format_time e.created_at;
  updated_at = p.format_time e.updated_at;
}

-- The two times of a request, parsed in turn
unfoldable pub parse_times : Packages → CreateEventRequest → Handler (ℕ × ℕ)
parse_times p req = do
  start_at ← bind_or (p.parse_time req.start_at) "開始時刻の形式が不正です"
  end_at ← bind_or (p.parse_time req.end_at) "終了時刻の形式が不正です"
  done (start_at, end_at)

unfoldable pub create : Packages → Option CreateEventRequest → Handler (ℕ × EventResponse)
unfolding parse_times
create p bound = do
  req ← bind_or bound "リクエストの形式が不正です"
  validate p (request_fields req)
  times ← parse_times p req
  let input : CreateEventInput = record {
    name = req.name;
    description = req.description;
    venue = req.venue;
    start_at = times.0;
    end_at = times.1;
    total_seats = req.total_seats;
  }
  e ← call (EventService.create_event input) (λ e. http_error 400 (error_text p.foreign e))
  done (201, to_event_response p e)

-- 404 for ErrEventNotFound, and `otherwise` for any other error
unfoldable pub not_found_or : Packages → ℕ → Error → HttpError
not_found_or p otherwise e =
    if is_event_not_found e
    then http_error 404 "イベントが見つかりません"
    else http_error otherwise (error_text p.foreign e)

unfoldable pub get_by_id : Packages → Context → Handler (ℕ × EventResponse)
unfolding not_found_or
get_by_id p c = do
  e ← call (EventService.get_event (c.param "id")) (not_found_or p 500)
  done (200, to_event_response p e)

unfoldable pub list : Packages → Context → Handler (ℕ × List EventResponse)
list p c = do
  events ←
      call
        (EventService.list_events (atoi_or_zero (p.atoi (c.query "limit")))
          (atoi_or_zero (p.atoi (c.query "offset"))))
        (λ e. http_error 500 (error_text p.foreign e))
  done (200, map (to_event_response p) events)

unfoldable pub update : Packages → Context → Option CreateEventRequest → Handler (ℕ × EventResponse)
unfolding parse_times not_found_or
update p c bound = do
  req ← bind_or bound "リクエストの形式が不正です"
  validate p (request_fields req)
  times ← parse_times p req
  let input : UpdateEventInput = record {
    id = c.param "id";
    name = req.name;
    description = req.description;
    venue = req.venue;
    start_at = times.0;
    end_at = times.1;
    total_seats = req.total_seats;
  }
  e ← call (EventService.update_event input) (not_found_or p 400)
  done (200, to_event_response p e)

-- c.NoContent(http.StatusNoContent)
unfoldable pub delete : Packages → Context → Handler (ℕ × Unit {0})
unfolding not_found_or
delete p c = do call (EventService.delete_event (c.param "id")) (not_found_or p 500); done (204, tt)
