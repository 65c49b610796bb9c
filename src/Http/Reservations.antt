-- ===== src/Http/Reservations.antt =====
-- internal/api/handler/reservation.go
use go_event_ticket_reservat.Prelude.{ℕ, String, Option, List, [], ◌∷◌, map, ◌==◌, if◌then◌else◌}
use go_event_ticket_reservat.Prelude.Int.{ℤ}
use go_event_ticket_reservat.Errors.{Error, is_reservation_not_found}
use go_event_ticket_reservat.Domain.Reservation
use go_event_ticket_reservat.Domain.Reservation.{Reservation}
use go_event_ticket_reservat.Application.ReservationService
use go_event_ticket_reservat.Application.ReservationService.{
  ReservationService, CreateReservationInput,
}
use go_event_ticket_reservat.Http.{
  Context, HttpError, http_error, Handler, done, refuse, call, bind_or, ◌>>=◌, ◌>>◌,
}
use go_event_ticket_reservat.Http.Text.{error_text}
use go_event_ticket_reservat.Http.Validator.{
  Packages, Field, string_required, strings_required, strings_min, atoi_or_zero, validate,
}

pub record CreateReservationRequest : Type 0 where
  pub event_id : String
  pub seat_ids : List String
  pub idempotency_key : String

abbrev pub request_fields : CreateReservationRequest → List Field
request_fields req =
    record { name = "EventID"; rules = string_required req.event_id ∷ [] }
    ∷ record {
      name = "SeatIDs";
      rules = strings_required req.seat_ids ∷ strings_min 1 req.seat_ids ∷ [];
    }
    ∷ record { name = "IdempotencyKey"; rules = string_required req.idempotency_key ∷ [] }
    ∷ []

pub record ReservationResponse : Type 0 where
  pub id : String
  pub event_id : String
  pub user_id : String
  pub seat_ids : List String
  pub status : String
  pub total_amount : ℤ
  pub expires_at : ℕ
  pub confirmed_at : Option ℕ
  pub created_at : ℕ

-- string(r.Status)
unfoldable pub status_text : Reservation.Status → String
status_text Reservation.pending = "pending"
status_text Reservation.confirmed = "confirmed"
status_text Reservation.cancelled = "cancelled"

unfoldable pub to_reservation_response : Reservation → ReservationResponse
unfolding status_text
to_reservation_response r = record {
  id = r.id;
  event_id = r.event_id;
  user_id = r.user_id;
  seat_ids = r.seat_ids;
  status = status_text r.status;
  total_amount = r.total_amount;
  expires_at = r.expires_at;
  confirmed_at = r.confirmed_at;
  created_at = r.created_at;
}

-- The status of a response and its body
abbrev pub Answer : Type 0
Answer = ℕ × ReservationResponse

unfoldable pub create :
    Packages → ReservationService → Context → Option CreateReservationRequest → Handler Answer
create p s c bound =
    let user_id = c.header "X-User-ID" in
    if user_id == "" then refuse 401 "ユーザーIDが必要です" else do
      req ← bind_or bound "無効なリクエスト"
      validate p (request_fields req)
      let input : CreateReservationInput = record {
        event_id = req.event_id;
        user_id = user_id;
        seat_ids = req.seat_ids;
        idempotency_key = req.idempotency_key;
      }
      r ←
          call (ReservationService.create_reservation s input)
            (λ e. http_error 400 (error_text p.foreign e))
      done (201, to_reservation_response r)

-- 404 for ErrReservationNotFound, and `otherwise` for any other error
unfoldable pub not_found_or : Packages → ℕ → Error → HttpError
not_found_or p otherwise e =
    if is_reservation_not_found e
    then http_error 404 (error_text p.foreign e)
    else http_error otherwise (error_text p.foreign e)

unfoldable pub get_by_id : Packages → Context → Handler Answer
unfolding not_found_or
get_by_id p c = do
  r ← call (ReservationService.get_reservation (c.param "id")) (not_found_or p 500)
  done (200, to_reservation_response r)

unfoldable pub get_user_reservations : Packages → Context → Handler (ℕ × List ReservationResponse)
get_user_reservations p c =
    let user_id = c.header "X-User-ID" in
    let limit = atoi_or_zero (p.atoi (c.query "limit")) in
    let offset = atoi_or_zero (p.atoi (c.query "offset")) in
    if user_id == "" then refuse 401 "ユーザーIDが必要です" else do
      reservations ←
          call (ReservationService.get_user_reservations user_id limit offset)
            (λ e. http_error 500 (error_text p.foreign e))
      done (200, map to_reservation_response reservations)

unfoldable pub confirm : Packages → Context → Handler Answer
unfolding not_found_or
confirm p c = do
  r ← call (ReservationService.confirm_reservation (c.param "id")) (not_found_or p 400)
  done (200, to_reservation_response r)

unfoldable pub cancel : Packages → ReservationService → Context → Handler Answer
unfolding not_found_or
cancel p s c = do
  r ← call (ReservationService.cancel_reservation s (c.param "id")) (not_found_or p 400)
  done (200, to_reservation_response r)
