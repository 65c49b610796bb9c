-- ===== src/Http/Safety.antt =====
-- What any requests to the routes of cmd/api/main.go keep of the booking tables.
use go_event_ticket_reservat.Prelude.{
  String, ◌≡◌, sym, subst, Bool, true, false, Option, none, some, if◌then◌else◌, List, [], ◌∷◌, ℕ,
}
use go_event_ticket_reservat.Errors.{Error}
use go_event_ticket_reservat.World.Rows.{World}
use go_event_ticket_reservat.World.Exec.{Exec}
use go_event_ticket_reservat.World.Logic.{
  IsRead, IsRead-if, IsRead-Reads, Reads-same, Reads-time_now,
}
use go_event_ticket_reservat.Booking.{Consistent, Books, no_double_booking}
use go_event_ticket_reservat.Application.EventService
use go_event_ticket_reservat.Application.ReservationService
use go_event_ticket_reservat.Application.ReservationService.Finish.{get_by_id-Reads}
use go_event_ticket_reservat.Application.ReservationService.Create.{get_event-IsRead}
use go_event_ticket_reservat.Application.History
use go_event_ticket_reservat.Application.History.{
  perform, perform-Consistent, empty_db, Consistent-empty,
}
use go_event_ticket_reservat.Application.Failing.{
  get_seats-IsRead, get_available-IsRead, get_seat-IsRead, count_available-IsRead,
  list_events-IsRead, get_user_reservations-IsRead,
}
use go_event_ticket_reservat.Http.{
  HttpError, Reply, returned, failed, Handler, done, refuse, call, bind_or, follow, ◌>>=◌,
}
use go_event_ticket_reservat.Http.Validator.{Packages, Field, validate, to_http_error}
use go_event_ticket_reservat.Http.Events
use go_event_ticket_reservat.Http.Health
use go_event_ticket_reservat.Http.Seats
use go_event_ticket_reservat.Http.Reservations
use go_event_ticket_reservat.Http.Routes.{
  Request, Server, Body, dispatch, serve, json, get_health, post_event, get_events, get_event,
  put_event, delete_event, get_seats, get_seat, get_seat_count, post_seat, post_seats,
  post_reservation, get_reservations, get_reservation, confirm_reservation, cancel_reservation,
}

-- A handler that keeps the tables consistent
abbrev Kept : {A : Type 0} → (World → A × World) → Type 0
Kept m = (w : World) → Consistent w.db → Consistent (m w).1.db

refuse-Kept : (A : Type 0) (code : ℕ) (message : String) → Kept (refuse {A = A} code message)
unfolding refuse
refuse-Kept A code message w c = c

module _ {A : Type 0} where
  done-Kept : (a : A) → Kept (done a)
  unfolding done
  done-Kept a w c = c

  bind_or-Kept : (o : Option A) (message : String) → Kept (bind_or o message)
  unfolding bind_or
  bind_or-Kept none message = refuse-Kept A 400 message
  bind_or-Kept (some a) message = done-Kept a

  if-Kept : (b : Bool) (m n : Handler A) → Kept m → Kept n → Kept (if b then m else n)
  if-Kept true m n h k = h
  if-Kept false m n h k = k

  call-Kept : (m : Exec A) (f : Error → HttpError) → Kept m → Kept (call m f)
  unfolding call
  call-Kept m f h w c = h w c

  Kept-IsRead : (m : Exec A) → IsRead m → Kept m
  Kept-IsRead m h w c = subst Consistent (sym (Reads-same m h w)) c

error-Kept : (o : Option String) → Kept (to_http_error o)
unfolding done refuse
error-Kept none w c = c
error-Kept (some message) w c = c

validate-Kept : (p : Packages) (fields : List Field) → Kept (validate p fields)
unfolding validate
validate-Kept p fields = error-Kept (p.validate_struct fields)

module _ {A B : Type 0} where
  follow-Kept :
      (f : A → Handler B) (r : Reply A) (w : World)
      → ((a : A) → Kept (f a))
      → Consistent w.db
      → Consistent (follow r f w).1.db
  follow-Kept f (returned a) w k c = k a w c
  follow-Kept f (failed e) w k c = c

  bind-Kept : (m : Handler A) (f : A → Handler B) → Kept m → ((a : A) → Kept (f a)) → Kept (m >>= f)
  unfolding ◌>>=◌
  bind-Kept m f h k w c = follow-Kept f (m w).0 (m w).1 k (h w c)

  then_done-Kept :
      (m : Exec A) (f : Error → HttpError) (g : A → B)
      → Kept m
      → Kept (call m f >>= λ a. done (g a))
  then_done-Kept m f g h = bind-Kept _ _ (call-Kept m f h) λ a. done-Kept (g a)

module _ (p : Packages) where
  parse_times-Kept : (req : Events.CreateEventRequest) → Kept (Events.parse_times p req)
  unfolding Events.parse_times
  parse_times-Kept req =
      bind-Kept _ _ (bind_or-Kept _ _) λ s. bind-Kept _ _ (bind_or-Kept _ _) λ t. done-Kept _

module _ (v : Server) where
  abbrev p : Packages
  p = v.packages

  json-Kept : {A : Type 0} (m : Handler (ℕ × A)) (f : A → Body) → Kept m → Kept (json m f)
  json-Kept m f h = bind-Kept m _ h λ a. done-Kept _

  dispatch-Kept : (q : Request) → Kept (dispatch v q)
  unfolding Health.check dispatch perform Events.create Events.update Events.delete Events.list
      Events.get_by_id EventService.get_event Seats.create Seats.create_bulk Seats.get_by_event
      Seats.get_by_id Seats.count_available Reservations.create Reservations.get_by_id
      ReservationService.get_reservation Reservations.get_user_reservations Reservations.confirm
      Reservations.cancel
  dispatch-Kept get_health = json-Kept _ _ (then_done-Kept _ _ _ (Kept-IsRead _ Reads-time_now))
  dispatch-Kept (post_event b) = json-Kept _ _ (
      bind-Kept _ _ (bind_or-Kept b _) λ req. bind-Kept _ _ (validate-Kept p _) λ _.
        bind-Kept _ _ (parse_times-Kept p req) λ times.
          then_done-Kept _ _ _
            (λ w c. perform-Consistent v.reservations (History.adds_event _) w c))
  dispatch-Kept (put_event c b) = json-Kept _ _ (
      bind-Kept _ _ (bind_or-Kept b _) λ req. bind-Kept _ _ (validate-Kept p _) λ _.
        bind-Kept _ _ (parse_times-Kept p req) λ times.
          then_done-Kept _ _ _
            (λ w h. perform-Consistent v.reservations (History.edits_event _) w h))
  dispatch-Kept (post_seat c b) = json-Kept _ _ (
      bind-Kept _ _ (bind_or-Kept b _) λ req. bind-Kept _ _ (validate-Kept p _) λ _.
        then_done-Kept _ _ _ (λ w h. perform-Consistent v.reservations (History.adds_seat _) w h))
  dispatch-Kept (post_seats c b) = json-Kept _ _ (
      bind-Kept _ _ (bind_or-Kept b _) λ req. bind-Kept _ _ (validate-Kept p _) λ _.
        then_done-Kept _ _ _ (λ w h. perform-Consistent v.reservations (History.adds_seats _) w h))
  dispatch-Kept (post_reservation c b) = json-Kept _ _ (
      if-Kept _ _ _ (refuse-Kept _ _ _) (
        bind-Kept _ _ (bind_or-Kept b _) λ req. bind-Kept _ _ (validate-Kept p _) λ _.
          then_done-Kept _ _ _ (λ w h. perform-Consistent v.reservations (History.creates _) w h)))
  dispatch-Kept (delete_event c) = json-Kept _ _ (
      then_done-Kept _ _ _ (λ w h. perform-Consistent v.reservations (History.removes_event _) w h))
  dispatch-Kept (confirm_reservation c) =
      json-Kept _ _
        (then_done-Kept _ _ _ (λ w h. perform-Consistent v.reservations (History.confirms _) w h))
  dispatch-Kept (cancel_reservation c) =
      json-Kept _ _
        (then_done-Kept _ _ _ (λ w h. perform-Consistent v.reservations (History.cancels _) w h))
  dispatch-Kept (get_events c) =
      json-Kept _ _ (then_done-Kept _ _ _ (Kept-IsRead _ (list_events-IsRead _ _)))
  dispatch-Kept (get_event c) =
      json-Kept _ _ (then_done-Kept _ _ _ (Kept-IsRead _ (get_event-IsRead _)))
  dispatch-Kept (get_seats c) = json-Kept _ _ (
      then_done-Kept _ _ _
        (Kept-IsRead _ (IsRead-if _ _ _ (get_available-IsRead _) (get_seats-IsRead _))))
  dispatch-Kept (get_seat c) =
      json-Kept _ _ (then_done-Kept _ _ _ (Kept-IsRead _ (get_seat-IsRead _)))
  dispatch-Kept (get_seat_count c) =
      json-Kept _ _ (then_done-Kept _ _ _ (Kept-IsRead _ (count_available-IsRead v.seats _)))
  dispatch-Kept (get_reservation c) =
      json-Kept _ _ (then_done-Kept _ _ _ (Kept-IsRead _ (IsRead-Reads _ (get_by_id-Reads _))))
  dispatch-Kept (get_reservations c) = json-Kept _ _ (
      if-Kept _ _ _ (refuse-Kept _ _ _)
        (then_done-Kept _ _ _ (Kept-IsRead _ (get_user_reservations-IsRead _ _ _))))

-- Requests, one after another
unfoldable pub serve_all : Server → List Request → World → World
serve_all v [] w = w
serve_all v (q ∷ qs) w = serve_all v qs (serve v q w).1

serve_all-Kept :
    (v : Server) (qs : List Request) (w : World)
    → Consistent w.db
    → Consistent (serve_all v qs w).db
unfolding serve_all serve
serve_all-Kept v [] w c = c
serve_all-Kept v (q ∷ qs) w c = serve_all-Kept v qs (serve v q w).1 (dispatch-Kept v q w c)

-- From an empty database, after any requests, each served before the next, whatever their bodies and
-- whatever the validator and the other packages do, no seat belongs to two reservations that are
-- pending or confirmed.
pub serve_all-no_double_booking :
    (v : Server) (qs : List Request) (w : World) (r₁ r₂ sid : String)
    → w.db ≡ empty_db
    → Books (serve_all v qs w).db r₁ sid
    → Books (serve_all v qs w).db r₂ sid
    → r₁ ≡ r₂
serve_all-no_double_booking v qs w r₁ r₂ sid fresh =
    no_double_booking (serve_all v qs w).db r₁ r₂ sid
      (serve_all-Kept v qs w (subst Consistent (sym fresh) Consistent-empty))
