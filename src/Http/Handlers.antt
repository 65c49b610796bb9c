-- ===== src/Http/Handlers.antt =====
-- The handlers of internal/api/handler, one by one: the statuses they answer, and what they leave.
use go_event_ticket_reservat.Prelude.{
  ℕ, ◌≡◌, refl, Bool-cases, true, Option, List, [], ◌∷◌, inl, inr,
}
use go_event_ticket_reservat.Errors.{
  Error, Result, ok, err, is_reservation_not_found, is_event_not_found,
}
use go_event_ticket_reservat.World.Rows.{Db, World}
use go_event_ticket_reservat.World.Exec.{Exec}
use go_event_ticket_reservat.World.Logic.{Ends, IsRead, IsRead-if, IsRead-Reads}
use go_event_ticket_reservat.Postgres.Tx.Single.{AllOrNothing, AllOrNothing-IsRead}
use go_event_ticket_reservat.Application.EventService
use go_event_ticket_reservat.Application.SeatService.{SeatService}
use go_event_ticket_reservat.Application.ReservationService
use go_event_ticket_reservat.Application.ReservationService.{ReservationService}
use go_event_ticket_reservat.Application.ReservationService.Finish.{get_by_id-Reads}
use go_event_ticket_reservat.Application.ReservationService.Create.{get_event-IsRead}
use go_event_ticket_reservat.Application.Failing.{
  create_event-AllOrNothing, create_seat-AllOrNothing, update_event-AllOrNothing,
  delete_event-AllOrNothing, create_reservation-AllOrNothing, confirm_reservation-AllOrNothing,
  cancel_reservation-AllOrNothing, get_seats-IsRead, get_available-IsRead, get_seat-IsRead,
  count_available-IsRead, list_events-IsRead, get_user_reservations-IsRead,
}
use go_event_ticket_reservat.World.Exec.{time_now, sample}
use go_event_ticket_reservat.Http.{Context, Handler, ◌>>=◌, call, done}
use go_event_ticket_reservat.Http.Rules.{
  one_of, Refused, Guards, Guards-done, Guards-bind_or, Guards-bind, Guards-validate, Answers,
  Answers-refuse, Answers-if, Answers-after, Answers-call, Leaves,
}
use go_event_ticket_reservat.Http.Validator.{Packages}
use go_event_ticket_reservat.Http.Events
use go_event_ticket_reservat.Http.Health
use go_event_ticket_reservat.Http.Seats
use go_event_ticket_reservat.Http.Reservations

Leaves-AllOrNothing : {A : Type 0} (m : Exec A) → AllOrNothing m → Leaves (λ d d'. d' ≡ d) m
Leaves-AllOrNothing m h w = h.run w

Leaves-IsRead : {A : Type 0} (m : Exec A) → IsRead m → Leaves (λ d d'. d' ≡ d) m
Leaves-IsRead m h = Leaves-AllOrNothing m (AllOrNothing-IsRead m h)

same : (d : Db) → d ≡ d
same d = refl

-- A handler that answers `code` or refuses by one of `codes` and leaves all as it was
abbrev pub Whole : {A : Type 0} → List ℕ → ℕ → Handler (ℕ × A) → Type 0
Whole codes code m = Answers codes (λ d d'. d' ≡ d) (λ a. a.0 ≡ code) m

module _ (p : Packages) where
  event_error :
      (codes : List ℕ) (k : ℕ) (e : Error)
      → one_of codes 404 ≡ true
      → one_of codes k ≡ true
      → Refused codes (Events.not_found_or p k e)
  unfolding Events.not_found_or
  event_error codes k e h i = elim (Bool-cases (is_event_not_found e)) [
    | inl b ↦ rw b h
    | inr b ↦ rw b i
  ]

  reservation_error :
      (codes : List ℕ) (k : ℕ) (e : Error)
      → one_of codes 404 ≡ true
      → one_of codes k ≡ true
      → Refused codes (Reservations.not_found_or p k e)
  unfolding Reservations.not_found_or
  reservation_error codes k e h i = elim (Bool-cases (is_reservation_not_found e)) [
    | inl b ↦ rw b h
    | inr b ↦ rw b i
  ]

  parse_times-Guards :
      (codes : List ℕ) (req : Events.CreateEventRequest)
      → one_of codes 400 ≡ true
      → Guards codes (Events.parse_times p req)
  unfolding Events.parse_times
  parse_times-Guards codes req e =
      Guards-bind codes _ _ (Guards-bind_or codes _ _ e)
        λ s. Guards-bind codes _ _ (Guards-bind_or codes _ _ e) λ t. Guards-done codes _

  pub create_event-Whole :
      (b : Option Events.CreateEventRequest) → Whole (400 ∷ []) 201 (Events.create p b)
  unfolding Events.create
  create_event-Whole b = Answers-after _ _ _ same (Guards-bind_or _ _ _ refl) λ req.
      Answers-after _ _ _ same (Guards-validate _ p _ refl) λ _.
        Answers-after _ _ _ same (parse_times-Guards _ req refl) λ times.
          Answers-call _ _ _ _ (Leaves-AllOrNothing _ (create_event-AllOrNothing _)) (λ e. refl)
            λ e. refl

  pub update_event-Whole :
      (c : Context) (b : Option Events.CreateEventRequest)
      → Whole (400 ∷ 404 ∷ []) 200 (Events.update p c b)
  unfolding Events.update
  update_event-Whole c b = Answers-after _ _ _ same (Guards-bind_or _ _ _ refl) λ req.
      Answers-after _ _ _ same (Guards-validate _ p _ refl) λ _.
        Answers-after _ _ _ same (parse_times-Guards _ req refl) λ times.
          Answers-call _ _ _ _ (Leaves-AllOrNothing _ (update_event-AllOrNothing _))
            (λ e. event_error (400 ∷ 404 ∷ []) 400 e refl refl) λ e. refl

  pub get_event-Whole : (c : Context) → Whole (404 ∷ 500 ∷ []) 200 (Events.get_by_id p c)
  unfolding Events.get_by_id EventService.get_event
  get_event-Whole c =
      Answers-call _ _ _ _ (Leaves-IsRead _ (get_event-IsRead _))
        (λ e. event_error (404 ∷ 500 ∷ []) 500 e refl refl) λ e. refl

  pub list_events-Whole : (c : Context) → Whole (500 ∷ []) 200 (Events.list p c)
  unfolding Events.list
  list_events-Whole c =
      Answers-call _ _ _ _ (Leaves-IsRead _ (list_events-IsRead _ _)) (λ e. refl) λ e. refl

  pub delete_event-Whole : (c : Context) → Whole (404 ∷ 500 ∷ []) 204 (Events.delete p c)
  unfolding Events.delete
  delete_event-Whole c =
      Answers-call _ _ _ _ (Leaves-AllOrNothing _ (delete_event-AllOrNothing _))
        (λ e. event_error (404 ∷ 500 ∷ []) 500 e refl refl) λ e. refl

  pub get_seats-Whole : (c : Context) → Whole (500 ∷ []) 200 (Seats.get_by_event p c)
  unfolding Seats.get_by_event
  get_seats-Whole c =
      Answers-call _ _ _ _
        (Leaves-IsRead _ (IsRead-if _ _ _ (get_available-IsRead _) (get_seats-IsRead _)))
        (λ e. refl) λ e. refl

  pub get_seat-Whole : (c : Context) → Whole (404 ∷ []) 200 (Seats.get_by_id p c)
  unfolding Seats.get_by_id
  get_seat-Whole c =
      Answers-call _ _ _ _ (Leaves-IsRead _ (get_seat-IsRead _)) (λ e. refl) λ e. refl

  pub count_available-Whole :
      (s : SeatService) (c : Context) → Whole (500 ∷ []) 200 (Seats.count_available p s c)
  unfolding Seats.count_available
  count_available-Whole s c =
      Answers-call _ _ _ _ (Leaves-IsRead _ (count_available-IsRead s _)) (λ e. refl) λ e. refl

  pub create_seat-Whole :
      (c : Context) (b : Option Seats.CreateSeatRequest) → Whole (400 ∷ []) 201 (Seats.create p c b)
  unfolding Seats.create
  create_seat-Whole c b = Answers-after _ _ _ same (Guards-bind_or _ _ _ refl) λ req.
      Answers-after _ _ _ same (Guards-validate _ p _ refl) λ _.
        Answers-call _ _ _ _ (Leaves-AllOrNothing _ (create_seat-AllOrNothing _)) (λ e. refl)
          λ e. refl

  anything : {A : Type 0} (m : Exec A) → Leaves (λ d d'. Unit) m
  anything m w = any (m w).0 (m w).1
    where
      any : {A : Type 0} (r : Result A) (w : World) → Ends r w (λ a w'. Unit) (λ w'. Unit)
      any (ok a) w = tt
      any (err e) w = tt

  pub create_bulk-Answers :
      (c : Context) (b : Option Seats.CreateBulkSeatsRequest)
      → Answers (400 ∷ []) (λ d d'. Unit) (λ a. a.0 ≡ 201) (Seats.create_bulk p c b)
  unfolding Seats.create_bulk
  create_bulk-Answers c b =
      Answers-after _ _ _ (λ d. tt) (Guards-bind_or _ _ _ refl)
        λ req.
          Answers-after _ _ _ (λ d. tt) (Guards-validate _ p _ refl)
            λ _. Answers-call _ _ _ _ (anything _) (λ e. refl) λ e. refl

  pub create-Whole :
      (s : ReservationService) (c : Context) (b : Option Reservations.CreateReservationRequest)
      → Whole (400 ∷ 401 ∷ []) 201 (Reservations.create p s c b)
  unfolding Reservations.create
  create-Whole s c b = Answers-if _ _ _ (Answers-refuse 401 _ refl same) (
      Answers-after _ _ _ same (Guards-bind_or _ _ _ refl) λ req.
        Answers-after _ _ _ same (Guards-validate _ p _ refl) λ _.
          Answers-call _ _ _ _ (Leaves-AllOrNothing _ (create_reservation-AllOrNothing s _))
            (λ e. refl) λ e. refl)

  pub get_reservation-Whole :
      (c : Context) → Whole (404 ∷ 500 ∷ []) 200 (Reservations.get_by_id p c)
  unfolding Reservations.get_by_id ReservationService.get_reservation
  get_reservation-Whole c =
      Answers-call _ _ _ _ (Leaves-IsRead _ (IsRead-Reads _ (get_by_id-Reads _)))
        (λ e. reservation_error (404 ∷ 500 ∷ []) 500 e refl refl) λ e. refl

  pub get_reservations-Whole :
      (c : Context) → Whole (401 ∷ 500 ∷ []) 200 (Reservations.get_user_reservations p c)
  unfolding Reservations.get_user_reservations
  get_reservations-Whole c = Answers-if _ _ _ (Answers-refuse 401 _ refl same) (
      Answers-call _ _ _ _ (Leaves-IsRead _ (get_user_reservations-IsRead _ _ _)) (λ e. refl)
        λ e. refl)

  pub confirm-Whole : (c : Context) → Whole (400 ∷ 404 ∷ []) 200 (Reservations.confirm p c)
  unfolding Reservations.confirm
  confirm-Whole c =
      Answers-call _ _ _ _ (Leaves-AllOrNothing _ (confirm_reservation-AllOrNothing _))
        (λ e. reservation_error (400 ∷ 404 ∷ []) 400 e refl refl) λ e. refl

  pub cancel-Whole :
      (s : ReservationService) (c : Context)
      → Whole (400 ∷ 404 ∷ []) 200 (Reservations.cancel p s c)
  unfolding Reservations.cancel
  cancel-Whole s c =
      Answers-call _ _ _ _ (Leaves-AllOrNothing _ (cancel_reservation-AllOrNothing s _))
        (λ e. reservation_error (400 ∷ 404 ∷ []) 400 e refl refl) λ e. refl

  pub check-Whole : Whole [] 200 (Health.check p)
  unfolding Health.check ◌>>=◌ call done time_now sample
  check-Whole = record { run = λ w. refl }
