-- ===== src/Http/Status.antt =====
-- The statuses of the routes of cmd/api/main.go, and what a request that is refused leaves.
use go_event_ticket_reservat.Prelude.{ℕ, String, ◌≡◌, refl, true, List, [], ◌∷◌, ◌⊎◌, inl, inr}
use go_event_ticket_reservat.World.Rows.{Db, World}
use go_event_ticket_reservat.Http.{
  http_error, other_error, Reply, returned, failed, Handler, done, follow, ◌>>=◌,
}
use go_event_ticket_reservat.Http.Rules.{one_of, Refused, Says, Answers}
use go_event_ticket_reservat.Http.Routes.{
  json, error_body, Request, Response, Server, dispatch, serve, sent, handle_error, respond, Body,
  get_health, post_event, get_events, get_event, put_event, delete_event, get_seats, get_seat,
  get_seat_count, post_seat, post_seats, post_reservation, get_reservations, get_reservation,
  confirm_reservation, cancel_reservation,
}
use go_event_ticket_reservat.Http.Handlers.{
  check-Whole, create_event-Whole, update_event-Whole, get_event-Whole, list_events-Whole,
  delete_event-Whole, get_seats-Whole, get_seat-Whole, count_available-Whole, create_seat-Whole,
  create_bulk-Answers, create-Whole, get_reservation-Whole, get_reservations-Whole, confirm-Whole,
  cancel-Whole,
}

-- The status of a request that succeeds, and those of one that is refused
pub success : Request → ℕ
success get_health = 200
success (post_event b) = 201
success (post_seat c b) = 201
success (post_seats c b) = 201
success (post_reservation c b) = 201
success (delete_event c) = 204
success _ = 200

pub success_lem : (q : Request) → (success q ≡ 200) ⊎ ((success q ≡ 201) ⊎ (success q ≡ 204))
unfolding success
success_lem get_health = inl refl
success_lem (post_event b) = inr (inl refl)
success_lem (post_seat c b) = inr (inl refl)
success_lem (post_seats c b) = inr (inl refl)
success_lem (post_reservation c b) = inr (inl refl)
success_lem (delete_event c) = inr (inr refl)
success_lem (get_events c) = inl refl
success_lem (get_event c) = inl refl
success_lem (put_event c b) = inl refl
success_lem (get_seats c) = inl refl
success_lem (get_seat c) = inl refl
success_lem (get_seat_count c) = inl refl
success_lem (get_reservations c) = inl refl
success_lem (get_reservation c) = inl refl
success_lem (confirm_reservation c) = inl refl
success_lem (cancel_reservation c) = inl refl

pub refusals : Request → List ℕ
refusals get_health = []
refusals (post_event b) = 400 ∷ []
refusals (get_events c) = 500 ∷ []
refusals (get_event c) = 404 ∷ 500 ∷ []
refusals (put_event c b) = 400 ∷ 404 ∷ []
refusals (delete_event c) = 404 ∷ 500 ∷ []
refusals (get_seats c) = 500 ∷ []
refusals (get_seat c) = 404 ∷ []
refusals (get_seat_count c) = 500 ∷ []
refusals (post_seat c b) = 400 ∷ []
refusals (post_seats c b) = 400 ∷ []
refusals (post_reservation c b) = 400 ∷ 401 ∷ []
refusals (get_reservations c) = 401 ∷ 500 ∷ []
refusals (get_reservation c) = 404 ∷ 500 ∷ []
refusals (confirm_reservation c) = 400 ∷ 404 ∷ []
refusals (cancel_reservation c) = 400 ∷ 404 ∷ []

-- Every request but the one for many seats, which are written in batches, is all or nothing.
pub Undone : Request → Db → Db → Type 0
Undone (post_seats c b) d d' = Unit
Undone _ d d' = d' ≡ d

module _ {A : Type 0} where
  json_follow :
      (codes : List ℕ) (U : Db → Db → Type 0) (code : ℕ) (f : A → Body) (r : Reply (ℕ × A))
      (w w' : World)
      → Says (λ a. a.0 ≡ code) (λ e. Refused codes e × U w.db w'.db) r
      → let (q, w₂) = follow r (λ a. done (respond f a)) w' in
        Says (λ a. a.status ≡ code) (λ e. Refused codes e × U w.db w₂.db) q
  unfolding done
  json_follow codes U code f (returned a) w w' h = h
  json_follow codes U code f (failed e) w w' h = h

  Answers-json :
      (codes : List ℕ) (U : Db → Db → Type 0) (code : ℕ) (m : Handler (ℕ × A)) (f : A → Body)
      → Answers codes U (λ a. a.0 ≡ code) m
      → Answers codes U (λ r. r.status ≡ code) (json m f)
  unfolding ◌>>=◌
  Answers-json codes U code m f h = record {
    run = λ w. json_follow codes U code f (m w).0 w (m w).1 (h.run w);
  }

pub dispatch-Answers :
    (v : Server) (q : Request)
    → Answers (refusals q) (Undone q) (λ r. r.status ≡ success q) (dispatch v q)
unfolding dispatch success refusals Undone
dispatch-Answers v get_health = Answers-json _ _ 200 _ _ (check-Whole v.packages)
dispatch-Answers v (post_event b) = Answers-json _ _ 201 _ _ (create_event-Whole v.packages b)
dispatch-Answers v (get_events c) = Answers-json _ _ 200 _ _ (list_events-Whole v.packages c)
dispatch-Answers v (get_event c) = Answers-json _ _ 200 _ _ (get_event-Whole v.packages c)
dispatch-Answers v (put_event c b) = Answers-json _ _ 200 _ _ (update_event-Whole v.packages c b)
dispatch-Answers v (delete_event c) = Answers-json _ _ 204 _ _ (delete_event-Whole v.packages c)
dispatch-Answers v (get_seats c) = Answers-json _ _ 200 _ _ (get_seats-Whole v.packages c)
dispatch-Answers v (get_seat c) = Answers-json _ _ 200 _ _ (get_seat-Whole v.packages c)
dispatch-Answers v (get_seat_count c) =
    Answers-json _ _ 200 _ _ (count_available-Whole v.packages v.seats c)
dispatch-Answers v (post_seat c b) = Answers-json _ _ 201 _ _ (create_seat-Whole v.packages c b)
dispatch-Answers v (post_seats c b) = Answers-json _ _ 201 _ _ (create_bulk-Answers v.packages c b)
dispatch-Answers v (post_reservation c b) =
    Answers-json _ _ 201 _ _ (create-Whole v.packages v.reservations c b)
dispatch-Answers v (get_reservations c) =
    Answers-json _ _ 200 _ _ (get_reservations-Whole v.packages c)
dispatch-Answers v (get_reservation c) =
    Answers-json _ _ 200 _ _ (get_reservation-Whole v.packages c)
dispatch-Answers v (confirm_reservation c) = Answers-json _ _ 200 _ _ (confirm-Whole v.packages c)
dispatch-Answers v (cancel_reservation c) =
    Answers-json _ _ 200 _ _ (cancel-Whole v.packages v.reservations c)

-- A response with an error's text and, as its code, its status
pub IsError : Response → Type 0
IsError r = (message : String) × (r.body ≡ error_body (record { error = message; code = r.status }))

sent_lem :
    (codes : List ℕ) (code : ℕ) (U : Type 0) (r : Reply Response)
    → Says (λ a. a.status ≡ code) (λ e. Refused codes e × U) r
    → ((sent r).status ≡ code) ⊎ ((one_of codes (sent r).status ≡ true) × IsError (sent r) × U)
unfolding sent handle_error IsError
sent_lem codes code U (returned a) h = inl h
sent_lem codes code U (failed (http_error k message)) (h, u) = inr (h, (message, refl), u)
sent_lem codes code U (failed (other_error message)) (h, u) = absurd h

-- Whatever a request holds and whatever the packages, the drivers and the clock do, the client gets
-- the success status of its route, or one of the route's error statuses, with that status in the
-- body; then, unless it asked for many seats, the database is as it was.
pub serve-Status :
    (v : Server) (q : Request) (w : World)
    → ((serve v q w).0.status ≡ success q)
      ⊎ ((one_of (refusals q) (serve v q w).0.status ≡ true)
          × IsError (serve v q w).0
          × Undone q w.db (serve v q w).1.db)
unfolding serve
serve-Status v q w =
    sent_lem (refusals q) (success q) _ (dispatch v q w).0 ((dispatch-Answers v q).run w)
