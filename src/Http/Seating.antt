-- ===== src/Http/Seating.antt =====
-- What a request for many seats to internal/api/handler/seat.go must hold, and what it gets.
use go_event_ticket_reservat.Prelude.{
  ℕ, suc, ◌≤◌, ◌≡◌, refl, ap, ◌∙◌, String, inl, inr, true, Option, none, some, Option-cases, List,
  [], ◌∷◌, map, length, arith,
}
use go_event_ticket_reservat.Prelude.Int.{ℤ, pos, negsuc, pos_part}
use go_event_ticket_reservat.Errors.{ok, Result-cases}
use go_event_ticket_reservat.Domain.Seat.{Seat}
use go_event_ticket_reservat.World.Rows.{World}
use go_event_ticket_reservat.Application.SeatService.{CreateBulkSeatsInput, create_bulk_seats}
use go_event_ticket_reservat.Application.SeatService.Numbered.{
  create_bulk_seats-planned, planned, plan,
}
use go_event_ticket_reservat.Http.{
  Context, http_error, returned, failed, done, refuse, call, bind_or, ◌>>=◌,
}
use go_event_ticket_reservat.Http.Text.{error_text}
use go_event_ticket_reservat.Http.Validator.{Packages, Validates, validate, passes}
use go_event_ticket_reservat.Http.Seats.{
  CreateBulkSeatsRequest, bulk_fields, SeatResponse, to_seat_response, create_bulk,
}

-- The input that the handler makes
abbrev pub bulk_input : Context → CreateBulkSeatsRequest → CreateBulkSeatsInput
bulk_input c req = record {
  event_id = c.param "event_id";
  prefix = req.prefix;
  count = req.count;
  price = req.price;
}

-- What the tags of the request ask
pub record Allowed (req : CreateBulkSeatsRequest) : Type 0 where
  pub count : ℕ
  pub is_count : req.count ≡ pos count
  pub at_least : 1 ≤ count
  pub at_most : count ≤ 1000
  pub price : ℕ
  pub is_price : req.price ≡ pos price
  pub is_paid : 1 ≤ price

allowed_int :
    (prefix : String) (count price : ℤ)
    → passes (bulk_fields (record { prefix = prefix; count = count; price = price })) ≡ true
    → ((n : ℕ) × (count ≡ pos n) × (1 ≤ n) × (n ≤ 1000)) × ((m : ℕ) × (price ≡ pos m) × (1 ≤ m))
allowed_int s (pos n) (pos m) h =
    ((n, refl, ground (arith, h), ground (arith, h)), (m, refl, ground (arith, h)))
allowed_int s (pos n) (negsuc m) h = absurd (ground (arith, h))
allowed_int s (negsuc n) m h = absurd (ground (arith, h))

allowed : (req : CreateBulkSeatsRequest) → passes (bulk_fields req) ≡ true → Allowed req
allowed req h =
    let ((n, is_n, least, most), (m, is_m, paid)) = allowed_int req.prefix req.count req.price h in
    record {
      count = n;
      is_count = is_n;
      at_least = least;
      at_most = most;
      price = m;
      is_price = is_m;
      is_paid = paid;
    }

-- What a request for many seats gets
pub record Made (c : Context) (req : CreateBulkSeatsRequest) (body : List SeatResponse)
    : Type 0 where
  pub allows : Allowed req
  pub seats : List Seat
  pub is_body : body ≡ map to_seat_response seats
  pub is_planned : map plan seats ≡ planned (bulk_input c req) allows.count 1
  pub is_length : length body ≡ allows.count

length-map : {A B : Type 0} (f : A → B) (xs : List A) → length (map f xs) ≡ length xs
length-map f [] = refl
length-map f (x ∷ xs) = ap suc (length-map f xs)

made :
    (c : Context) (req : CreateBulkSeatsRequest) (w : World) (seats : List Seat)
    (body : List SeatResponse)
    → Allowed req
    → (create_bulk_seats (bulk_input c req) w).0 ≡ ok seats
    → body ≡ map to_seat_response seats
    → Made c req body
made c req w seats body a ran is =
    let (plans, many) = create_bulk_seats-planned (bulk_input c req) w seats ran in
    let n : pos_part req.count ≡ a.count = ap pos_part a.is_count in
    record {
      allows = a;
      seats = seats;
      is_body = is;
      is_planned = plans ∙ ap (λ k. planned (bulk_input c req) k 1) n;
      is_length = ap length is ∙ length-map to_seat_response seats ∙ many ∙ n;
    }

-- If the validator does what it documents, a request for many seats that is answered with 201 had a
-- body with a count from 1 to 1000 and a price of 1 at least, and the answer has as many seats,
-- numbered from 1, free, of the event and at the price.
pub create_bulk-Made :
    (p : Packages) (c : Context) (b : Option CreateBulkSeatsRequest) (w : World)
    (body : List SeatResponse)
    → Validates p
    → (create_bulk p c b w).0 ≡ returned (201, body)
    → (req : CreateBulkSeatsRequest) × (b ≡ some req) × Made c req body
unfolding create_bulk bind_or done refuse call validate ◌>>=◌
create_bulk-Made p c none w body doc ran = cc
create_bulk-Made p c (some req) w body doc ran =
    elim (Option-cases (p.validate_struct (bulk_fields req))) [
      | inr (message, e) ↦
          let no : (create_bulk p c (some req) w).0 ≡ failed (http_error 400 message) = rw e refl in
          absurd cc
      | inl e ↦ elim (Result-cases (create_bulk_seats (bulk_input c req) w).0) [
        | inl (x, f) ↦
            let no : (create_bulk p c (some req) w).0
                ≡ failed (http_error 400 (error_text p.foreign x)) =
              rw (e, f) refl in
            absurd cc
        | inr (seats, f) ↦
            let yes : (create_bulk p c (some req) w).0
                ≡ returned (201, map to_seat_response seats) =
              rw (e, f) refl in
            let is : body ≡ map to_seat_response seats = cc in
            (req, refl, made c req w seats body (allowed req ((doc (bulk_fields req)).0 e)) f is)
      ]
    ]
