-- ===== src/Application/ReservationService/Priced.antt =====
-- The seats that CreateReservation of internal/application/reservation_service.go looks up, and what
-- they cost together.
use go_event_ticket_reservat.Prelude.{
  String, ◌≡◌, refl, sym, subst, ◌∙◌, Bool, true, Bool-cases, inl, inr, Option, none, some, List,
  [], ◌∷◌, ◌==◌, eq_iff,
}
use mathlib.Core.List.{Memᴰ}
use go_event_ticket_reservat.Prelude.Int.{ℤ, pos, ◌+ℤ◌}
use go_event_ticket_reservat.Prelude.Tables.{select_where, sort_by, insert_by}
use go_event_ticket_reservat.Errors.{Error, ok}
use go_event_ticket_reservat.Domain.Seat
use go_event_ticket_reservat.Domain.Seat.{Seat, available, status_beq, is_available}
use go_event_ticket_reservat.World.Rows.{Db, Env}
use go_event_ticket_reservat.World.Exec.{raise}
use go_event_ticket_reservat.World.Logic.{
  Reads, Reads-mono, Reads-then, Reads-pure, Reads-query, Reads-bind, Reads-count,
}
use go_event_ticket_reservat.Postgres.Seats
use go_event_ticket_reservat.Application.ReservationService.{
  seat_map, lookup, check_seat, check_seats,
}

-- A row of the event's, free, with the id
pub record Offered (d : Db) (event_id id : String) (s : Seat) : Type 0 where
  pub listed : Memᴰ s d.seats
  pub of_event : s.event_id ≡ event_id
  pub is_free : s.status ≡ available
  pub has_id : s.id ≡ id

-- The total that the prices of such seats, one for each id, lead to from a first one
pub Priced : Db → String → List String → ℤ → ℤ → Type 0
Priced d event_id [] total out = out ≡ total
Priced d event_id (id ∷ ids) total out =
    (s : Seat) × Offered d event_id id s × Priced d event_id ids (total +ℤ s.price) out

module _ {A : Type 0} (P : A → Type 0) where
  unfoldable pub AllOf : List A → Type 0
  AllOf [] = Unit
  AllOf (x ∷ xs) = P x × AllOf xs

  AllOf-Mem : (xs : List A) → ((x : A) → Memᴰ x xs → P x) → AllOf xs
  unfolding AllOf
  AllOf-Mem [] h = tt
  AllOf-Mem (x ∷ xs) h = (h x (Memᴰ.head refl), AllOf-Mem xs (λ y m. h y (Memᴰ.tail m)))

  AllOf-insert :
      (le : A → A → Bool) (a : A) (xs : List A) → P a → AllOf xs → AllOf (insert_by le a xs)
  unfolding AllOf insert_by
  AllOf-insert le a [] p h = (p, tt)
  AllOf-insert le a (x ∷ xs) p h = elim (Bool-cases (le a x)) [
    | inl e ↦ rw e (p, h)
    | inr e ↦ rw e (h.0, AllOf-insert le a xs p h.1)
  ]

  pub AllOf-sort : (le : A → A → Bool) (xs : List A) → AllOf xs → AllOf (sort_by le xs)
  unfolding AllOf sort_by
  AllOf-sort le [] h = tt
  AllOf-sort le (x ∷ xs) h = AllOf-insert le x (sort_by le xs) h.0 (AllOf-sort le xs h.1)

pub AllOf-select :
    {A : Type 0} (P : A → Type 0) (p : A → Bool) (xs : List A)
    → AllOf P xs
    → AllOf (λ x. P x × (p x ≡ true)) (select_where p xs)
unfolding AllOf
AllOf-select P p [] h = tt
AllOf-select P p (x ∷ xs) h = elim (Bool-cases (p x)) [
  | inl e ↦ rw e ((h.0, e), AllOf-select P p xs h.1)
  | inr e ↦ rw e (AllOf-select P p xs h.1)
]

pub AllOf-mono :
    {A : Type 0} {P Q : A → Type 0}
    → ((a : A) → P a → Q a)
    → (xs : List A) → AllOf P xs
    → AllOf Q xs
unfolding AllOf
AllOf-mono f [] h = tt
AllOf-mono f (x ∷ xs) h = (f x h.0, AllOf-mono f xs h.1)

module _ (P : Seat → Type 0) where
  abbrev pub Entry : String × Seat → Type 0
  Entry (k, s) = P s × (s.id ≡ k)

  pub seat_map-AllOf :
      (ss : List Seat) (m : List (String × Seat))
      → AllOf P ss
      → AllOf Entry m
      → AllOf Entry (seat_map ss m)
  unfolding AllOf
  seat_map-AllOf [] m h k = k
  seat_map-AllOf (s ∷ ss) m h k = seat_map-AllOf ss ((s.id, s) ∷ m) h.1 ((h.0, refl), k)

  pub lookup-Entry :
      (id : String) (m : List (String × Seat)) (s : Seat)
      → AllOf Entry m
      → lookup id m ≡ some s
      → P s × (s.id ≡ id)
  unfolding AllOf
  lookup-Entry id [] s h e = cc
  lookup-Entry id ((j, t) ∷ m) s h e = elim (Bool-cases (j == id)) [
    | inl b ↦
        let here : lookup id ((j, t) ∷ m) ≡ some t = rw b refl in
        let is : s ≡ t = cc in rw is (h.0.0, h.0.1 ∙ (eq_iff j id).0 b)
    | inr b ↦
        let later : lookup id ((j, t) ∷ m) ≡ lookup id m = rw b refl in
        lookup-Entry id m s h.1 (sym later ∙ e)
  ]

Reads-never : {A : Type 0} {R : A → Db → Type 0} (e : Error) → Reads (raise e) R
unfolding raise
Reads-never e = record { run = λ w. refl }

is_free : (st : Seat.Status) → status_beq st available ≡ true → st ≡ available
is_free Seat.available e = refl
is_free Seat.reserved e = cc
is_free Seat.confirmed e = cc

check_seat-Reads :
    (o : Option Seat)
    → Reads
        (check_seat o)
        (λ price d. (s : Seat) × (o ≡ some s) × (s.status ≡ available) × (price ≡ s.price))
check_seat-Reads none = Reads-never _
check_seat-Reads (some s) = elim (Bool-cases (is_available s)) [
  | inl e ↦ rw e (Reads-mono _ (λ a d h. (s, refl, is_free s.status e, h)) (Reads-pure s.price))
  | inr e ↦ rw e (Reads-bind _ _ (Reads-count _) (λ _ d r. Reads-never _))
]

-- The seats that are looked up are there and free, and their prices lead from one total to the other.
pub Looked : List (String × Seat) → List String → ℤ → ℤ → Type 0
Looked m [] total out = out ≡ total
Looked m (id ∷ ids) total out =
    (s : Seat) × (lookup id m ≡ some s)
    × (s.status ≡ available)
    × Looked m ids (total +ℤ s.price) out

pub check_seats-Reads :
    (m : List (String × Seat)) (ids : List String) (total : ℤ)
    → Reads (check_seats m ids total) (λ out d. Looked m ids total out)
unfolding check_seats Looked
check_seats-Reads m [] total = Reads-pure total
check_seats-Reads m (id ∷ ids) total =
    Reads-mono _
      (λ out d r. (r.1.0, r.1.1, r.1.2, subst (λ k. Looked m ids (total +ℤ k) out) r.1.3 r.2))
      (Reads-then _ _ (check_seat-Reads (lookup id m))
        λ price. check_seats-Reads m ids (total +ℤ price))

abbrev pub Row : Db → String → Seat → Type 0
Row d event_id s = Memᴰ s d.seats × (s.event_id ≡ event_id)

Priced-Looked :
    (d : Db) (event_id : String) (m : List (String × Seat)) (ids : List String) (total out : ℤ)
    → AllOf (Entry (Row d event_id)) m
    → Looked m ids total out
    → Priced d event_id ids total out
unfolding Looked Priced
Priced-Looked d event_id m [] total out h k = k
Priced-Looked d event_id m (id ∷ ids) total out h (s, at, free, more) =
    let ((listed, of), same) = lookup-Entry (Row d event_id) id m s h at in
    (
      s,
      record { listed = listed; of_event = of; is_free = free; has_id = same },
      Priced-Looked d event_id m ids (total +ℤ s.price) out h more,
    )

-- The seats of an event as they are read
pub get_by_event_id-Reads :
    (event_id : String)
    → Reads (Seats.get_by_event_id event_id) (λ seats d. AllOf (Row d event_id) seats)
unfolding Seats.get_by_event_id
get_by_event_id-Reads event_id = Reads-mono _ (λ seats d h. rows seats d h.0 h.1) (Reads-query _)
  where
    rows :
        (seats : List Seat) (d : Db) (e : Env)
        → ok (
            sort_by
              (λ (s : Seat) t. e.collate s.seat_number t.seat_number)
              (select_where (λ s. s.event_id == event_id) d.seats))
          ≡ ok seats
        → AllOf (Row d event_id) seats
    rows seats d e ran =
        let is : sort_by (λ (s : Seat) t. e.collate s.seat_number t.seat_number)
              (select_where (λ s. s.event_id == event_id) d.seats)
            ≡ seats =
          cc in
        subst (AllOf (Row d event_id)) is (
          AllOf-sort _ _ _ (
            AllOf-mono (λ s h. (h.0, (eq_iff s.event_id event_id).0 h.1)) _
              (AllOf-select (λ s. Memᴰ s d.seats) _ d.seats
                (AllOf-Mem (λ s. Memᴰ s d.seats) d.seats (λ s m. m)))))

pub Priced-found :
    (d : Db) (event_id : String) (seats : List Seat) (ids : List String) (out : ℤ)
    → AllOf (Row d event_id) seats
    → Looked (seat_map seats []) ids (pos 0) out
    → Priced d event_id ids (pos 0) out
unfolding AllOf
Priced-found d event_id seats ids out h k =
    Priced-Looked d event_id (seat_map seats []) ids (pos 0) out
      (seat_map-AllOf (Row d event_id) seats [] h tt) k
