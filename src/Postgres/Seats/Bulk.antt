-- ===== src/Postgres/Seats/Bulk.antt =====
-- The batches of CreateBulk in internal/infrastructure/postgres/seat_repository.go.
use go_event_ticket_reservat.Prelude.{
  ℕ, zero, suc, ◌+◌, ◌-◌, ◌≤◌, ◌≡◌, refl, sym, ap, subst, ◌∙◌, String, Bool, true, false, List, [],
  ◌∷◌, ◌++◌, length, arith, map, if◌then◌else◌, ltb, inl, inr,
}
use go_event_ticket_reservat.Prelude.Tables.{take, drop}
use go_event_ticket_reservat.Errors.{Error, Result, ok, err, driver, wrapped, Result-cases}
use go_event_ticket_reservat.Domain.Seat.{Seat}
use go_event_ticket_reservat.World.Rows.{Db, World}
use go_event_ticket_reservat.World.Exec.{
  Exec, ◌>>=◌, pure, exec_db, wrapping, map_error, change_error, write_db, continue,
}
use go_event_ticket_reservat.Postgres.Seats.{
  insert_seat, insert_seats, and_then, create_bulk_batch, create_bulk_from, create_bulk, batch_at,
  batch_size,
}

-- The seats but for their ids
abbrev pub erased : Seat → Seat
erased s = record s { id = "" }

abbrev pub given : List Seat → List Seat
given ss = map erased ss

module _ {A : Type 0} where
  -- `P` of what is returned, if something is
  abbrev pub Holds : (A → Type 0) → Result A → Type 0
  Holds P (ok a) = P a
  Holds P (err e) = Unit

  pub Holds-change :
      (P : A → Type 0) (f : Error → Error) (r : Result A) → Holds P r → Holds P (change_error f r)
  Holds-change P f (ok a) h = h
  Holds-change P f (err e) h = tt

  Holds-write :
      (P : A → Type 0) (fails : Bool) (r : Result (A × Db)) (w : World)
      → ((a : A) (d : Db) → r ≡ ok (a, d) → P a)
      → Holds P (write_db (if fails then err driver else r) w).0
  Holds-write P true r w k = tt
  Holds-write P false (ok (a, d)) w k = k a d refl
  Holds-write P false (err e) w k = tt

module _ {A B : Type 0} where
  pub Holds-continue :
      (P : A → Type 0) (Q : B → Type 0) (f : A → Exec B) (r : Result A) (w : World)
      → Holds P r
      → ((a : A) (w : World) → P a → Holds Q (f a w).0)
      → Holds Q (continue r f w).0
  Holds-continue P Q f (ok a) w h k = k a w h
  Holds-continue P Q f (err e) w h k = tt

given-append : (xs ys : List Seat) → given (xs ++ ys) ≡ given xs ++ given ys
given-append [] ys = refl
given-append (x ∷ xs) ys = ap (λ k. erased x ∷ k) (given-append xs ys)

take-nil : (n : ℕ) → take {A = Seat} n [] ≡ []
take-nil zero = refl
take-nil (suc n) = refl

drop-nil : (n : ℕ) → drop {A = Seat} n [] ≡ []
drop-nil zero = refl
drop-nil (suc n) = refl

take-drop : (n i k : ℕ) (ss : List Seat) → k ≡ i + n → take n (drop i ss) ++ drop k ss ≡ drop i ss
take-drop n zero k [] e = rw (take-nil n, drop-nil k) refl
take-drop n (suc i) k [] e = rw (take-nil n, drop-nil k) refl
take-drop zero zero zero (s ∷ ss) e = refl
take-drop zero zero (suc k) (s ∷ ss) e = absurd (omega arith)
take-drop (suc n) zero zero (s ∷ ss) e = absurd (omega arith)
take-drop (suc n) zero (suc k) (s ∷ ss) e = ap (λ t. s ∷ t) (take-drop n zero k ss (omega arith))
take-drop n (suc i) zero (s ∷ ss) e = absurd (omega arith)
take-drop n (suc i) (suc k) (s ∷ ss) e = take-drop n i k ss (omega arith)

length-drop : (i : ℕ) (ss : List Seat) → length (drop i ss) ≡ length ss - i
length-drop zero ss = omega arith
length-drop (suc i) [] = omega arith
length-drop (suc i) (s ∷ ss) = omega (arith, length-drop i ss)

given_then :
    (s : Seat) (ss : List Seat) (r : Result (String × Db)) (rest : Db → Result (List Seat × Db))
    (out : List Seat) (d' : Db)
    → ((d d' : Db) (us : List Seat) → rest d ≡ ok (us, d') → given us ≡ given ss)
    → and_then s r rest ≡ ok (out, d')
    → given out ≡ given (s ∷ ss)
given_then s ss (err x) rest out d' more e = cc
given_then s ss (ok (i, d)) rest out d' more e = elim (Result-cases (rest d)) [
  | inl (x, f) ↦ cc
  | inr ((us, d₁), f) ↦
      let is : out ≡ record s { id = i } ∷ us = ground arith in
      rw is (ap (λ k. erased s ∷ k) (more d d₁ us f))
]

insert_seats-given :
    (fresh : ℕ → String) (i : ℕ) (ss out : List Seat) (d d' : Db)
    → insert_seats fresh i ss d ≡ ok (out, d')
    → given out ≡ given ss
unfolding insert_seats
insert_seats-given fresh i [] out d d' e = let is : out ≡ [] = ground arith in rw is refl
insert_seats-given fresh i (s ∷ ss) out d d' e =
    given_then s ss (insert_seat (fresh i) s d) (insert_seats fresh (suc i) ss) out d'
      (λ d d' us. insert_seats-given fresh (suc i) ss us d d') e

batch-given :
    (ss : List Seat) (w : World) → Holds (λ out. given out ≡ given ss) (create_bulk_batch ss w).0
unfolding create_bulk_batch pure wrapping map_error exec_db
batch-given [] w = refl
batch-given (s ∷ ss) w =
    let ran = insert_seats (w.env.uuid w.at) 0 (s ∷ ss) w.db in
    let w₁ = record w { at = suc w.at } in
    Holds-change (λ out. given out ≡ given (s ∷ ss)) (wrapped "座席一括作成に失敗")
      (write_db (if w.env.fails w.at then err driver else ran) w₁).0
      (Holds-write (λ out. given out ≡ given (s ∷ ss)) (w.env.fails w.at) ran w₁
        (λ out d e. insert_seats-given (w.env.uuid w.at) 0 (s ∷ ss) out w.db d e))

drop_all : (i : ℕ) (ss : List Seat) → length ss ≤ i → drop i ss ≡ []
drop_all zero [] h = refl
drop_all (suc i) [] h = refl
drop_all zero (s ∷ ss) h = absurd (omega arith)
drop_all (suc i) (s ∷ ss) h = drop_all i ss (omega arith)

Holds-if :
    {A : Type 0} (P : A → Type 0) (b : Bool) (m n : Exec A) (w : World)
    → Holds P (m w).0
    → (b ≡ false → Holds P (n w).0)
    → Holds P ((if b then m else n) w).0
Holds-if P true m n w h k = h
Holds-if P false m n w h k = k refl

joined :
    (i : ℕ) (ss batch rest : List Seat)
    → given batch ≡ given (batch_at i ss)
    → given rest ≡ given (drop (i + batch_size) ss)
    → given (batch ++ rest) ≡ given (drop i ss)
joined i ss batch rest h k =
    given-append batch rest
    ∙ rw (h, k) refl
    ∙ sym (given-append (batch_at i ss) (drop (i + batch_size) ss))
    ∙ ap given (take-drop batch_size i (i + batch_size) ss refl)

from-given :
    (rounds i : ℕ) (ss : List Seat) (w : World)
    → length ss ≤ i + rounds
    → Holds (λ out. given out ≡ given (drop i ss)) (create_bulk_from rounds i ss w).0
unfolding create_bulk_from pure ◌>>=◌
from-given zero i ss w enough = rw (drop_all i ss (omega arith)) refl
from-given (suc rounds) i ss w enough =
    Holds-if (λ out. given out ≡ given (drop i ss)) (ltb i (length ss)) _ _ w
      (Holds-continue (λ out. given out ≡ given (batch_at i ss))
        (λ out. given out ≡ given (drop i ss)) _ (create_bulk_batch (batch_at i ss) w).0
        (create_bulk_batch (batch_at i ss) w).1 (batch-given (batch_at i ss) w)
        (λ batch w₁ h.
          Holds-continue (λ out. given out ≡ given (drop (i + batch_size) ss))
            (λ out. given out ≡ given (drop i ss)) _
            (create_bulk_from rounds (i + batch_size) ss w₁).0
            (create_bulk_from rounds (i + batch_size) ss w₁).1
            (from-given rounds (i + batch_size) ss w₁ (omega arith))
            (λ rest w₂ k. joined i ss batch rest h k)))
      (λ e. rw (drop_all i ss (ground arith)) refl)

-- If CreateBulk succeeds, the seats that have their ids are all the seats it was given, in their
-- order, the same but for the ids: the batches leave none out and repeat none.
pub create_bulk-given :
    (ss out : List Seat) (w : World) → (create_bulk ss w).0 ≡ ok out → given out ≡ given ss
unfolding create_bulk
create_bulk-given ss out w ran =
    subst (Holds (λ out. given out ≡ given ss)) ran (from-given (length ss) 0 ss w (omega arith))
