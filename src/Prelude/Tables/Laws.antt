-- ===== src/Prelude/Tables/Laws.antt =====
-- What the statements on tables do to a row that is looked up, and to the number of rows.
use go_event_ticket_reservat.Prelude.Tests.{if◌then◌else◌, length, is_some, Bool-cases}
use go_event_ticket_reservat.Prelude.Tables.{
  select_where, find_where, count_where, update_where, contains,
}
use Prim.Native.Nat.{ℕ, ◌+◌, ◌≤◌}
use Prim.Native.String.{String}
use mathlib.Core.Path.{◌≡◌, refl}
use mathlib.Core.Logic.{inl, inr}
use mathlib.Core.Bool.{Bool, true, false, ◌&&◌}
use mathlib.Core.Option.{Option, none, some}
use mathlib.Core.List.{List, [], ◌∷◌, ◌++◌}
use native.Mathlib.Omega.{arith}
use text.Mathlib.Text.{◌==◌}
use text.Mathlib.TextEquality.{eq_iff}

module _ {A : Type 0} where
  abbrev pub map_row : (A → A) → Option A → Option A
  map_row f none = none
  map_row f (some a) = some (f a)

  abbrev pub or_row : Option A → Option A → Option A
  or_row none b = b
  or_row (some a) b = some a

  -- An UPDATE that keeps what is looked for changes the row that is found.
  pub find-update :
      (q p : A → Bool) (f : A → A) (xs : List A)
      → ((a : A) → q (f a) ≡ q a)
      → find_where q (update_where p f xs) ≡ map_row (λ a. if p a then f a else a) (find_where q xs)
  find-update q p f [] keeps = refl
  find-update q p f (x ∷ xs) keeps = ground (arith, keeps x, find-update q p f xs keeps)

  pub find-append :
      (q : A → Bool) (xs ys : List A)
      → find_where q (xs ++ ys) ≡ or_row (find_where q xs) (find_where q ys)
  find-append q [] ys = refl
  find-append q (x ∷ xs) ys = ground (arith, find-append q xs ys)

  pub find_passes : (q : A → Bool) (xs : List A) (a : A) → find_where q xs ≡ some a → q a ≡ true
  find_passes q [] a e = cc
  find_passes q (x ∷ xs) a e = ground (arith, find_passes q xs a)

  -- A DELETE that spares the row that is looked for.
  pub find-select :
      (q p : A → Bool) (xs : List A) (a : A)
      → find_where q xs ≡ some a
      → p a ≡ true
      → count_where q xs ≤ 1
      → find_where q (select_where p xs) ≡ some a
  find-select q p [] a e k u = cc
  find-select q p (x ∷ xs) a e k u = ground (arith, find-select q p xs a)

  pub count-append :
      (q : A → Bool) (xs ys : List A)
      → count_where q (xs ++ ys) ≡ count_where q xs + count_where q ys
  count-append q [] ys = omega arith
  count-append q (x ∷ xs) ys = omega (arith, count-append q xs ys)

  pub count-update :
      (q p : A → Bool) (f : A → A) (xs : List A)
      → ((a : A) → q (f a) ≡ q a)
      → count_where q (update_where p f xs) ≡ count_where q xs
  count-update q p f [] keeps = refl
  count-update q p f (x ∷ xs) keeps = ground (arith, keeps x, count-update q p f xs keeps)

  pub count-select-le :
      (q p : A → Bool) (xs : List A) → count_where q (select_where p xs) ≤ count_where q xs
  count-select-le q p [] = omega arith
  count-select-le q p (x ∷ xs) = ground (arith, count-select-le q p xs)

  pub count_none : (q : A → Bool) (xs : List A) → find_where q xs ≡ none → count_where q xs ≡ 0
  count_none q [] e = refl
  count_none q (x ∷ xs) e = ground (arith, count_none q xs)

  pub find_none : (q : A → Bool) (xs : List A) → count_where q xs ≡ 0 → find_where q xs ≡ none
  find_none q [] e = refl
  find_none q (x ∷ xs) e = ground (arith, find_none q xs)

  pub count_and_le :
      (q p : A → Bool) (xs : List A) → count_where (λ a. q a && p a) xs ≤ count_where q xs
  count_and_le q p [] = omega arith
  count_and_le q p (x ∷ xs) = ground (arith, count_and_le q p xs)

  -- Of a key's one row, a count of 1 says that the row passes a test.
  pub count_one :
      (q p : A → Bool) (xs : List A)
      → count_where q xs ≤ 1
      → 1 ≤ count_where (λ a. q a && p a) xs
      → (a : A) × (find_where q xs ≡ some a) × (p a ≡ true)
  count_one q p [] u h = absurd (omega arith)
  count_one q p (x ∷ xs) u h = elim (Bool-cases (q x)) [
    | inr e ↦
        let (a, found, passes) = count_one q p xs (ground arith) (ground arith) in
        (a, ground arith, passes)
    | inl e ↦ elim (Bool-cases (p x)) [
      | inl k ↦ (x, ground arith, k)
      | inr k ↦ absurd (ground (arith, count_and_le q p xs))
    ]
  ]

-- Rows by a key that is unique, as in `WHERE id = ANY(ids)`
module _ {A : Type 0} (key : A → String) (p : A → Bool) (xs : List A) where
  abbrev named : List String → ℕ
  named ids = count_where (λ a. contains ids (key a) && p a) xs

  count_split :
      (k : String) (ids : List String) (xs : List A)
      → count_where (λ a. contains (k ∷ ids) (key a) && p a) xs
        ≤ count_where (λ a. (key a == k) && p a) xs
          + count_where (λ a. contains ids (key a) && p a) xs
  count_split k ids [] = omega arith
  count_split k ids (x ∷ xs) = ground (arith, count_split k ids xs)

  module _ (unique : (k : String) → count_where (λ a. key a == k) xs ≤ 1) where
    at_most_one : (k : String) → count_where (λ a. (key a == k) && p a) xs ≤ 1
    at_most_one k = omega (arith, count_and_le (λ a. key a == k) p xs, unique k)

    -- No more rows are affected than there are ids.
    pub count-contains-le : (ids : List String) → named ids ≤ length ids
    count-contains-le [] = none_named xs
      where
        none_named : (xs : List A) → count_where (λ a. contains [] (key a) && p a) xs ≤ 0
        none_named [] = omega arith
        none_named (x ∷ xs) = omega (arith, none_named xs)
    count-contains-le (k ∷ ids) =
        omega (arith, count_split k ids xs, at_most_one k, count-contains-le ids)

    -- If as many rows are affected as there are ids, each id has its row.
    pub contains_found :
        (ids : List String) (k : String)
        → length ids ≤ named ids
        → contains ids k ≡ true
        → (a : A) × (find_where (λ a. key a == k) xs ≡ some a) × (p a ≡ true)
    contains_found [] k full c = cc
    contains_found (j ∷ ids) k full c =
        let split = count_split j ids xs in
        let one = at_most_one j in
        let rest = count-contains-le ids in
        elim (Bool-cases (k == j)) [
          | inl e ↦
              rw ((eq_iff k j).0 e) (count_one (λ a. key a == j) p xs (unique j) (omega arith))
          | inr e ↦ contains_found ids k (omega arith) (ground arith)
        ]

module _ {A : Type 0} where
  pub count_nothing : (p : A → Bool) (xs : List A) → ((a : A) → p a ≡ false) → count_where p xs ≡ 0
  count_nothing p [] h = refl
  count_nothing p (x ∷ xs) h = ground (arith, h x, count_nothing p xs h)

  pub update_nothing :
      (p : A → Bool) (f : A → A) (xs : List A) → ((a : A) → p a ≡ false) → update_where p f xs ≡ xs
  update_nothing p f [] h = refl
  update_nothing p f (x ∷ xs) h = ground (arith, h x, update_nothing p f xs h)

  -- A row that is left after a DELETE
  pub select_passes :
      (q p : A → Bool) (xs : List A)
      → is_some (find_where q (select_where p xs)) ≡ true
      → (a : A) × (q a ≡ true) × (p a ≡ true) × (is_some (find_where q xs) ≡ true)
  select_passes q p [] h = cc
  select_passes q p (x ∷ xs) h = elim (Bool-cases (q x)) [
    | inl e ↦ elim (Bool-cases (p x)) [
      | inl k ↦ (x, e, k, ground arith)
      | inr k ↦
          let (a, qa, pa, old) = select_passes q p xs (ground arith) in (a, qa, pa, ground arith)
    ]
    | inr e ↦
        let (a, qa, pa, old) = select_passes q p xs (ground arith) in (a, qa, pa, ground arith)
  ]

  pub find_both :
      (q p : A → Bool) (xs : List A) (a : A)
      → find_where q xs ≡ some a
      → p a ≡ true
      → is_some (find_where (λ x. q x && p x) xs) ≡ true
  find_both q p [] a e k = cc
  find_both q p (x ∷ xs) a e k = ground (arith, find_both q p xs a)
