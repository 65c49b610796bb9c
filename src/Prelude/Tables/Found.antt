-- ===== src/Prelude/Tables/Found.antt =====
-- Rows that are found by a key that is unique, and how many an UPDATE with a list of keys affects.
use Prim.Native.Nat.{◌+◌, ◌≤◌}
use Prim.Native.String.{String}
use mathlib.Core.Path.{◌≡◌, refl}
use mathlib.Core.Logic.{inl, inr}
use mathlib.Core.Bool.{Bool, true, false, ◌&&◌, ◌||◌}
use mathlib.Core.Option.{some}
use mathlib.Core.List.{List, [], ◌∷◌}
use native.Mathlib.Omega.{arith}
use text.Mathlib.Text.{◌==◌}
use text.Mathlib.TextEquality.{eq_iff}
use go_event_ticket_reservat.Prelude.Tests.{length, is_some, Bool-cases}
use go_event_ticket_reservat.Prelude.Tables.{find_where, count_where, insert_by, sort_by, contains}
use go_event_ticket_reservat.Prelude.Tables.Laws.{count_and_le, count-contains-le}

module _ {A : Type 0} where
  some-insert :
      (q : A → Bool) (le : A → A → Bool) (a : A) (xs : List A)
      → is_some (find_where q (insert_by le a xs)) ≡ (q a || is_some (find_where q xs))
  unfolding insert_by
  some-insert q le a [] = ground arith
  some-insert q le a (x ∷ xs) = ground (arith, some-insert q le a xs)

  -- ORDER BY finds what was there.
  pub some-sort :
      (q : A → Bool) (le : A → A → Bool) (xs : List A)
      → is_some (find_where q (sort_by le xs)) ≡ is_some (find_where q xs)
  unfolding sort_by
  some-sort q le [] = refl
  some-sort q le (x ∷ xs) = ground (arith, some-insert q le x (sort_by le xs), some-sort q le xs)

  passes_count :
      (q p : A → Bool) (xs : List A) (a : A)
      → find_where q xs ≡ some a
      → p a ≡ true
      → 1 ≤ count_where (λ x. q x && p x) xs
  passes_count q p [] a e k = cc
  passes_count q p (x ∷ xs) a e k = ground (arith, passes_count q p xs a)

-- No id stands twice.
abbrev pub Distinct : List String → Type 0
Distinct [] = Unit
Distinct (k ∷ ks) = (contains ks k ≡ false) × Distinct ks

module _ {A : Type 0} (key : A → String) (p : A → Bool) where
  count-contains_cons :
      (k : String) (ids : List String) (xs : List A)
      → contains ids k ≡ false
      → count_where (λ a. contains (k ∷ ids) (key a) && p a) xs
        ≡ count_where (λ a. (key a == k) && p a) xs
          + count_where (λ a. contains ids (key a) && p a) xs
  count-contains_cons k ids [] new = refl
  count-contains_cons k ids (x ∷ xs) new = elim (Bool-cases (key x == k)) [
    | inl e ↦
        let same : contains ids (key x) ≡ false = rw ((eq_iff (key x) k).0 e) new in
        ground (arith, count-contains_cons k ids xs new)
    | inr e ↦ ground (arith, count-contains_cons k ids xs new)
  ]

  -- If each of some distinct ids has its row, with a test passed, as many rows are affected.
  pub count-contains :
      (ids : List String) (xs : List A)
      → ((k : String) → count_where (λ a. key a == k) xs ≤ 1)
      → Distinct ids
      → ((k : String)
          → contains ids k ≡ true
          → (a : A) × (find_where (λ a. key a == k) xs ≡ some a) × (p a ≡ true))
      → count_where (λ a. contains ids (key a) && p a) xs ≡ length ids
  count-contains [] xs unique distinct found = omega (arith, count-contains-le key p xs unique [])
  count-contains (k ∷ ids) xs unique (new, distinct) found =
      let (a, at, passes) = found k (ground (arith, eq_iff k k)) in
      omega (
        arith,
        count-contains_cons k ids xs new,
        passes_count (λ a. key a == k) p xs a at passes,
        count_and_le (λ a. key a == k) p xs,
        unique k,
        count-contains ids xs unique distinct (λ j is. found j (ground (arith, is))),
      )
