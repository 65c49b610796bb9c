-- ===== src/Prelude/Text/Sorted.antt =====
-- sort.Strings gives one list for all orders of its elements.
use Prim.Native.String.{String}
use mathlib.Core.Path.{◌≡◌, refl, ◌∙◌, subst}
use mathlib.Core.Logic.{inl, inr}
use mathlib.Core.List.{List, [], ◌∷◌, Permᴰ}
use native.Mathlib.Omega.{arith}
use go_event_ticket_reservat.Prelude.Tests.{Bool-cases}
use go_event_ticket_reservat.Prelude.Text.{text_leb, insert_text, sort_strings}
use go_event_ticket_reservat.Prelude.Text.Order.{leb_total, leb_antisym, leb_trans}

insert_swap :
    (a b : String) (xs : List String)
    → insert_text a (insert_text b xs) ≡ insert_text b (insert_text a xs)
unfolding insert_text
insert_swap a b [] = elim (Bool-cases (text_leb a b)) [
  | inl e ↦ elim (Bool-cases (text_leb b a)) [
    | inl k ↦ rw (leb_antisym a b e k) refl
    | inr k ↦ ground arith
  ]
  | inr e ↦ ground (arith, leb_total a b e)
]
insert_swap a b (x ∷ xs) = elim (Bool-cases (text_leb a b)) [
  | inl e ↦ elim (Bool-cases (text_leb b a)) [
    | inl k ↦
        subst (λ z. insert_text a (insert_text z (x ∷ xs)) ≡ insert_text z (insert_text a (x ∷ xs)))
          (leb_antisym a b e k) refl
    | inr k ↦ ground (arith, insert_swap a b xs, leb_trans a b x)
  ]
  | inr e ↦ ground (arith, leb_total a b e, insert_swap a b xs, leb_trans b a x)
]

pub sort_strings-Permᴰ : (xs ys : List String) → Permᴰ xs ys → sort_strings xs ≡ sort_strings ys
unfolding sort_strings
sort_strings-Permᴰ [] [] Permᴰ.nil = refl
sort_strings-Permᴰ _ _ (Permᴰ.cons {a} {b} {l₁} {l₂} e p) = rw (e, sort_strings-Permᴰ l₁ l₂ p) refl
sort_strings-Permᴰ _ _ (Permᴰ.swap {a} {b} {a' = c} {b' = d} {l} e k) =
    rw (e, k) (insert_swap d c (sort_strings l))
sort_strings-Permᴰ xs ys (Permᴰ.trans {l₂} p q) =
    sort_strings-Permᴰ xs l₂ p ∙ sort_strings-Permᴰ l₂ ys q
