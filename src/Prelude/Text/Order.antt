-- ===== src/Prelude/Text/Order.antt =====
-- The order of texts by bytes, and sort.Strings, which gives one list for all orders of its elements.
use Prim.Native.Nat.{Ordering, compare as compare_ℕ}
use Prim.Native.Char.{Char, code}
use Prim.Native.String.compare
use Prim.Native.String.{String, [], ◌∷◌, compare, then}
use mathlib.Core.Path.{◌≡◌, refl, sym, ◌∙◌, ap}
use mathlib.Core.Bool.{Bool, true, false, ◌&&◌, ◌||◌}
use native.Mathlib.Omega.{arith}
use text.Mathlib.TextEquality.{Char-path}
use go_event_ticket_reservat.Prelude.Tests.{ltb, nat_beq}
use go_event_ticket_reservat.Prelude.Text.{text_leb}

abbrev not_after : Ordering → Bool
not_after Ordering.gt = false
not_after _ = true

then_cases :
    (o r : Ordering)
    → (elim ((then) o r) [ Ordering.gt ↦ false | _ ↦ true ]) ≡ (
        (elim o [ Ordering.lt ↦ true | _ ↦ false ])
        || ((elim o [ Ordering.eq ↦ true | _ ↦ false ])
            && (elim r [ Ordering.gt ↦ false | _ ↦ true ])))
then_cases Ordering.lt r = refl
then_cases Ordering.eq r = refl
then_cases Ordering.gt r = refl

leb-cons :
    (c d : Char) (s t : String)
    → text_leb (c ∷ s) (d ∷ t)
      ≡ (ltb (code c) (code d) || (nat_beq (code c) (code d) && text_leb s t))
leb-cons c d s t =
    ap not_after (compare.cons-cons c d s t)
    ∙ then_cases (compare_ℕ (code c) (code d)) (compare s t)

leb-nil : (t : String) → text_leb [] t ≡ true
leb-nil [] = ap not_after compare.nil-nil
leb-nil (d ∷ t) = ap not_after (compare.nil-cons d t)

leb-cons_nil : (c : Char) (s : String) → text_leb (c ∷ s) [] ≡ false
leb-cons_nil c s = ap not_after (compare.cons-nil c s)

pub leb_total : (s t : String) → text_leb s t ≡ false → text_leb t s ≡ true
leb_total [] t h = absurd (cc (sym (leb-nil t) ∙ h))
leb_total (c ∷ s) [] h = leb-nil (c ∷ s)
leb_total (c ∷ s) (d ∷ t) h = ground (arith, leb-cons c d s t, leb-cons d c t s, leb_total s t)

pub leb_antisym : (s t : String) → text_leb s t ≡ true → text_leb t s ≡ true → s ≡ t
leb_antisym [] [] h k = refl
leb_antisym [] (d ∷ t) h k = absurd (cc (sym (leb-cons_nil d t) ∙ k))
leb_antisym (c ∷ s) [] h k = absurd (cc (sym (leb-cons_nil c s) ∙ h))
leb_antisym (c ∷ s) (d ∷ t) h k =
    let same : code c ≡ code d = ground (arith, leb-cons c d s t, leb-cons d c t s) in
    let rest =
      leb_antisym s t (ground (arith, leb-cons c d s t)) (ground (arith, leb-cons d c t s)) in
    λ i. Char-path c d same i ∷ rest i

pub leb_trans : (s t u : String) → text_leb s t ≡ true → text_leb t u ≡ true → text_leb s u ≡ true
leb_trans [] t u h k = leb-nil u
leb_trans (c ∷ s) [] u h k = absurd (cc (sym (leb-cons_nil c s) ∙ h))
leb_trans (c ∷ s) (d ∷ t) [] h k = absurd (cc (sym (leb-cons_nil d t) ∙ k))
leb_trans (c ∷ s) (d ∷ t) (e ∷ u) h k =
    ground (arith, leb-cons c d s t, leb-cons d e t u, leb-cons c e s u, leb_trans s t u)
