-- ===== src/Prelude/Text.antt =====
-- Texts: `+`, strings.Join and sort.Strings of Go's library.
pub mod Order
pub mod Sorted
use Prim.Native.Nat.{ℕ, zero, suc, ◌/◌, ◌%◌, Ordering}
use Prim.Native.String.{String, compare}
use Prim.Native.String
use mathlib.Core.Bool.{Bool, true, false}
use mathlib.Core.List.{List, [], ◌∷◌}
use go_event_ticket_reservat.Prelude.Tests.{ltb, if◌then◌else◌}

abbrev pub text_append : String → String → String
text_append s t = String.◌++◌ s t

-- strings.Join
unfoldable pub join : List String → String → String
join [] sep = ""
join (s ∷ []) sep = s
join (s ∷ (t ∷ ts)) sep = text_append s (text_append sep (join (t ∷ ts) sep))

-- s <= t, by bytes
abbrev pub text_leb : String → String → Bool
text_leb s t = elim (compare s t) [ Ordering.gt ↦ false | _ ↦ true ]

insert_text : String → List String → List String
insert_text s [] = s ∷ []
insert_text s (t ∷ ts) = if text_leb s t then s ∷ t ∷ ts else t ∷ insert_text s ts

-- sort.Strings
unfoldable pub sort_strings : List String → List String
unfolding insert_text
sort_strings [] = []
sort_strings (s ∷ ss) = insert_text s (sort_strings ss)

abbrev digit : ℕ → List String → String
digit n [] = ""
digit zero (c ∷ cs) = c
digit (suc n) (c ∷ cs) = digit n cs

-- The digits of `n` before `rest`, with the rounds left
decimal_from : ℕ → ℕ → String → String
decimal_from zero n rest = rest
decimal_from (suc rounds) n rest =
    let c = digit (n % 10) ("0" ∷ "1" ∷ "2" ∷ "3" ∷ "4" ∷ "5" ∷ "6" ∷ "7" ∷ "8" ∷ "9" ∷ []) in
    let more = decimal_from rounds (n / 10) (text_append c rest) in
    if ltb n 10 then text_append c rest else more

-- `%d` of a number that is not negative; it has at most `n + 1` digits.
unfoldable pub decimal : ℕ → String
unfolding decimal_from
decimal n = decimal_from (suc n) n ""
