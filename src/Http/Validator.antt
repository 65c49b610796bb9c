-- ===== src/Http/Validator.antt =====
-- internal/api/validator.go, and the tags `validate:"..."` that the requests have.
use go_event_ticket_reservat.Prelude.{
  ℕ, String, ◌≡◌, ◌↔◌, Bool, true, not, ◌==◌, ◌&&◌, ◌||◌, Option, none, some, List, [], ◌∷◌, length,
  leb,
}
use go_event_ticket_reservat.Prelude.Int.{ℤ, pos, leb_ℤ, ltb_ℤ}
use go_event_ticket_reservat.Errors.{Error}
use go_event_ticket_reservat.Http.{Handler, done, refuse}

-- One tag of a field of type `string`, `int` or `[]string`, with the field's value last
pub data Rule : Type 0 where
  string_required : String → Rule
  int_required : ℤ → Rule
  int_min int_max int_gt : ℤ → ℤ → Rule
  strings_required : List String → Rule
  strings_min : ℕ → List String → Rule

-- A field of a request, with the tags of its struct tag
pub record Field : Type 0 where
  pub name : String
  pub rules : List Rule

-- The packages that the handlers call: strconv.Atoi, time.Parse and time.Time.Format with the layout
-- RFC 3339, the texts of the drivers' errors, and the validator, with the text of the error that it
-- finds. The zone of a time is left out.
pub record Packages : Type 0 where
  pub atoi : String → Option ℤ
  pub parse_time : String → Option ℕ
  pub format_time : ℕ → String
  pub foreign : Error → String
  pub validate_struct : List Field → Option String

-- `n, _ := strconv.Atoi(s)`
unfoldable pub atoi_or_zero : Option ℤ → ℤ
atoi_or_zero none = pos 0
atoi_or_zero (some n) = n

abbrev pub to_http_error : Option String → Handler (Unit {0})
to_http_error none = done tt
to_http_error (some message) = refuse 400 message

-- CustomValidator.Validate
unfoldable pub validate : Packages → List Field → Handler (Unit {0})
validate p fields = to_http_error (p.validate_struct fields)

-- What the validator documents of the tags: `required` refuses the zero value, which of a list is its
-- absence, and the others compare the number or the length of the list. An absent list is the empty
-- one here, so that `min=1` refuses it too.
abbrev pub meets : Rule → Bool
meets (string_required s) = not (s == "")
meets (int_required n) = ltb_ℤ n (pos 0) || ltb_ℤ (pos 0) n
meets (int_min least n) = leb_ℤ least n
meets (int_max most n) = leb_ℤ n most
meets (int_gt bound n) = ltb_ℤ bound n
meets (strings_required ss) = true
meets (strings_min least ss) = leb least (length ss)

abbrev pub meets_all : List Rule → Bool
meets_all [] = true
meets_all (r ∷ rs) = meets r && meets_all rs

abbrev pub passes : List Field → Bool
passes [] = true
passes (f ∷ fs) = meets_all f.rules && passes fs

-- The validator accepts exactly the requests that meet their tags.
abbrev pub Validates : Packages → Type 0
Validates p = (fs : List Field) → (p.validate_struct fs ≡ none) ↔ (passes fs ≡ true)
