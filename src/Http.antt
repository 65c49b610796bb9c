-- ===== src/Http.antt =====
-- The HTTP layer, internal/api, around the web framework: what a handler reads of a request, what it
-- returns, and the packages that it calls.
pub mod Text
pub mod Validator
pub mod Reservations
pub mod Events
pub mod Seats
pub mod Health
pub mod Routes
pub mod Rules
pub mod Handlers
pub mod Status
pub mod Safety
pub mod Seating
pub mod Watch
use go_event_ticket_reservat.Prelude.{ℕ, String, Option, none, some, List}
use go_event_ticket_reservat.Prelude.Int.{ℤ}
use go_event_ticket_reservat.Errors.{Error, Result, ok, err}
use go_event_ticket_reservat.World.Rows.{World}
use go_event_ticket_reservat.World.Exec.{Exec}

-- What a request carries: the value of a header, of a path parameter and of a query parameter by
-- its name, and the empty text where there is none.
pub record Context : Type 0 where
  pub header : String → String
  pub param : String → String
  pub query : String → String

-- The error of a handler: `echo.HTTPError` with a text, or any other error
pub data HttpError : Type 0 where
  http_error : ℕ → String → HttpError
  other_error : String → HttpError

-- What a handler returns. A response that it writes is taken to be written.
pub data Reply (A : Type 0) : Type 0 where
  returned : A → Reply A
  failed : HttpError → Reply A

abbrev pub Handler : Type 0 → Type 0
Handler A = World → Reply A × World

module _ {A : Type 0} where
  unfoldable pub done : A → Handler A
  done a w = (returned a, w)

  -- `return echo.NewHTTPError(code, message)`
  unfoldable pub refuse : ℕ → String → Handler A
  refuse code message w = (failed (http_error code message), w)

  abbrev pub to_reply : (Error → HttpError) → Result A → Reply A
  to_reply f (ok a) = returned a
  to_reply f (err e) = failed (f e)

  -- `a, err := service(); if err != nil { return f(err) }`
  unfoldable pub call : Exec A → (Error → HttpError) → Handler A
  call m f w = let (r, w') = m w in (to_reply f r, w')

  -- `if err := c.Bind(&req); err != nil { return echo.NewHTTPError(400, message) }`; also of a value
  -- that does not parse
  unfoldable pub bind_or : Option A → String → Handler A
  unfolding done refuse
  bind_or none message = refuse 400 message
  bind_or (some a) message = done a

module _ {A B : Type 0} where
  abbrev pub follow : Reply A → (A → Handler B) → Handler B
  follow (returned a) f w = f a w
  follow (failed e) f w = (failed e, w)

  infixl 10 ◌>>=◌ ◌>>◌
  unfoldable pub ◌>>=◌ : Handler A → (A → Handler B) → Handler B
  ◌>>=◌ m f w = let (r, w') = m w in follow r f w'

  abbrev pub ◌>>◌ : Handler A → Handler B → Handler B
  m >> n = m >>= λ _. n
