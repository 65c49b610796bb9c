-- ===== src/Redis/Server.antt =====
-- Redis as internal/infrastructure/redis/distributed_lock.go uses it: the commands are parameters,
-- with what Redis documents of them, and the scripts of Release and Extend are over them. Times are
-- in milliseconds.
use go_event_ticket_reservat.Prelude.{
  ℕ, zero, suc, ◌-◌, ◌/◌, ◌^◌, List, [], ◌∷◌, ◌≡◌, String, Bool, false, not, ◌&&◌, Option, none,
  some, if◌then◌else◌, is_some, ltb, ◌==◌,
}
use go_event_ticket_reservat.World.Rows.{Command, get, set_nx, eval_release, eval_extend}

-- SET with NX and PX, GET, DEL and PEXPIRE on a state of the server, with their replies; `wait` lets
-- time pass.
pub record Server (S : Type 0) : Type 0 where
  pub get : String → S → Option String
  pub setnx : String → String → ℕ → S → Bool × S
  pub del : String → S → ℕ × S
  pub pexpire : String → ℕ → S → ℕ × S
  pub wait : ℕ → S → S

-- A value and how long it still lives
abbrev pub Entry : Type 0
Entry = String × ℕ

abbrev pub value_of : Option Entry → Option String
value_of none = none
value_of (some (v, u)) = some v

abbrev pub renewed : ℕ → Option Entry → Option Entry
renewed t none = none
renewed zero (some e) = none
renewed (suc t) (some (v, u)) = some (v, suc t)

abbrev pub aged : ℕ → Option Entry → Option Entry
aged d none = none
aged d (some (v, u)) = if ltb d u then some (v, u - d) else none

abbrev pub one_if : Bool → ℕ
one_if b = if b then 1 else 0

-- What Redis documents: `held` is the value of a key with its PTTL.
pub record Documented {S : Type 0} (r : Server S) : Type 0 where
  pub held : String → S → Option Entry
  pub get_reply : (k : String) (s : S) → r.get k s ≡ value_of (held k s)
  pub setnx_reply :
      (k v : String) (t : ℕ) (s : S) → (r.setnx k v (suc t) s).0 ≡ not (is_some (held k s))
  pub setnx_held :
      (k v : String) (t : ℕ) (s : S) (q : String)
      → held q (r.setnx k v (suc t) s).1
        ≡ (if (q == k) && not (is_some (held k s)) then some (v, suc t) else held q s)
  pub del_reply : (k : String) (s : S) → (r.del k s).0 ≡ one_if (is_some (held k s))
  pub del_held :
      (k : String) (s : S) (q : String) → held q (r.del k s).1 ≡ (if q == k then none else held q s)
  pub pexpire_reply :
      (k : String) (t : ℕ) (s : S) → (r.pexpire k t s).0 ≡ one_if (is_some (held k s))
  pub pexpire_held :
      (k : String) (t : ℕ) (s : S) (q : String)
      → held q (r.pexpire k t s).1 ≡ (if q == k then renewed t (held q s) else held q s)
  pub wait_held : (d : ℕ) (s : S) (q : String) → held q (r.wait d s) ≡ aged d (held q s)

abbrev pub is_value : String → Option String → Bool
is_value v none = false
is_value v (some u) = u == v

module _ {S : Type 0} (r : Server S) where
  -- The script of Release
  unfoldable pub release_script : String → String → S → ℕ × S
  release_script key value s = if is_value value (r.get key s) then r.del key s else (0, s)

  -- The script of Extend
  unfoldable pub extend_script : String → String → ℕ → S → ℕ × S
  extend_script key value t s = if is_value value (r.get key s) then r.pexpire key t s else (0, s)

  -- SetNX on the server, to which the client sends the time to live, a time.Duration, in
  -- milliseconds
  abbrev pub served : Command → S → Bool × S
  served (set_nx key value ttl) s = r.setnx key value (ttl / 10 ^ 6) s
  served _ s = (false, s)

  -- The scripts on the server, with the arguments that Eval passes
  abbrev pub evaluated : Command → S → ℕ × S
  evaluated (eval_release key value) s = release_script key value s
  evaluated (eval_extend key value t) s = extend_script key value t s
  evaluated _ s = (0, s)

-- The last command that was sent
abbrev pub newest : List Command → Command
newest [] = get ""
newest (c ∷ cs) = c
