-- ===== src/Metrics.antt =====
-- NewWithRegistry of internal/pkg/metrics/metrics.go; the registry is a parameter, with what the
-- package documents of it.
use go_event_ticket_reservat.Prelude.{
  String, ◌≡◌, refl, Bool, true, false, ◌||◌, Option, none, some, List, [], ◌∷◌, ◌==◌, arith,
  eq_iff,
}
use go_event_ticket_reservat.Prelude.Tables.{contains}

-- The options of a counter, a histogram or a gauge with labels; help and buckets are left out.
pub record Vec : Type 0 where
  pub name : String
  pub labels : List String

-- Register of a registry on a state of it; it fails for a name that is registered.
pub record Registerer (R : Type 0) : Type 0 where
  pub register : Vec → R → Option R
  pub registered : String → R → Bool
  pub refuses : (v : Vec) (r : R) → registered v.name r ≡ true → register v r ≡ none
  pub accepts :
      (v : Vec) (r : R)
      → registered v.name r ≡ false
      → (r' : R) × (register v r ≡ some r')
        × ((name : String) → registered name r' ≡ ((name == v.name) || registered name r))

abbrev pub http_requests_total : Vec
http_requests_total = record {
  name = "http_requests_total";
  labels = "method" ∷ "path" ∷ "status_code" ∷ [];
}

abbrev pub http_request_duration : Vec
http_request_duration = record {
  name = "http_request_duration_seconds";
  labels = "method" ∷ "path" ∷ [];
}

abbrev pub reservations_total : Vec
reservations_total = record { name = "reservations_total"; labels = "status" ∷ [] }

abbrev pub distributed_lock_duration : Vec
distributed_lock_duration = record {
  name = "distributed_lock_duration_seconds";
  labels = "operation" ∷ "status" ∷ [];
}

abbrev pub active_reservations : Vec
active_reservations = record { name = "active_reservations"; labels = "status" ∷ [] }

abbrev pub vectors : List Vec
vectors =
    http_requests_total ∷ http_request_duration ∷ reservations_total ∷ distributed_lock_duration
    ∷ active_reservations ∷ []

-- The names of metrics that the program documents
abbrev pub metric_names : List String
metric_names =
    "http_requests_total" ∷ "http_request_duration_seconds" ∷ "reservations_total"
    ∷ "distributed_lock_duration_seconds" ∷ "active_reservations" ∷ []

module _ {R : Type 0} (reg : Registerer R) where
  abbrev unless_refused : Option R → (R → Option R) → Option R
  unless_refused none rest = none
  unless_refused (some r) rest = rest r

  -- MustRegister: it panics where one of them is refused.
  unfoldable pub must_register : List Vec → R → Option R
  must_register [] r = some r
  must_register (v ∷ vs) r = unless_refused (reg.register v r) (λ r'. must_register vs r')

  -- NewWithRegistry: the registry after it, or a panic
  unfoldable pub new_with_registry : R → Option R
  unfolding must_register
  new_with_registry = must_register vectors

  -- None of the names is registered.
  abbrev pub AllNew : List Vec → R → Type 0
  AllNew [] r = Unit
  AllNew (v ∷ vs) r = (reg.registered v.name r ≡ false) × AllNew vs r

  abbrev named : List Vec → String → Bool
  named [] name = false
  named (v ∷ vs) name = name == v.name || named vs name

  abbrev Different : List Vec → Type 0
  Different [] = Unit
  Different (v ∷ vs) = (named vs v.name ≡ false) × Different vs

  AllNew-after :
      (v : Vec) (vs : List Vec) (r r' : R)
      → named vs v.name ≡ false
      → ((name : String) → reg.registered name r' ≡ ((name == v.name) || reg.registered name r))
      → AllNew vs r
      → AllNew vs r'
  AllNew-after v [] r r' other grows all = tt
  AllNew-after v (w ∷ vs) r r' other grows (new, all) = (
    ground (arith, grows w.name, eq_iff w.name v.name, eq_iff v.name w.name),
    AllNew-after v vs r r' (ground arith) grows all,
  )

  -- The names are registered then, and those that were.
  record Registered (vs : List Vec) (r : R) : Type 0 where
    after : R
    succeeds : must_register vs r ≡ some after
    names : (name : String) → reg.registered name after ≡ (named vs name || reg.registered name r)

  must_register-Registered : (vs : List Vec) (r : R) → Different vs → AllNew vs r → Registered vs r
  unfolding must_register
  must_register-Registered [] r different all = record {
    after = r;
    succeeds = refl;
    names = λ name. refl;
  }
  must_register-Registered (v ∷ vs) r (other, different) (new, all) =
      let (r₁, is, grows) = reg.accepts v r new in
      let rest =
        must_register-Registered vs r₁ different (AllNew-after v vs r r₁ other grows all) in
      record {
        after = rest.after;
        succeeds = rw is rest.succeeds;
        names = λ name.
            ground (arith, rest.names name, grows name, eq_iff name v.name, eq_iff v.name name);
      }

  -- On a registry that has none of the names `metric_names`, NewWithRegistry returns, and then these
  -- five names are registered and those that were, and no others; a second one on the same registry
  -- panics.
  pub new_with_registry-Once :
      (r : R)
      → ((name : String) → contains metric_names name ≡ true → reg.registered name r ≡ false)
      → (r' : R) × (new_with_registry r ≡ some r')
        × ((name : String)
            → reg.registered name r' ≡ (contains metric_names name || reg.registered name r))
        × (new_with_registry r' ≡ none)
  unfolding new_with_registry must_register
  new_with_registry-Once r free =
      let all : AllNew vectors r =
        (free _ refl, (free _ refl, (free _ refl, (free _ refl, (free _ refl, tt))))) in
      let done =
        must_register-Registered vectors r (refl, (refl, (refl, (refl, (refl, tt))))) all in
      (
        done.after,
        done.succeeds,
        done.names,
        rw (reg.refuses http_requests_total done.after (done.names "http_requests_total")) refl,
      )
