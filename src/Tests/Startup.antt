-- ===== src/Tests/Startup.antt =====
-- The start of the program at concrete inputs.
use go_event_ticket_reservat.Prelude.{
  String, ◌≡◌, refl, Bool, true, false, Option, none, some, ◌||◌, ◌==◌, List, [], ◌∷◌,
}
use go_event_ticket_reservat.Prelude.Text.{text_append}
use go_event_ticket_reservat.Errors.{ok, err, driver}
use go_event_ticket_reservat.Logger.{Zap}
use go_event_ticket_reservat.Main.{Platform, main}
use go_event_ticket_reservat.Main.Shutdown.{Orderly, main-Orderly}
use go_event_ticket_reservat.Prelude.Tables.{contains}
use go_event_ticket_reservat.Metrics.{
  Vec, Registerer, metric_names, new_with_registry, new_with_registry-Once,
}

abbrev zap : Zap String String
zap = record {
  production = "info json";
  development = "debug console";
  time_key = λ k c. text_append c k;
  iso8601_times = λ c. c;
  capital_colored_levels = λ c. c;
  unmarshal_level = λ s. none;
  set_level = λ l c. text_append c l;
}

-- Redis does not answer.
abbrev platform : Platform String String String String
platform = record {
  environment = λ k. "";
  parsers = record {
    atoi = λ s. none;
    parse_duration = λ s. none;
    parse_url = λ s. none;
    trim_prefix = λ s t. s;
  };
  zap = zap;
  sqlx = record {
    connect = λ s. ok s;
    set_max_open_conns = λ n d. d;
    set_max_idle_conns = λ n d. d;
  };
  run_migrations = λ d s. ok tt;
  make_redis = λ o. o.addr;
  ping = λ r. err driver;
  served = ok tt;
  shut_down = ok tt;
}

main-Orderly_example : Orderly (main platform)
main-Orderly_example = main-Orderly platform refl

-- A registry as the list of its names
abbrev added : Bool → Vec → List String → Option (List String)
added true v names = none
added false v names = some (v.name ∷ names)

refused : (b : Bool) (v : Vec) (names : List String) → b ≡ true → added b v names ≡ none
refused b v names e = rw e refl

accepted :
    (b : Bool) (v : Vec) (names : List String)
    → b ≡ false
    → (more : List String) × (added b v names ≡ some more)
      × ((name : String) → contains more name ≡ ((name == v.name) || contains names name))
accepted b v names e = (v.name ∷ names, rw e refl, λ name. refl)

registry : Registerer (List String)
registry = record {
  register = λ v names. added (contains names v.name) v names;
  registered = λ name names. contains names name;
  refuses = λ v names. refused (contains names v.name) v names;
  accepts = λ v names. accepted (contains names v.name) v names;
}

new_with_registry-Once_example :
    (r : List String) × (new_with_registry registry [] ≡ some r)
    × ((name : String)
        → registry.registered name r ≡ (contains metric_names name || registry.registered name []))
    × (new_with_registry registry r ≡ none)
unfolding registry
new_with_registry-Once_example = new_with_registry-Once registry [] (λ name h. refl)
