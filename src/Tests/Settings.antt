-- ===== src/Tests/Settings.antt =====
-- The configuration at a concrete environment.
use go_event_ticket_reservat.Prelude.{◌≡◌, refl, some, none, ◌==◌, if◌then◌else◌, eq_iff}
use go_event_ticket_reservat.Config.{Url, Parsers, Environment, load, dsn, addr, load-Url}

abbrev url : Url
url = record {
  hostname = "db";
  port = "5432";
  user = some ("u", some "p");
  path = "/tickets";
  query = λ k. "";
}

abbrev parsers : Parsers
parsers = record {
  atoi = λ s. none;
  parse_duration = λ s. none;
  parse_url = λ s. some url;
  trim_prefix = λ s t. "tickets";
}

abbrev plain : Environment
plain k = if k == "DATABASE_URL" then "postgres" else if k == "REDIS_URL" then "redis" else ""

-- The same, with every other variable set
abbrev noisy : Environment
noisy k = if k == "DATABASE_URL" then "postgres" else if k == "REDIS_URL" then "redis" else "x"

load-Url_example :
    (dsn (load parsers noisy).database ≡ dsn (load parsers plain).database)
    × (addr (load parsers noisy).redis ≡ addr (load parsers plain).redis)
    × ((load parsers noisy).redis.password ≡ (load parsers plain).redis.password)
load-Url_example =
    load-Url parsers plain noisy url url "u" "p" "u" "p"
      (λ e. let same = (eq_iff "postgres" "").1 e in cc)
      (λ e. let same = (eq_iff "redis" "").1 e in cc) refl refl refl refl refl refl
