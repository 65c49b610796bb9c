-- ===== src/Config.antt =====
-- internal/config/config.go
use go_event_ticket_reservat.Prelude.{
  ◌*◌, ◌^◌, String, ◌≡◌, refl, ap, Option, none, some, ◌==◌, if◌then◌else◌, Bool-cases, inl, inr,
  eq_iff, ◌≢◌,
}
use go_event_ticket_reservat.Prelude.Int.{ℤ, pos}
use go_event_ticket_reservat.Prelude.Text.{text_append}

pub record ServerConfig : Type 0 where
  pub port : String
  pub read_timeout : ℤ
  pub write_timeout : ℤ

pub record DatabaseConfig : Type 0 where
  pub host : String
  pub port : String
  pub user : String
  pub password : String
  pub db_name : String
  pub ssl_mode : String

pub record RedisConfig : Type 0 where
  pub host : String
  pub port : String
  pub password : String
  pub db : ℤ

pub record Config : Type 0 where
  pub server : ServerConfig
  pub database : DatabaseConfig
  pub redis : RedisConfig

-- What is read of a URL: its user has a name and perhaps a password.
pub record Url : Type 0 where
  pub hostname : String
  pub port : String
  pub user : Option (String × Option String)
  pub path : String
  pub query : String → String

-- The packages that are called: strconv.Atoi, time.ParseDuration, url.Parse, strings.TrimPrefix
pub record Parsers : Type 0 where
  pub atoi : String → Option ℤ
  pub parse_duration : String → Option ℤ
  pub parse_url : String → Option Url
  pub trim_prefix : String → String → String

-- os.Getenv: the empty text where a variable is not set
abbrev pub Environment : Type 0
Environment = String → String

unfoldable pub get_env : Environment → String → String → String
get_env g key default = if g key == "" then default else g key

abbrev pub or_default : {A : Type 0} → Option A → A → A
or_default none default = default
or_default (some a) default = a

unfoldable pub get_int_env : Parsers → Environment → String → ℤ → ℤ
get_int_env p g key default = if g key == "" then default else or_default (p.atoi (g key)) default

unfoldable pub get_duration_env : Parsers → Environment → String → ℤ → ℤ
get_duration_env p g key default =
    if g key == "" then default else or_default (p.parse_duration (g key)) default

-- The configuration of the variables, before the URLs
unfoldable pub from_variables : Parsers → Environment → Config
unfolding get_env get_int_env get_duration_env
from_variables p g = record {
  server = record {
    port = get_env g "PORT" "8080";
    read_timeout = get_duration_env p g "SERVER_READ_TIMEOUT" (pos (30 * 10 ^ 9));
    write_timeout = get_duration_env p g "SERVER_WRITE_TIMEOUT" (pos (30 * 10 ^ 9));
  };
  database = record {
    host = get_env g "DB_HOST" "localhost";
    port = get_env g "DB_PORT" "5433";
    user = get_env g "DB_USER" "postgres";
    password = get_env g "DB_PASSWORD" "postgres";
    db_name = get_env g "DB_NAME" "ticket_reservation";
    ssl_mode = get_env g "DB_SSLMODE" "disable";
  };
  redis = record {
    host = get_env g "REDIS_HOST" "localhost";
    port = get_env g "REDIS_PORT" "6379";
    password = get_env g "REDIS_PASSWORD" "";
    db = get_int_env p g "REDIS_DB" (pos 0);
  };
}

abbrev user_name : Option (String × Option String) → String → String
user_name none before = before
user_name (some (name, pwd)) before = name

abbrev user_password : Option (String × Option String) → String → String
user_password none before = before
user_password (some (name, pwd)) before = or_default pwd before

-- What DATABASE_URL overrides
unfoldable pub apply_database_url : Parsers → Url → DatabaseConfig → DatabaseConfig
apply_database_url p u c = record {
  host = u.hostname;
  port = u.port;
  user = user_name u.user c.user;
  password = user_password u.user c.password;
  db_name = p.trim_prefix u.path "/";
  ssl_mode = if u.query "sslmode" == "" then "require" else u.query "sslmode";
}

-- What REDIS_URL overrides
unfoldable pub apply_redis_url : Url → RedisConfig → RedisConfig
apply_redis_url u c = record c {
  host = u.hostname;
  port = u.port;
  password = user_password u.user c.password;
}

abbrev pub with_url : {A : Type 0} → Parsers → String → (Url → A → A) → A → A
with_url p text f a =
    if text == "" then a else elim (p.parse_url text) [ none ↦ a | some u ↦ f u a ]

unfoldable pub load : Parsers → Environment → Config
unfolding from_variables apply_database_url apply_redis_url
load p g =
    let c = from_variables p g in
    record c {
      database = with_url p (g "DATABASE_URL") (apply_database_url p) c.database;
      redis = with_url p (g "REDIS_URL") apply_redis_url c.redis;
    }

-- DSN
unfoldable pub dsn : DatabaseConfig → String
dsn c = text_append "host=" (
    text_append c.host (
      text_append " port=" (
        text_append c.port (
          text_append " user=" (
            text_append c.user (
              text_append " password=" (
                text_append c.password (
                  text_append " dbname="
                    (text_append c.db_name (text_append " sslmode=" c.ssl_mode))))))))))

-- Addr
unfoldable pub addr : RedisConfig → String
addr c = text_append c.host (text_append ":" c.port)

with_url_lem :
    {A : Type 0} (p : Parsers) (text : String) (u : Url) (f : Url → A → A) (a : A)
    → text ≢ ""
    → p.parse_url text ≡ some u
    → with_url p text f a ≡ f u a
with_url_lem p text u f a given e = elim (Bool-cases (text == "")) [
  | inl b ↦ absurd (given ((eq_iff text "").0 b))
  | inr b ↦ rw (b, e) refl
]

database_lem :
    (p : Parsers) (text text' : String) (u : Url) (name pwd : String) (c c' : DatabaseConfig)
    → text ≢ ""
    → p.parse_url text ≡ some u
    → u.user ≡ some (name, some pwd)
    → text' ≡ text
    → with_url p text' (apply_database_url p) c' ≡ with_url p text (apply_database_url p) c
unfolding apply_database_url
database_lem p text text' u name pwd c c' given e user same =
    rw
      (
        same,
        with_url_lem p text u (apply_database_url p) c given e,
        with_url_lem p text u (apply_database_url p) c' given e,
        user,
      )
      refl

redis_lem :
    (p : Parsers) (text text' : String) (u : Url) (name pwd : String) (c c' : RedisConfig)
    → text ≢ ""
    → p.parse_url text ≡ some u
    → u.user ≡ some (name, some pwd)
    → text' ≡ text
    → (addr (with_url p text' apply_redis_url c') ≡ addr (with_url p text apply_redis_url c))
      × ((with_url p text' apply_redis_url c').password
          ≡ (with_url p text apply_redis_url c).password)
unfolding apply_redis_url addr
redis_lem p text text' u name pwd c c' given e user same =
    rw
      (
        same,
        with_url_lem p text u apply_redis_url c given e,
        with_url_lem p text u apply_redis_url c' given e,
        user,
      )
      (refl, refl)

-- If DATABASE_URL and REDIS_URL are set and parse, with a name and a password in each, then the
-- connection string of PostgreSQL and the address and password of Redis are the same in any two
-- environments that agree on the two: no other variable has any effect on them.
pub load-Url :
    (p : Parsers) (g g' : Environment) (u r : Url) (name pwd rname rpwd : String)
    → g "DATABASE_URL" ≢ ""
    → g "REDIS_URL" ≢ ""
    → p.parse_url (g "DATABASE_URL") ≡ some u
    → p.parse_url (g "REDIS_URL") ≡ some r
    → u.user ≡ some (name, some pwd)
    → r.user ≡ some (rname, some rpwd)
    → g' "DATABASE_URL" ≡ g "DATABASE_URL"
    → g' "REDIS_URL" ≡ g "REDIS_URL"
    → (dsn (load p g').database ≡ dsn (load p g).database)
      × (addr (load p g').redis ≡ addr (load p g).redis)
      × ((load p g').redis.password ≡ (load p g).redis.password)
unfolding load
load-Url p g g' u r name pwd rname rpwd set rset e re un rn d k =
    let (a, b) =
      redis_lem p (g "REDIS_URL") (g' "REDIS_URL") r rname rpwd (from_variables p g).redis
        (from_variables p g').redis rset re rn k in
    (
      ap dsn (
          database_lem p (g "DATABASE_URL") (g' "DATABASE_URL") u name pwd
            (from_variables p g).database (from_variables p g').database set e un d),
      a,
      b,
    )
