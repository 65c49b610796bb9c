-- ===== src/Redis/Client.antt =====
-- internal/infrastructure/redis/client.go; the package's NewClient and Ping are parameters.
use go_event_ticket_reservat.Prelude.{String}
use go_event_ticket_reservat.Prelude.Int.{ℤ}
use go_event_ticket_reservat.Prelude.Text.{text_append}
use go_event_ticket_reservat.Errors.{Result, ok, err, wrapped}

pub record ClientConfig : Type 0 where
  pub host : String
  pub port : String
  pub password : String
  pub db : ℤ

-- The fields of redis.Options that are set
pub record Options : Type 0 where
  pub addr : String
  pub password : String
  pub db : ℤ

abbrev pinged : {C : Type 0} → C → Result (Unit {0}) → Result C
pinged client (ok _) = ok client
pinged client (err e) = err (wrapped "Redis接続に失敗" e)

-- NewClient
unfoldable pub new_client :
    {C : Type 0} → (Options → C) → (C → Result (Unit {0})) → ClientConfig → Result C
new_client make ping cfg =
    let client = make (record {
      addr = text_append cfg.host (text_append ":" cfg.port);
      password = cfg.password;
      db = cfg.db;
    }) in
    pinged client (ping client)
