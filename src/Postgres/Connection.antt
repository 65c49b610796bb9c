-- ===== src/Postgres/Connection.antt =====
-- internal/infrastructure/postgres/db.go; sqlx is a parameter.
use go_event_ticket_reservat.Prelude.{ℕ, String}
use go_event_ticket_reservat.Errors.{Result, ok, err, wrapped}
use go_event_ticket_reservat.Config.{DatabaseConfig, dsn}

-- sqlx.Connect for the driver "postgres", SetMaxOpenConns and SetMaxIdleConns
pub record Sqlx (D : Type 0) : Type 0 where
  pub connect : String → Result D
  pub set_max_open_conns : ℕ → D → D
  pub set_max_idle_conns : ℕ → D → D

abbrev pooled : {D : Type 0} → Sqlx D → Result D → Result D
pooled x (ok db) = ok (x.set_max_idle_conns 5 (x.set_max_open_conns 25 db))
pooled x (err e) = err (wrapped "データベース接続に失敗しました" e)

-- NewConnection
unfoldable pub new_connection : {D : Type 0} → Sqlx D → DatabaseConfig → Result D
unfolding dsn
new_connection x cfg = pooled x (x.connect (dsn cfg))
