-- ===== src/Logger.antt =====
-- NewLogger of internal/pkg/logger/logger.go; zap is a parameter.
use go_event_ticket_reservat.Prelude.{String, Option, none, some, ◌==◌, if◌then◌else◌}
use go_event_ticket_reservat.Config.{Environment}

-- zap.Config with the fields that are set, NewProductionConfig and NewDevelopmentConfig, and
-- UnmarshalText of a level
pub record Zap (C L : Type 0) : Type 0 where
  pub production : C
  pub development : C
  pub time_key : String → C → C
  pub iso8601_times : C → C
  pub capital_colored_levels : C → C
  pub unmarshal_level : String → Option L
  pub set_level : L → C → C

module _ {C L : Type 0} (z : Zap C L) where
  -- The configuration for the environment
  unfoldable pub for_environment : String → C
  for_environment env =
      if env == "production"
      then z.iso8601_times (z.time_key "timestamp" z.production)
      else z.capital_colored_levels z.development

  abbrev leveled : Option L → C → C
  leveled none config = config
  leveled (some level) config = z.set_level level config

  -- The configuration from which NewLogger builds the logger
  unfoldable pub new_logger : Environment → String → C
  unfolding for_environment
  new_logger getenv env =
      let level = getenv "LOG_LEVEL" in
      if level == ""
      then for_environment env
      else leveled (z.unmarshal_level level) (for_environment env)
