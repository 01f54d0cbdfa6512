-- ===== src/Commands/ChainApi.antt =====
-- cmd/chainapi/chainapi.go and `Start` of pkg/app/app.go: the command of the server. The package cli is a
-- parameter: what it makes of the flags, of which `config` is required. So is the server of the web
-- framework, which returns when it stops.
use chain_api.Common.{String, Bool, Option, none, some, Result, ok, err, if◌then◌else◌}
use chain_api.InitApp.NewApp.{Machine, StartError, Server, new_app}

pub record Flags : Type 0 where
  pub config : String
  pub rpc_config : String

-- How the process ends: a panic without a time zone, flags that cli refuses, an end in `NewApp`, or the
-- end of the server, with its error if there is one.
pub data ExitCause (DbError : Type 0) : Type 0 where
  no_time_zone bad_flags : ExitCause DbError
  not_started : StartError DbError → ExitCause DbError
  stopped : Option String → ExitCause DbError

module _ (M : Machine) where
  open M use {viper, gorm, jq}

  abbrev pub Made : Type 0
  Made = Server viper.RedisConf gorm.Db jq.Query

  -- `Start` listens on the address of the configuration.
  abbrev pub started :
      (String → Made → Option String) → Result (StartError gorm.Error) Made → ExitCause gorm.Error
  started serve (err e) = not_started e
  started serve (ok s) = stopped (serve s.config.listen s)

  abbrev pub with_flags : (String → Made → Option String) → Option Flags → ExitCause gorm.Error
  with_flags serve none = bad_flags
  with_flags serve (some flags) = started serve (new_app M flags.config flags.rpc_config)

  -- `main`
  pub main : Bool → Option Flags → (String → Made → Option String) → ExitCause gorm.Error
  main sets_time_zone flags serve = if sets_time_zone then with_flags serve flags else no_time_zone
