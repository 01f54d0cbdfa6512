-- ===== src/Config/Logger.antt =====
-- config/logger.go: `NewLogger`, the entries that it writes and where they go.
-- zap is not part of the repository. Of it stands here what its documentation says: a core is a level
-- and the places that it writes to, and writes the entries of its level and above; each core of a tee
-- writes; a logger without a core writes nothing. Whether `rotatelogs.New` takes the pattern of the
-- file's name is a parameter. It opens no file: that is done at the write, and its failure is outside of
-- the model, which says what is handed to the terminal and to the writer of the file.
pub mod Copies
mod Tests
use chain_api.Common.{
  ℕ, String, Bool, true, false, Option, none, some, List, [], ◌∷◌, ◌++◌, ◌==◌, ◌||◌, nat_eq, ltb,
  leb, if◌then◌else◌,
}
use chain_api.Config.Settings.{Log}

-- zap's levels.
pub data Level : Type 0 where
  debug info warn error dpanic panic fatal : Level

-- The order of the levels; zap counts from -1.
abbrev pub severity : Level → ℕ
severity debug = 0
severity info = 1
severity warn = 2
severity error = 3
severity dpanic = 4
severity panic = 5
severity fatal = 6

pub data Sink : Type 0 where
  stdout log_file : Sink

pub record Core : Type 0 where
  pub level : Level
  pub sinks : List Sink

-- The cores of the tee, the level from which an entry has the stack, and the option of the caller.
pub record Logger : Type 0 where
  pub cores : List Core
  pub stacktrace : Option Level
  pub caller : Bool

-- The `switch` of `NewLogger`.
pub level_of : String → Level
level_of name =
    if name == "debug"
    then debug
    else if name == "info"
    then info
    else if name == "warn"
    then warn
    else if name == "error"
    then error
    else if name == "dpanic"
    then dpanic
    else if name == "panic"
    then panic
    else if name == "fatal"
    then fatal
    else info

-- `none` is the error of `rotatelogs.New`.
pub get_write_syncer : Bool → Bool → Option (List Sink)
get_write_syncer is_pattern is_development =
    if is_pattern
    then some (if is_development then stdout ∷ log_file ∷ [] else log_file ∷ [])
    else none

-- A nil core, which is no core, where there is no writer.
pub get_encoder_core : Option (List Sink) → Bool → Level → List Core
get_encoder_core none is_development level = []
get_encoder_core (some writer) true level = record { level = level; sinks = writer } ∷ []
get_encoder_core (some writer) false level =
    record { level = error; sinks = writer }
    ∷ record { level = dpanic; sinks = writer }
    ∷ record { level = panic; sinks = writer }
    ∷ record { level = fatal; sinks = writer }
    ∷ record { level = level; sinks = writer }
    ∷ []

abbrev wants_stack : Level → Bool
wants_stack level =
    nat_eq (severity level) (severity debug) || ltb (severity error) (severity level)

pub new_logger : Bool → Log → Logger
unfolding level_of get_write_syncer get_encoder_core
new_logger is_pattern log = record {
  cores =
      get_encoder_core (get_write_syncer is_pattern log.is_development) log.is_development
        (level_of log.level);
  stacktrace = if wants_stack (level_of log.level) then some (level_of log.level) else none;
  caller = true;
}

abbrev pub enabled : Level → Level → Bool
enabled threshold level = leb (severity threshold) (severity level)

-- The places that an entry of a level is handed to, each as often as it is.
pub written : List Core → Level → List Sink
written [] level = []
written (core ∷ rest) level =
    (if enabled core.level level then core.sinks else []) ++ written rest level
