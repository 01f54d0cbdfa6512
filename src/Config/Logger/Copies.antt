-- ===== src/Config/Logger/Copies.antt =====
-- How often the logger of config/logger.go hands an entry to its writers.
use chain_api.Common.{
  ℕ, ◌+◌, Bool, true, false, [], ◌∷◌, ◌++◌, ◌≡◌, refl, count_if, if◌then◌else◌, arith, Bool-cases,
  inl, inr,
}
use chain_api.Config.Settings.{Log}
use chain_api.Config.Logger.{
  Level, debug, info, warn, error, dpanic, panic, fatal, Sink, stdout, log_file, level_of,
  get_write_syncer, get_encoder_core, new_logger, enabled, written,
}

abbrev is_stdout : Sink → Bool
is_stdout stdout = true
is_stdout log_file = false

abbrev is_log_file : Sink → Bool
is_log_file stdout = false
is_log_file log_file = true

abbrev pub once_if : Bool → ℕ
once_if true = 1
once_if false = 0

-- How many of the levels error, dpanic, panic and fatal a level reaches.
abbrev pub severe : Level → ℕ
severe debug = 0
severe info = 0
severe warn = 0
severe error = 1
severe dpanic = 2
severe panic = 3
severe fatal = 4

-- How many lines of an entry are handed to the terminal, and how many to the writer of the file.
abbrev pub to_terminal : Bool → Log → Level → ℕ
to_terminal is_pattern log entry =
    count_if is_stdout (written (new_logger is_pattern log).cores entry)

abbrev pub to_file : Bool → Log → Level → ℕ
to_file is_pattern log entry =
    count_if is_log_file (written (new_logger is_pattern log).cores entry)

-- The core at the configured level, which is the last of the tee.
last_line :
    (b : Bool)
    → let lines = (if b then log_file ∷ [] else []) ++ [] in
      (count_if is_stdout lines ≡ 0) × (count_if is_log_file lines ≡ once_if b)
last_line true = (refl, refl)
last_line false = (refl, refl)

copies_lem :
    (is_development : Bool) (threshold entry : Level)
    → let lines =
        written
          (get_encoder_core (get_write_syncer true is_development) is_development threshold)
          entry in
      (count_if is_stdout lines ≡ (if is_development then once_if (enabled threshold entry) else 0))
      × (count_if is_log_file lines
          ≡ (if is_development then 0 else severe entry) + once_if (enabled threshold entry))
unfolding get_write_syncer get_encoder_core written
copies_lem true threshold entry = elim (Bool-cases (enabled threshold entry)) [
  | inl e ↦ rw e (refl, refl)
  | inr e ↦ rw e (refl, refl)
]
copies_lem false threshold debug = omega (arith, last_line (enabled threshold debug))
copies_lem false threshold entry = omega (arith, last_line (enabled threshold entry))

-- Where the pattern of the file's name is taken, an entry is handed to the writer of the log file once
-- if its level is at least the configured one, and, outside development, once more for each of the
-- levels error, dpanic, panic and fatal that it reaches, whatever the configured level; to the terminal
-- in development only, once if its level is at least the configured one. Where the pattern is refused,
-- the logger has no core and an entry is handed to neither.
pub new_logger-lines :
    (log : Log) (entry : Level)
    → let due : ℕ = once_if (enabled (level_of log.level) entry) in
      (to_terminal true log entry ≡ (if log.is_development then due else 0))
      × (to_file true log entry ≡ (if log.is_development then 0 else severe entry) + due)
      × (to_terminal false log entry ≡ 0)
      × (to_file false log entry ≡ 0)
unfolding new_logger get_write_syncer get_encoder_core written
new_logger-lines log entry =
    let (a, b) = copies_lem log.is_development (level_of log.level) entry in (a, b, refl, refl)
