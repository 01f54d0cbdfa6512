-- ===== src/Config/Logger/Tests.antt =====
-- The logger of config/logger.go at the level warn, in production.
use chain_api.Common.{◌≡◌, false, true}
use chain_api.Config.Settings.{Log}
use chain_api.Config.Logger.{fatal, level_of}
use chain_api.Config.Logger.Copies.{to_terminal, to_file, new_logger-lines}

abbrev production : Log
production = record { level = "warn"; is_development = false; log_file = "" }

-- An entry that ends the process has five lines.
new_logger-lines_example :
    (to_terminal true production fatal ≡ 0)
    × (to_file true production fatal ≡ 5)
    × (to_terminal false production fatal ≡ 0)
    × (to_file false production fatal ≡ 0)
unfolding level_of
new_logger-lines_example = new_logger-lines production fatal
