-- ===== src/Comm/Log/Levels.antt =====
-- flconc/comm/log.cc: the names of the levels are read back.
use flconc.Base.{◌≡◌, refl, same_bytes}
use flconc.Comm.Log.{LogLevel, debug, info, warn, error, silent, level_to_string, string_to_level}

-- Every level is read back from its name.
pub string_to_level-level_to_string :
    (level : LogLevel) → string_to_level (level_to_string level) ≡ level
unfolding string_to_level level_to_string same_bytes
string_to_level-level_to_string debug = refl
string_to_level-level_to_string info = refl
string_to_level-level_to_string warn = refl
string_to_level-level_to_string error = refl
string_to_level-level_to_string silent = refl
