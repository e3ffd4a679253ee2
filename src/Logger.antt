-- ===== src/Logger.antt =====
-- src/common/logger.hpp: the logger, with what it wrote to `std::cerr`.
pub mod Filename
use kirdi.Base.{ℕ, ◌+◌, ltb, ◌==◌, ◌||◌, if◌then◌else◌, Bool, Text, codes, List, [], ◌∷◌, ◌++◌}
use kirdi.Base.{Option, none, some, drop}
use kirdi.Base.Decimal.{to_string}

pub data LogLevel : Type 0 where
  trace : LogLevel
  debug : LogLevel
  info : LogLevel
  warn : LogLevel
  error : LogLevel
  fatal : LogLevel

abbrev pub rank : LogLevel → ℕ
rank LogLevel.trace = 0
rank LogLevel.debug = 1
rank LogLevel.info = 2
rank LogLevel.warn = 3
rank LogLevel.error = 4
rank LogLevel.fatal = 5

pub record Logger : Type 0 where
  pub level : LogLevel
  pub written : List Text

unfoldable pub new_logger : Logger
new_logger = record { level = LogLevel.info; written = [] }

unfoldable pub set_level : LogLevel → Logger → Logger
set_level level logger = record logger { level = level }

unfoldable pub level_str : LogLevel → Text
level_str LogLevel.trace = codes "TRACE"
level_str LogLevel.debug = codes "DEBUG"
level_str LogLevel.info = codes " INFO"
level_str LogLevel.warn = codes " WARN"
level_str LogLevel.error = codes "ERROR"
level_str LogLevel.fatal = codes "FATAL"

-- `/` or `\`
abbrev pub is_separator : ℕ → Bool
is_separator c = c == 47 || c == 92

-- `find_last_of("/\\")`
unfoldable pub find_last_of : Text → Option ℕ
find_last_of [] = none
find_last_of (c ∷ text) = elim (find_last_of text) [
  | some pos ↦ some (pos + 1)
  | none ↦ if is_separator c then some 0 else none
]

unfoldable pub extract_filename : Text → Text
unfolding find_last_of
extract_filename path = elim (find_last_of path) [ none ↦ path | some pos ↦ drop (pos + 1) path ]

-- `stamp`: the time as `std::format` prints it.
unfoldable pub log : Text → LogLevel → Text → Text → ℕ → Logger → Logger
unfolding level_str extract_filename to_string
log stamp level msg file line logger =
    if ltb (rank level) (rank logger.level)
    then logger
    else record logger { written = logger.written ++ (text ∷ []) }
  where
    text : Text
    text =
        stamp
        ++ codes " "
        ++ level_str level
        ++ codes " ["
        ++ extract_filename file
        ++ codes ":"
        ++ to_string line
        ++ codes "] "
        ++ msg
        ++ codes "\n"
