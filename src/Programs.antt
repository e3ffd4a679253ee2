-- ===== src/Programs.antt =====
-- src/client/main.cpp and src/server/main.cpp: the two programs.
pub mod ClientMain
pub mod ServerMain
pub mod ClientOptions
pub mod Signals
use kirdi.Base.{Text, codes, same_bytes, if◌then◌else◌}
use kirdi.Logger.{LogLevel}

-- The level that a configuration names; another name leaves it as it is.
unfoldable pub level_of : Text → LogLevel → LogLevel
unfolding same_bytes
level_of name level =
    if same_bytes name (codes "trace")
    then LogLevel.trace
    else if same_bytes name (codes "debug")
    then LogLevel.debug
    else if same_bytes name (codes "warn")
    then LogLevel.warn
    else if same_bytes name (codes "error")
    then LogLevel.error
    else level
