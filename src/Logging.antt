-- ===== src/Logging.antt =====
-- smlog/src/smlog.cpp with the library of logging, and the functions of cserver/cserver.cpp that
-- set it up. What is logged, and where it goes to, is that library's (log4cpp).
pub mod Setup
pub mod Text
mod Runs
use emserver.Base.{
  ℕ, ◌+◌, List, [], ◌∷◌, ◌++◌, Option, none, some, Bool, true, false, not, ◌&&◌, ◌||◌, Run, done,
  crash, out_of_bounds, ◌>>=◌, Bytes, codes, length, take, ltb, leb, ◌==◌, if◌then◌else◌,
}
use emserver.Api.{Global}

-- log4cpp::Priority, with the levels that are used.
pub data Priority : Type 0 where
  debug info warn error fatal : Priority

-- The root category: its priority, and its appenders for files by their names. The console's is
-- there from the start, and is left out.
pub record Root : Type 0 where
  pub priority : Priority
  pub file_appenders : List (Bytes × Bytes)

-- SimpleSmallLogger::SimpleSmallLogger
unfoldable pub small_logger : Root
small_logger = record { priority = debug; file_appenders = [] }

-- SimpleSmallLogger::setLoggingLevel
unfoldable pub set_logging_level : Priority → Root → Root
set_logging_level lvl root = record root { priority = lvl }

unfoldable pub eq_bytes : Bytes → Bytes → Bool
eq_bytes [] [] = true
eq_bytes (a ∷ as_) (b ∷ bs) = (a == b) && eq_bytes as_ bs
eq_bytes _ _ = false

-- getAppender: whether the category has an appender of that name.
unfoldable pub has_appender : Bytes → List (Bytes × Bytes) → Bool
unfolding eq_bytes
has_appender name [] = false
has_appender name ((n, file) ∷ appenders) = eq_bytes n name || has_appender name appenders

abbrev pub appender_name : Bytes
appender_name = codes "DebugFileAppender"

-- SimpleSmallLogger::addFileAppender
unfoldable pub add_file_appender : Bytes → Root → Root
unfolding has_appender
add_file_appender file root =
    if has_appender appender_name root.file_appenders
    then root
    else record root { file_appenders = root.file_appenders ++ ((appender_name, file) ∷ []) }

-- ServerLoggingLevel::MaxValue
abbrev pub max_value : ℕ
max_value = 5

-- CServer::setLoggingLevel. `lvl` is a ServerLoggingLevel by its number.
unfoldable pub server_set_logging_level : ℕ → Root → Bool × Root
unfolding set_logging_level
server_set_logging_level lvl root =
    if lvl == 0
    then (true, set_logging_level debug root)
    else (if lvl == 1
        then (true, set_logging_level info root)
        else (if lvl == 2
            then (true, set_logging_level warn root)
            else (if lvl == 3
                then (true, set_logging_level error root)
                else (if lvl == 4
                    then (true, set_logging_level fatal root)
                    else (false, set_logging_level info root)))))

-- server_update_loglevel. `lvl` is a uint32_t.
unfoldable pub server_update_loglevel : ℕ → Global → Root → Bool × Root
unfolding server_set_logging_level
server_update_loglevel lvl none root = (false, root)
server_update_loglevel lvl (some server) root =
    if leb max_value lvl then (false, root) else server_set_logging_level lvl root

-- CnString: what can be read from pStringData on, and none if it is null.
pub record CnString : Type 0 where
  pub string_data : Option Bytes
  pub size : ℕ

-- CServer::setLoggingPath
unfoldable pub set_logging_path : Bytes → ℕ → Root → Run Root
unfolding add_file_appender
set_logging_path bytes size root =
    if leb size (length bytes)
    then done (add_file_appender (take size bytes ++ codes "/cnserver.log") root)
    else crash out_of_bounds

unfoldable pub path_of : Option Bytes → ℕ → Root → Run Root
unfolding set_logging_path
path_of none size root = done root
path_of (some bytes) size root = if size == 0 then done root else set_logging_path bytes size root

-- server_update_logpath. `path` may be null.
unfoldable pub server_update_logpath : Option CnString → Global → Root → Run Root
unfolding path_of
server_update_logpath path none root = done root
server_update_logpath none (some server) root = done root
server_update_logpath (some path) (some server) root = path_of path.string_data path.size root
