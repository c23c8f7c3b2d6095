-- ===== src/Logger.antt =====
-- src/common/logger.hpp and logger.cpp: `Logger`. The time stamp is what `getCurrentTimestamp` reads from
-- the clock. A line is appended to the console or to the file as a whole.
pub mod Lines
mod Tests
use cli_chat.Base.{
  ℕ, Bool, true, false, List, [], ◌∷◌, ◌++◌, Option, none, some, ltb, leb, is_empty, if◌then◌else◌,
}
use cli_chat.Text.{Bytes, codes}

pub data LogLevel : Type 0 where
  debug info warning error fatal : LogLevel

-- The values of the enumeration.
abbrev pub rank : LogLevel → ℕ
rank debug = 0
rank info = 1
rank warning = 2
rank error = 3
rank fatal = 4

-- `file_stream` says that a stream is open on `log_file`. The console and that file have the lines
-- written since.
pub record Logger : Type 0 where
  pub log_level : LogLevel
  pub log_file : Bytes
  pub file_stream : Bool
  pub console : List Bytes
  pub errors : List Bytes
  pub file : List Bytes

abbrev pub new_logger : Logger
new_logger = record {
  log_level = info;
  log_file = [];
  file_stream = false;
  console = [];
  errors = [];
  file = [];
}

-- Logger::setLogLevel
unfoldable pub set_log_level : LogLevel → Logger → Logger
set_log_level level l = record l { log_level = level }

-- Logger::setLogFile; `opens` says whether the file can be opened, and what it holds then.
unfoldable pub set_log_file : (Bytes → Option (List Bytes)) → Bytes → Logger → Logger
set_log_file opens filename l =
    let named = record l { log_file = filename } in
    if is_empty filename then record named { file_stream = false } else elim (opens filename) [
      | some lines ↦ record named { file_stream = true; file = lines }
      | none ↦ record named {
        file_stream = false;
        errors = l.errors ++ (codes "Failed to open log file: " ++ filename) ∷ [];
      }
    ]

-- Logger::levelToString
unfoldable pub level_to_string : LogLevel → Bytes
level_to_string debug = codes "DEBUG"
level_to_string info = codes "INFO"
level_to_string warning = codes "WARN"
level_to_string error = codes "ERROR"
level_to_string fatal = codes "FATAL"

-- Logger::formatMessage
unfoldable pub format_message : Bytes → LogLevel → Bytes → Bytes
unfolding level_to_string
format_message timestamp level message =
    codes "["
    ++ (timestamp
        ++ (codes "] " ++ (codes "[" ++ (level_to_string level ++ (codes "] " ++ message)))))

-- Logger::log
unfoldable pub log : Bytes → LogLevel → Bytes → Logger → Logger
unfolding format_message
log timestamp level message l =
    let line = format_message timestamp level message ∷ [] in
    let shown =
      if leb (rank error) (rank level)
      then record l { errors = l.errors ++ line }
      else record l { console = l.console ++ line } in
    let written = if l.file_stream then record shown { file = l.file ++ line } else shown in
    if ltb (rank level) (rank l.log_level) then l else written

-- Logger::debug, info, warning, error and fatal.
abbrev log_debug : Bytes → Bytes → Logger → Logger
log_debug timestamp message = log timestamp debug message

abbrev log_info : Bytes → Bytes → Logger → Logger
log_info timestamp message = log timestamp info message

abbrev log_warning : Bytes → Bytes → Logger → Logger
log_warning timestamp message = log timestamp warning message

abbrev log_error : Bytes → Bytes → Logger → Logger
log_error timestamp message = log timestamp error message

abbrev log_fatal : Bytes → Bytes → Logger → Logger
log_fatal timestamp message = log timestamp fatal message
