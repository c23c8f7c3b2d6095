-- ===== src/Logger/Tests.antt =====
-- Three messages at the level that the logger starts with, INFO, with a file open.
use cli_chat.Base.{◌≡◌, refl, ◌&&◌, not, true, List, [], ◌∷◌, ◌++◌}
use cli_chat.Text.{codes}
use cli_chat.Logger.{debug, info, fatal, Logger, new_logger, log, format_message, level_to_string}
use cli_chat.Logger.Lines.{Entry, log_all, lines, passes, is_error, log_all-lines}

abbrev entries : List Entry
entries =
    record { timestamp = codes "t1"; level = debug; message = codes "a" }
    ∷ record { timestamp = codes "t2"; level = info; message = codes "b" }
    ∷ record { timestamp = codes "t3"; level = fatal; message = codes "c" }
    ∷ []

abbrev logger : Logger
logger = record new_logger { file_stream = true }

log_all-lines_example :
    let v = log_all entries logger in
    (v.errors ≡ [] ++ lines (λ level. passes info level && is_error level) entries)
    × (v.console ≡ [] ++ lines (λ level. passes info level && not (is_error level)) entries)
    × (v.file ≡ [] ++ lines (λ level. passes info level && true) entries)
log_all-lines_example = log_all-lines entries logger

in_file : (log_all entries logger).file ≡ codes "[t2] [INFO] b" ∷ codes "[t3] [FATAL] c" ∷ []
unfolding log format_message level_to_string
in_file = refl
