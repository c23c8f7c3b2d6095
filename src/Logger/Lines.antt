-- ===== src/Logger/Lines.antt =====
-- Which lines a sequence of messages leaves, and where.
use cli_chat.Base.{
  ◌≡◌, ◌∙◌, ap, sym, Bool, not, ◌&&◌, List, [], ◌∷◌, ◌++◌, Bool-cases, inl, inr, append-nil,
  append_assoc, leb, if◌then◌else◌, arith,
}
use cli_chat.Text.{Bytes}
use cli_chat.Logger.{LogLevel, error, rank, Logger, format_message, log}

-- A call of `log`, with the time at which it reads the clock.
pub record Entry : Type 0 where
  pub timestamp : Bytes
  pub level : LogLevel
  pub message : Bytes

abbrev pub log_all : List Entry → Logger → Logger
log_all [] l = l
log_all (e ∷ es) l = log_all es (log e.timestamp e.level e.message l)

-- The lines of the entries that a test keeps, in order.
abbrev pub lines : (LogLevel → Bool) → List Entry → List Bytes
lines keep [] = []
lines keep (e ∷ es) =
    let rest = lines keep es in
    if keep e.level then format_message e.timestamp e.level e.message ∷ rest else rest

abbrev pub passes : LogLevel → LogLevel → Bool
passes threshold level = leb (rank threshold) (rank level)

abbrev pub is_error : LogLevel → Bool
is_error level = leb (rank error) (rank level)

log-fields :
    (e : Entry) (l : Logger)
    → let v = log e.timestamp e.level e.message l in
      let line = format_message e.timestamp e.level e.message ∷ [] in
      (v.log_level ≡ l.log_level)
      × (v.file_stream ≡ l.file_stream)
      × (v.errors
          ≡ l.errors ++ (if passes l.log_level e.level && is_error e.level then line else []))
      × (v.console
          ≡ l.console
            ++ (if passes l.log_level e.level && not (is_error e.level) then line else []))
      × (v.file ≡ l.file ++ (if passes l.log_level e.level && l.file_stream then line else []))
unfolding log
log-fields e l = ground (arith, append-nil l.errors, append-nil l.console, append-nil l.file)

-- One more entry, in front of the others.
lines-step :
    (keep : LogLevel → Bool) (e : Entry) (es : List Entry) (xs : List Bytes)
    → (xs ++ (if keep e.level then format_message e.timestamp e.level e.message ∷ [] else []))
        ++ lines keep es
      ≡ xs ++ lines keep (e ∷ es)
lines-step keep e es xs = elim (Bool-cases (keep e.level)) [
  | inl k ↦
      rw k (append_assoc xs (format_message e.timestamp e.level e.message ∷ []) (lines keep es))
  | inr k ↦ rw k (ap (λ (ys : List Bytes). ys ++ lines keep es) (append-nil xs))
]

-- Any sequence of messages, at a level and with a file open or not: the errors have got exactly the
-- lines of the messages at or above both the level and ERROR, the console those of the others at or
-- above the level, and the file, if one is open, both, each in the order of the messages.
pub log_all-lines :
    (es : List Entry) (l : Logger)
    → let v = log_all es l in
      (v.errors ≡ l.errors ++ lines (λ level. passes l.log_level level && is_error level) es)
      × (v.console
          ≡ l.console ++ lines (λ level. passes l.log_level level && not (is_error level)) es)
      × (v.file ≡ l.file ++ lines (λ level. passes l.log_level level && l.file_stream) es)
log_all-lines [] l =
    (sym (append-nil l.errors), sym (append-nil l.console), sym (append-nil l.file))
log_all-lines (e ∷ es) l =
    let next = log e.timestamp e.level e.message l in
    let (level, stream, errors, console, file) = log-fields e l in
    let (later_errors, later_console, later_file) = log_all-lines es next in
    (
      later_errors
          ∙ ap (λ (t : LogLevel). next.errors ++ lines (λ k. passes t k && is_error k) es) level
          ∙ ap (λ (xs : List Bytes). xs ++ lines (λ k. passes l.log_level k && is_error k) es)
              errors
          ∙ lines-step (λ k. passes l.log_level k && is_error k) e es l.errors,
      later_console
          ∙ ap (λ (t : LogLevel). next.console ++ lines (λ k. passes t k && not (is_error k)) es)
              level
          ∙ ap (λ (xs : List Bytes). xs ++ lines (λ k. passes l.log_level k && not (is_error k)) es)
              console
          ∙ lines-step (λ k. passes l.log_level k && not (is_error k)) e es l.console,
      later_file
          ∙ ap (λ (t : LogLevel). next.file ++ lines (λ k. passes t k && next.file_stream) es) level
          ∙ ap (λ (b : Bool). next.file ++ lines (λ k. passes l.log_level k && b) es) stream
          ∙ ap (λ (xs : List Bytes). xs ++ lines (λ k. passes l.log_level k && l.file_stream) es)
              file
          ∙ lines-step (λ k. passes l.log_level k && l.file_stream) e es l.file,
    )
