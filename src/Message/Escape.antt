-- ===== src/Message/Escape.antt =====
-- `escapeString` and `unescapeString`.
use cli_chat.Base.{◌≡◌, refl, [], ◌∷◌, arith}
use cli_chat.Text.{Bytes}
use cli_chat.Message.{escape_string, unescape_string}

-- Unescaping what was escaped gives every text back.
unescape_string-escape_string : (s : Bytes) → unescape_string (escape_string s) ≡ s
unfolding unescape_string escape_string
unescape_string-escape_string [] = refl
unescape_string-escape_string (c ∷ s) = ground (arith, unescape_string-escape_string s)
