-- ===== src/Message/Reserved.antt =====
-- Which branch of `parse` a line `sender: content` takes.
use cli_chat.Base.{ℕ, ◌≡◌, refl, false, List, [], ◌∷◌, ◌++◌, arith, any}
use cli_chat.Text.{Bytes, codes, starts_with, equal}
use cli_chat.Text.Laws.{Lacks, starts_with-Lacks}
use cli_chat.Message.{colon, parse, parse_broadcast}

-- The words that `parse` looks for in front of the first colon.
abbrev pub protocol_words : List Bytes
protocol_words =
    codes "login"
    ∷ codes "register"
    ∷ codes "auth"
    ∷ codes "users"
    ∷ codes "error"
    ∷ codes "system"
    ∷ codes "private"
    ∷ []

-- A name that no branch of the protocol claims.
pub record IsPlain (s : Bytes) : Type 0 where
  pub no_colon : Lacks colon s
  pub no_word : any (equal s) protocol_words ≡ false
  pub no_at : starts_with s (codes "@") ≡ false

starts_with-at :
    (s t : Bytes)
    → starts_with s (codes "@") ≡ false
    → starts_with (s ++ colon ∷ t) (codes "@") ≡ false
unfolding starts_with
starts_with-at [] t h = ground arith
starts_with-at (a ∷ s) t h = ground arith

-- A line that begins with a plain name and a colon is read as a broadcast.
pub parse-IsPlain :
    (now : ℕ) (s t : Bytes)
    → IsPlain s
    → parse now (s ++ colon ∷ t) ≡ parse_broadcast now (s ++ colon ∷ t)
unfolding parse
parse-IsPlain now s t p = ground (
  arith,
  starts_with-Lacks (codes "login") s t colon refl p.no_colon,
  starts_with-Lacks (codes "register") s t colon refl p.no_colon,
  starts_with-Lacks (codes "auth") s t colon refl p.no_colon,
  starts_with-Lacks (codes "users") s t colon refl p.no_colon,
  starts_with-Lacks (codes "error") s t colon refl p.no_colon,
  starts_with-Lacks (codes "system") s t colon refl p.no_colon,
  starts_with-Lacks (codes "private") s t colon refl p.no_colon,
  starts_with-at s t p.no_at,
)
