-- ===== src/Message/RoundTrip.antt =====
-- What `serialize` writes, `parse` reads back.
use cli_chat.Base.{
  ℕ, ◌+◌, ◌-◌, ◌≡◌, refl, ap, sym, ◌⊎◌, inl, inr, true, false, [], ◌∷◌, ◌++◌, some, arith, is_empty,
  length, length-append, append_assoc,
}
use cli_chat.Text.{Bytes, codes, starts_with}
use cli_chat.Text.Laws.{
  Lacks, find-append, find_from-append, find-none, substr-at, substr_from-at, starts_with-Lacks_all,
}
use cli_chat.Message.Reserved.{IsPlain, parse-IsPlain}
use cli_chat.Message.{
  serialize, serialize_as, MessageType, broadcast, private, system, auth, user_list, error,
  ChatMessage, colon, parse, parse_broadcast, parse_private, parse_at,
}

-- A message that its line determines, by type.
abbrev pub CanonicalAs : MessageType → ChatMessage → Type 0
CanonicalAs broadcast m =
    (m.recipient ≡ [])
    × ((is_empty m.sender ≡ false) × IsPlain m.sender
        ⊎ (m.sender ≡ []) × Lacks colon m.content × (starts_with m.content (codes "@") ≡ false))
CanonicalAs private m =
    (is_empty m.sender ≡ false) × Lacks colon m.sender × (m.recipient ≡ [])
    ⊎ (m.sender ≡ []) × Lacks colon m.recipient
CanonicalAs system m = (m.sender ≡ []) × (m.recipient ≡ [])
CanonicalAs error m = (m.sender ≡ []) × (m.recipient ≡ [])
CanonicalAs auth m =
    (m.sender ≡ [])
    × (m.recipient ≡ [])
    × ((starts_with m.content (codes "login:") ≡ true)
        ⊎ (starts_with m.content (codes "register:") ≡ true)
        ⊎ (starts_with m.content (codes "auth:") ≡ true))
CanonicalAs user_list m =
    (m.sender ≡ []) × (m.recipient ≡ []) × (starts_with m.content (codes "users:") ≡ true)

abbrev pub IsCanonical : ChatMessage → Type 0
IsCanonical m = CanonicalAs m.type m

module _ (now : ℕ) (s c : Bytes) where
  parse_broadcast-pair :
      Lacks colon s
      → parse_broadcast now (s ++ (codes ": " ++ c))
        ≡ some
            (record { type = broadcast; sender = s; recipient = []; content = c; timestamp = now })
  unfolding parse_broadcast
  parse_broadcast-pair h =
      let raw = s ++ (codes ": " ++ c) in
      rw (find-append s (b' ' ∷ c) colon h, parse_broadcast)
        (ground (
          arith,
          substr-at {raw = raw} [] s (codes ": " ++ c) {i = 0} {n = length s} refl refl refl,
          substr_from-at {raw = raw} (s ++ codes ": ") c {i = length s + 2}
              (sym (append_assoc s (codes ": ") c)) (omega (arith, length-append s (codes ": "))),
        ))

  parse_private-pair :
      Lacks colon s
      → parse_private now (codes "private:" ++ (s ++ colon ∷ c))
        ≡ some (record { type = private; sender = s; recipient = []; content = c; timestamp = now })
  unfolding parse_private
  parse_private-pair h =
      let raw = codes "private:" ++ (s ++ colon ∷ c) in
      rw (find_from-append (codes "private:") s c colon h, parse_private)
        (ground (
          arith,
          substr-at {raw = raw} (codes "private:") s (colon ∷ c) {i = 8} {n = 8 + length s - 8} refl
              refl (omega arith),
          substr_from-at {raw = raw} (codes "private:" ++ (s ++ colon ∷ [])) c
              {i = 8 + length s + 1}
              (ap (◌++◌ (codes "private:")) (sym (append_assoc s (colon ∷ []) c)))
              (omega (arith, length-append s (colon ∷ []))),
        ))

  parse_at-pair :
      Lacks colon s
      → parse_at now (codes "@" ++ (s ++ colon ∷ c))
        ≡ some (record { type = private; sender = []; recipient = s; content = c; timestamp = now })
  unfolding parse_at
  parse_at-pair h =
      let raw = codes "@" ++ (s ++ colon ∷ c) in
      rw (find-append (codes "@" ++ s) c colon h, parse_at)
        (ground (
          arith,
          substr-at {raw = raw} (codes "@") s (colon ∷ c) {i = 1} {n = length (codes "@" ++ s) - 1}
              refl refl (omega arith),
          substr_from-at {raw = raw} (codes "@" ++ (s ++ colon ∷ [])) c
              {i = length (codes "@" ++ s) + 1}
              (ap (◌++◌ (codes "@")) (sym (append_assoc s (colon ∷ []) c)))
              (omega (arith, length-append s (colon ∷ []))),
        ))

-- A line with no colon is read as a broadcast with no sender.
parse-bare :
    (now : ℕ) (c : Bytes)
    → Lacks colon c
    → starts_with c (codes "@") ≡ false
    → parse now c
      ≡ some
          (record { type = broadcast; sender = []; recipient = []; content = c; timestamp = now })
unfolding parse parse_broadcast
parse-bare now c h a = ground (
  arith,
  starts_with-Lacks_all (codes "login") c colon h,
  starts_with-Lacks_all (codes "register") c colon h,
  starts_with-Lacks_all (codes "auth") c colon h,
  starts_with-Lacks_all (codes "users") c colon h,
  starts_with-Lacks_all (codes "error") c colon h,
  starts_with-Lacks_all (codes "system") c colon h,
  starts_with-Lacks_all (codes "private") c colon h,
  find-none c colon h,
)

parse-serialize_as :
    (t : MessageType) (now : ℕ) (m : ChatMessage)
    → m.type ≡ t
    → CanonicalAs t m
    → parse now (serialize_as t m) ≡ some (record m { timestamp = now })
unfolding parse serialize_as starts_with
parse-serialize_as broadcast now m e (r, inl (n, p)) = ground (
  arith,
  parse-IsPlain now m.sender (b' ' ∷ m.content) p,
  parse_broadcast-pair now m.sender m.content p.no_colon,
)
parse-serialize_as broadcast now m e (r, inr (n, l, a)) =
    ground (arith, parse-bare now m.content l a)
parse-serialize_as private now m e (inl (n, l, r)) =
    ground (arith, parse_private-pair now m.sender m.content l)
parse-serialize_as private now m e (inr (n, l)) =
    ground (arith, parse_at-pair now m.recipient m.content l)
parse-serialize_as system now m e (s, r) = ground (
  arith,
  substr_from-at {raw = codes "system:" ++ m.content} (codes "system:") m.content {i = 7} refl refl,
)
parse-serialize_as error now m e (s, r) = ground (
  arith,
  substr_from-at {raw = codes "error:" ++ m.content} (codes "error:") m.content {i = 6} refl refl,
)
parse-serialize_as auth now m e (s, r, h) = ground arith
parse-serialize_as user_list now m e (s, r, h) = ground arith

-- Parsing the line of a canonical message gives the message back, with the time of the parse. A
-- message is canonical if its unused fields are empty and its line determines it: a broadcast has a
-- sender that is not empty, has no colon, does not begin with `@` and is no protocol word, or has no
-- sender and a content with no colon that does not begin with `@`; a private message has a sender or
-- a recipient with no colon, and not both; an `auth` or `user_list` message carries its prefix.
pub parse-serialize :
    (now : ℕ) (m : ChatMessage)
    → IsCanonical m
    → parse now (serialize m) ≡ some (record m { timestamp = now })
unfolding serialize
parse-serialize now m h = parse-serialize_as m.type now m refl h
