-- ===== src/Protocol/Broadcast.antt =====
-- A broadcast line `name: content`, from `handleBroadcastMessage` to the other clients.
use cli_chat.Base.{
  drop, ◌≡◌, refl, inl, inr, ◌+◌, false, List, [], ◌∷◌, ◌++◌, some, arith, any, is_empty,
  Option-cases,
}
use cli_chat.Text.{Bytes, codes, equal, starts_with, find_from}
use cli_chat.Text.Laws.{
  Lacks, starts_with-Lacks, substr_from-at, find_from-bounds, substr_from-some,
}
use cli_chat.Client.{ChatClient, on_message, emit, say, auth_reply, process_message}

-- The line that the server sends for a broadcast, without the line end.
abbrev pub broadcast_line : Bytes → Bytes → Bytes
broadcast_line name content = name ++ (codes ": " ++ content)

-- The words that the client looks for in front of the first colon.
abbrev pub reply_words : List Bytes
reply_words =
    codes "auth"
    ∷ codes "users"
    ∷ codes "private"
    ∷ codes "system"
    ∷ codes "error"
    ∷ codes "private_sent"
    ∷ []

is_empty-line : (name content : Bytes) → is_empty (broadcast_line name content) ≡ false
is_empty-line [] content = refl
is_empty-line (a ∷ name) content = refl

-- A broadcast under a name that holds no colon and is none of the client's words arrives as it is
-- displayed, and changes nothing else at the client.
pub process_message-broadcast_line :
    (name content : Bytes) (c : ChatClient)
    → Lacks b':' name
    → any (equal name) reply_words ≡ false
    → process_message (broadcast_line name content) c
      ≡ some (emit c.callbacks.message (on_message (broadcast_line name content)) c)
unfolding process_message
process_message-broadcast_line name content c l h = ground (
  arith,
  starts_with-Lacks (codes "auth") name (b' ' ∷ content) b':' refl l,
  starts_with-Lacks (codes "users") name (b' ' ∷ content) b':' refl l,
  starts_with-Lacks (codes "private") name (b' ' ∷ content) b':' refl l,
  starts_with-Lacks (codes "system") name (b' ' ∷ content) b':' refl l,
  starts_with-Lacks (codes "error") name (b' ' ∷ content) b':' refl l,
  starts_with-Lacks (codes "private_sent") name (b' ' ∷ content) b':' refl l,
  is_empty-line name content,
)

say-authenticated : (text : Bytes) (c : ChatClient) → (say text c).authenticated ≡ c.authenticated
say-authenticated text c = ground arith

-- Whatever a user named `auth` broadcasts, each client that receives it takes it for a failed login
-- and is no longer authenticated in its own view.
pub process_message-from_auth :
    (content : Bytes) (c : ChatClient)
    → (d : ChatClient) × (process_message (broadcast_line (codes "auth") content) c ≡ some d)
      × (d.authenticated ≡ false)
unfolding process_message auth_reply starts_with
process_message-from_auth content c =
    let line = broadcast_line (codes "auth") content in
    let failed = record c { authenticated = false } in
    elim (Option-cases (find_from line b':' 11)) [
      | inl n ↦ (
        say (codes "Authentication failed") failed,
        rw n,
        say-authenticated (codes "Authentication failed") failed,
      )
      | inr (i, n) ↦
          let (lo, hi) = find_from-bounds line b':' 11 i n in
          (
            say (drop (i + 1) line) failed,
            rw n (rw (substr_from-some line (i + 1) (omega arith))),
            say-authenticated (drop (i + 1) line) failed,
          )
    ]

-- Whatever a user named `system` broadcasts arrives as a message of the system.
pub process_message-from_system :
    (content : Bytes) (c : ChatClient)
    → process_message (broadcast_line (codes "system") content) c ≡ some (say (b' ' ∷ content) c)
unfolding process_message starts_with
process_message-from_system content c = rw (
    substr_from-at {raw = broadcast_line (codes "system") content} (codes "system:")
      (b' ' ∷ content) {i = 7} refl refl)
