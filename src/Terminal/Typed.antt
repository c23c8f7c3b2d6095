-- ===== src/Terminal/Typed.antt =====
-- From a line of the terminal to the handler of the server.
use cli_chat.Base.{
  Bool, length-append, append_assoc, ◌≡◌, refl, ◌∙◌, ap, sym, ℕ, ◌+◌, ◌-◌, true, false, not, [],
  ◌∷◌, ◌++◌, some, ltb, length, is_empty, arith, if◌then◌else◌,
}
use cli_chat.Text.{Bytes, codes, equal, starts_with, find, substr, substr_from, ends_with}
use cli_chat.Text.Laws.{Lacks, find-append, substr-at, substr_from-at}
use cli_chat.Message.{colon, build_private_message, build_broadcast_message}
use cli_chat.Server.State.{Platform, World, M, ◌>>=◌, ◌>>◌}
use cli_chat.Server.Session.{
  Env, max_message_length, start_read, handle_private_message, handle_broadcast_message,
}
use cli_chat.Server.Dispatch.{process_message, handle_read}
use cli_chat.Server.Wire.{process_message-private, process_message-broadcast}
use cli_chat.Client.{ChatClient, send_raw_message, send_message, send_private_message}
use cli_chat.Terminal.{TerminalUi, chat_line}

-- `@recipient message`, as it is typed.
abbrev pub typed_private : Bytes → Bytes → Bytes
typed_private r m = codes "@" ++ (r ++ b' ' ∷ m)

send_private_message-line :
    (r m : Bytes) (c : ChatClient)
    → c.authenticated ≡ true
    → send_private_message r m c ≡ send_raw_message (build_private_message r m ++ b'\n' ∷ []) c
unfolding send_private_message build_private_message
send_private_message-line r m c auth =
    let sent = send_raw_message (codes "@" ++ (r ++ colon ∷ (m ++ b'\n' ∷ []))) c in
    ap (λ (b : Bool). if not b then c else sent) auth
    ∙ ap (λ (line : Bytes). send_raw_message (b'@' ∷ line) c)
        (sym (append_assoc r (colon ∷ m) (b'\n' ∷ [])))

chat_line-private :
    (r m : Bytes) (ui : TerminalUi)
    → ui.client.authenticated ≡ true
    → Lacks b' ' r
    → chat_line (typed_private r m) ui ≡ (
      true,
      record ui { client = send_raw_message (build_private_message r m ++ b'\n' ∷ []) ui.client },
    )
unfolding chat_line equal starts_with
chat_line-private r m ui auth l =
    let found : find (typed_private r m) b' ' ≡ some (1 + length r) =
      ground (arith, find-append (codes "@" ++ r) m b' ' l) in
    let recipient : substr (typed_private r m) 1 (1 + length r - 1) ≡ some r =
      substr-at (codes "@") r (b' ' ∷ m) refl refl (omega arith) in
    let message : substr_from (typed_private r m) (1 + length r + 1) ≡ some m =
      substr_from-at (codes "@" ++ (r ++ b' ' ∷ [])) m
        (ap (◌++◌ (codes "@")) (sym (append_assoc r (b' ' ∷ []) m)))
        (omega (arith, length-append r (b' ' ∷ []))) in
    rw (found, chat_line)
      (rw recipient (
        rw message (
          ap (λ (c : ChatClient). (true, record ui { client = c }))
            (send_private_message-line r m ui.client auth))))

handle_read-line :
    (p : Platform) (env : Env) (id : ℕ) (line : Bytes) (w : World p.Db)
    → ltb max_message_length (length line) ≡ false
    → ends_with line b'\r' ≡ false
    → handle_read p env id (some line) w ≡ (process_message p env id line >> start_read p id) w
unfolding handle_read
handle_read-line p env id line w short plain = rw (short, plain) refl

same_start :
    {Db : Type 0} (m n k : M Db (Unit {0})) (w : World Db) → m w ≡ n w → (m >> k) w ≡ (n >> k) w
same_start m n k w e = rw (◌>>=◌, e) refl

-- A line that `chatMode` sends to everybody.
pub record IsPublic (s : Bytes) : Type 0 where
  pub filled : is_empty s ≡ false
  pub no_quit : equal s (codes "quit") ≡ false
  pub no_exit : equal s (codes "exit") ≡ false
  pub no_help : equal s (codes "help") ≡ false
  pub no_users : equal s (codes "users") ≡ false
  pub no_at : starts_with s (codes "@") ≡ false

chat_line-public :
    (s : Bytes) (ui : TerminalUi)
    → ui.client.authenticated ≡ true
    → IsPublic s
    → chat_line s ui ≡ (
      true,
      record ui { client = send_raw_message (build_broadcast_message s ++ b'\n' ∷ []) ui.client },
    )
unfolding chat_line send_message build_broadcast_message
chat_line-public s ui auth k =
    rw (k.filled, k.no_quit, k.no_exit, k.no_help, k.no_users, k.no_at, auth) refl

module _ (p : Platform) (env : Env) (id : ℕ) (w : World p.Db) (ui : TerminalUi)
    (online : ui.client.authenticated ≡ true) (accepted : (w.objects id).authenticated ≡ true) where
  -- In the chat mode of a client that is authenticated, `@recipient message` is sent as one line that
  -- the server, from an authenticated session, runs as that private message before it reads on. The
  -- recipient is not empty and holds no space and no colon, and the line has at most 4096 bytes and
  -- does not end in a carriage return.
  pub typed_private_message :
      (r m : Bytes)
      → Lacks b' ' r
      → Lacks colon r
      → is_empty r ≡ false
      → let line = build_private_message r m in
        ltb max_message_length (length line) ≡ false
        → ends_with line b'\r' ≡ false
        → (chat_line (typed_private r m) ui
            ≡ (true, record ui { client = send_raw_message (line ++ b'\n' ∷ []) ui.client }))
          × (handle_read p env id (some line) w
              ≡ (handle_private_message p env id r m >> start_read p id) w)
  typed_private_message r m spaceless colonless filled short plain =
      let line = build_private_message r m in
      (
        chat_line-private r m ui online spaceless,
        handle_read-line p env id line w short plain
            ∙ same_start (process_message p env id line) (handle_private_message p env id r m)
                (start_read p id) w
                (process_message-private p env id w r m accepted colonless filled),
      )

  -- In the chat mode of a client that is authenticated, any line but an empty one, `quit`, `exit`,
  -- `help`, `users` and one that begins with `@` is sent as one line that the server, from an
  -- authenticated session, runs as a broadcast of exactly that text before it reads on. The line has
  -- at most 4096 bytes with its `broadcast:` and does not end in a carriage return.
  pub typed_broadcast :
      (s : Bytes)
      → IsPublic s
      → let line = build_broadcast_message s in
        ltb max_message_length (length line) ≡ false
        → ends_with line b'\r' ≡ false
        → (chat_line s ui
            ≡ (true, record ui { client = send_raw_message (line ++ b'\n' ∷ []) ui.client }))
          × (handle_read p env id (some line) w
              ≡ (handle_broadcast_message p env id s >> start_read p id) w)
  typed_broadcast s public short plain =
      let line = build_broadcast_message s in
      (
        chat_line-public s ui online public,
        handle_read-line p env id line w short plain
            ∙ same_start (process_message p env id line) (handle_broadcast_message p env id s)
                (start_read p id) w (process_message-broadcast p env id w s accepted),
      )
