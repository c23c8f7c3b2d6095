-- ===== src/Server/Wire.antt =====
-- The lines that the builders of `MessageParser` write, as `processMessage` runs them.
use cli_chat.Base.{
  ltb, ◌≡◌, refl, ◌∙◌, ap, sym, ℕ, ◌+◌, true, false, [], ◌∷◌, ◌++◌, some, arith, is_empty, length,
}
use cli_chat.Text.{Bytes, codes, starts_with, find, find_from}
use cli_chat.Text.Laws.{starts_with-append, Lacks, find-append, find_from-append, substr_from-at}
use cli_chat.Message.{
  colon, build_login_message, build_register_message, build_broadcast_message,
  build_private_message,
}
use cli_chat.Server.State.{returned, Platform, World, ◌>>=◌, pure, send_message}
use cli_chat.Server.Session.{
  Env, handle_login, handle_register, handle_private_message, handle_broadcast_message,
}
use cli_chat.Server.Dispatch.{
  login_command, register_command, private_command, process_as, process_message,
}
use cli_chat.Server.Fields.{
  login_fields-build, register_fields-build, register_fields-short, private_fields-build,
  second_colon-none, second_colon-some, build_register_message-full, build_register_message-front,
}

module _ (p : Platform) (env : Env) (id : ℕ) (w : World p.Db) where
  login_command-build :
      (u pw : Bytes)
      → Lacks colon u
      → login_command p env id (build_login_message u pw) w
        ≡ (handle_login p env id u pw >>= λ _. pure tt) w
  unfolding login_command
  login_command-build u pw l =
      let found : find_from (build_login_message u pw) colon 6 ≡ some (6 + length u) =
        unfold build_login_message in find_from-append (codes "login:") u pw colon l in
      rw (found, login_command) (rw (login_fields-build u pw))

  -- From a session that is not authenticated, the line of a login with a name that holds no
  -- colon is a login with that name and that password, colons in the password included.
  pub process_message-login :
      (u pw : Bytes)
      → (w.objects id).authenticated ≡ false
      → Lacks colon u
      → process_message p env id (build_login_message u pw) w
        ≡ (handle_login p env id u pw >>= λ _. pure tt) w
  unfolding process_message process_as login_command
  process_message-login u pw anon l =
      let front : starts_with (build_login_message u pw) (codes "login:") ≡ true =
        unfold build_login_message in starts_with-append (codes "login:") (u ++ colon ∷ pw) in
      rw anon (rw front (login_command-build u pw l))

  register_command-full :
      (u pw email : Bytes)
      → Lacks colon u
      → Lacks colon pw
      → register_command p env id (codes "register:" ++ (u ++ colon ∷ (pw ++ colon ∷ email))) w
        ≡ (handle_register p env id u pw email >>= λ _. pure tt) w
  unfolding register_command
  register_command-full u pw email l k =
      rw (find_from-append (codes "register:") u (pw ++ colon ∷ email) colon l, register_command)
        (rw (second_colon-some u pw email k) (rw (register_fields-build u pw email)))

  register_command-build :
      (u pw email : Bytes)
      → Lacks colon u
      → Lacks colon pw
      → register_command p env id (build_register_message u pw email) w
        ≡ (handle_register p env id u pw email >>= λ _. pure tt) w
  unfolding register_command build_register_message
  register_command-build u pw [] l k =
      rw (find_from-append (codes "register:") u pw colon l, register_command)
        (rw (second_colon-none u pw k) (rw (register_fields-short u pw)))
  register_command-build u pw (x ∷ email) l k =
      ap (λ (m : Bytes). register_command p env id m w)
        (build_register_message-full u pw (x ∷ email) refl)
      ∙ register_command-full u pw (x ∷ email) l k

  -- From a session that is not authenticated, the line of a registration, with an e-mail
  -- address or without, is that registration, if neither the name nor the password holds a
  -- colon.
  pub process_message-register :
      (u pw email : Bytes)
      → (w.objects id).authenticated ≡ false
      → Lacks colon u
      → Lacks colon pw
      → process_message p env id (build_register_message u pw email) w
        ≡ (handle_register p env id u pw email >>= λ _. pure tt) w
  unfolding process_message process_as
  process_message-register u pw email anon l k =
      let (no_login, front) = build_register_message-front u pw email in
      rw anon (rw no_login (rw front (register_command-build u pw email l k)))

  -- A colon in the password of a registration without an address, from a session that is not
  -- authenticated, with no colon in the name and something behind the first colon of the
  -- password: the server registers the part in front of that colon as the password, and takes
  -- the rest for the address.
  pub process_message-register_split :
      (u pw rest : Bytes)
      → (w.objects id).authenticated ≡ false
      → Lacks colon u
      → Lacks colon pw
      → is_empty rest ≡ false
      → process_message p env id (build_register_message u (pw ++ colon ∷ rest) []) w
        ≡ (handle_register p env id u pw rest >>= λ _. pure tt) w
  unfolding build_register_message
  process_message-register_split u pw rest anon l k ne =
      ap (λ (m : Bytes). process_message p env id m w)
        (sym (build_register_message-full u pw rest ne))
      ∙ process_message-register u pw rest anon l k

  -- Any line of a session that is not authenticated, but those that begin with `login:` or
  -- `register:`, has one effect, the error to its client.
  pub process_message-unauthenticated :
      (message : Bytes)
      → (w.objects id).authenticated ≡ false
      → starts_with message (codes "login:") ≡ false
      → starts_with message (codes "register:") ≡ false
      → process_message p env id message w
        ≡ returned tt (send_message id (codes "error:Authentication required\n") w)
  unfolding process_message process_as
  process_message-unauthenticated message anon a b = rw anon (rw a (rw b))

  private_command-build :
      (r c : Bytes)
      → Lacks colon r
      → is_empty r ≡ false
      → private_command p env id (build_private_message r c) w
        ≡ handle_private_message p env id r c w
  unfolding private_command build_private_message
  private_command-build [] c l ne = cc
  private_command-build (x ∷ r) c l ne =
      let found : find (codes "@" ++ ((x ∷ r) ++ colon ∷ c)) colon ≡ some (1 + length (x ∷ r)) =
        ground (arith, find-append (codes "@" ++ (x ∷ r)) c colon l) in
      let far : ltb 1 (1 + length (x ∷ r)) ≡ true = ground arith in
      rw (found, private_command) (rw far (rw (private_fields-build (x ∷ r) c)))

  -- From an authenticated session, a private line with a recipient that is not empty and holds
  -- no colon is a private message to that recipient.
  pub process_message-private :
      (r c : Bytes)
      → (w.objects id).authenticated ≡ true
      → Lacks colon r
      → is_empty r ≡ false
      → process_message p env id (build_private_message r c) w
        ≡ handle_private_message p env id r c w
  unfolding process_message process_as
  process_message-private r c auth l ne =
      let front : starts_with (build_private_message r c) (codes "@") ≡ true =
        unfold build_private_message in starts_with-append (codes "@") (r ++ colon ∷ c) in
      rw auth (rw front (private_command-build r c l ne))

  -- From an authenticated session, a broadcast line is a broadcast of its content, whatever
  -- that holds.
  pub process_message-broadcast :
      (c : Bytes)
      → (w.objects id).authenticated ≡ true
      → process_message p env id (build_broadcast_message c) w
        ≡ handle_broadcast_message p env id c w
  unfolding process_message process_as build_broadcast_message starts_with
  process_message-broadcast c auth = rw auth (
      rw (substr_from-at {raw = codes "broadcast:" ++ c} (codes "broadcast:") c {i = 10} refl refl))
