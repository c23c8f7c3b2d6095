-- ===== src/Server/Identity/Lines.antt =====
-- Whatever line arrives and whatever write completes: the handler changes the identity of its own
-- session alone, and only a failure to draw random bytes makes an exception leave it.
use cli_chat.Base.{
  List, [], ◌∷◌, ◌≡◌, refl, ◌∙◌, ap, ℕ, ◌+◌, Bool, true, false, not, Option, none, some, length,
  ltb, Option-cases, inl, inr, arith, length-append,
}
use cli_chat.Text.{Bytes, codes, starts_with, find, find_from, substr, substr_from, equal}
use cli_chat.Text.Laws.{find-lt, find_from-bounds, starts_with-split}
use cli_chat.Server.State.{Session, Platform, World, or_throw, send_message}
use cli_chat.Server.ChatServer.{get_online_users}
use cli_chat.Server.Session.{
  Env, max_message_length, handle_login, handle_register, send_auth_response, handle_handshake,
  start_read, register_fields, login_fields, private_fields,
}
use cli_chat.Server.Dispatch.{
  second_colon, login_command, register_command, private_command, users_command, process_as,
  process_message, handle_read, handle_write, complete_write,
}
use cli_chat.Server.Identity.{
  SameIdentity, Good, Kept-refl, Kept-trans, returned-Good, after-Good, bind-Good, pick-Good,
  guard-Good, found-Good, or_throw-Good, send_message-Kept, update-Kept, update-Kept_same,
}
use cli_chat.Server.Identity.Registry.{get_online_users-Good, remove_session-Good}
use cli_chat.Server.Identity.Handlers.{
  handle_login-Good, handle_register-Good, handle_private_message-Good,
  handle_broadcast_message-Good,
}

-- The positions that `find` gives are inside of the text, so that no `substr` throws.
login_fields-total : (m : Bytes) (i : ℕ) → find_from m b':' 6 ≡ some i → login_fields m i ≡ none → ⊥
unfolding login_fields substr substr_from
login_fields-total m i f e = ground (arith, find_from-bounds m b':' 6 i f)

register_fields-total :
    (m : Bytes) (i : ℕ)
    → find_from m b':' 9 ≡ some i
    → register_fields m i (second_colon m (some i)) ≡ none
    → ⊥
unfolding register_fields second_colon substr substr_from
register_fields-total m i f e = elim (Option-cases (find_from m b':' (i + 1))) [
  | inl n ↦ ground (arith, find_from-bounds m b':' 9 i f)
  | inr (j, n) ↦ ground (arith, find_from-bounds m b':' 9 i f, find_from-bounds m b':' (i + 1) j n)
]

private_fields-total : (m : Bytes) (i : ℕ) → find m b':' ≡ some i → private_fields m i ≡ none → ⊥
unfolding private_fields substr substr_from
private_fields-total m i f e = ground (arith, find-lt m b':' i f)

broadcast-total :
    (m : Bytes) → starts_with m (codes "broadcast:") ≡ true → substr_from m 10 ≡ none → ⊥
unfolding substr_from
broadcast-total m b e =
    let (t, q) = starts_with-split m (codes "broadcast:") b in
    let n : length m ≡ 10 + length t = ap length q ∙ length-append (codes "broadcast:") t in
    ground arith

module _ (p : Platform) (fails : Bool) (touched : ℕ → Bool) (env : Env) (id : ℕ)
    (draws : (n : ℕ) → env.rand n ≡ none → fails ≡ true) (own : touched id ≡ true) where
  login_command-Good :
      (message : Bytes) (w : World p.Db) → Good fails touched w (login_command p env id message w)
  unfolding login_command send_auth_response
  login_command-Good message w =
      found-Good (find_from message b':' 6) _ _ w (returned-Good (send_message-Kept id _ w)) λ i e.
        bind-Good (or_throw (login_fields message i)) _ w
          (or_throw-Good (login_fields message i) w
            (λ n. absurd (login_fields-total message i e n)))
          λ f v.
            bind-Good (handle_login p env id f.0 f.1) _ v
              (handle_login-Good p fails touched env id draws own f.0 f.1 v)
              (λ _ u. returned-Good (Kept-refl u))

  register_command-Good :
      (message : Bytes) (w : World p.Db)
      → Good fails touched w (register_command p env id message w)
  unfolding register_command send_auth_response
  register_command-Good message w =
      found-Good (find_from message b':' 9) _ _ w (returned-Good (send_message-Kept id _ w)) λ i e.
        bind-Good (or_throw (register_fields message i (second_colon message (some i)))) _ w
          (or_throw-Good (register_fields message i (second_colon message (some i))) w
            (λ n. absurd (register_fields-total message i e n)))
          λ f v.
            bind-Good (handle_register p env id f.0 f.1 f.2) _ v
              (handle_register-Good p fails touched env id draws own f.0 f.1 f.2 v)
              (λ _ u. returned-Good (Kept-refl u))

  private_command-Good :
      (message : Bytes) (w : World p.Db) → Good fails touched w (private_command p env id message w)
  unfolding private_command
  private_command-Good message w =
      found-Good (find message b':') _ _ w (returned-Good (Kept-refl w)) λ i e.
        pick-Good (not (ltb 1 i)) _ _ w (returned-Good (Kept-refl w)) (
          bind-Good (or_throw (private_fields message i)) _ w
            (or_throw-Good (private_fields message i) w
              (λ n. absurd (private_fields-total message i e n)))
            (λ f v. handle_private_message-Good p fails touched env id draws own f.0 f.1 v))

  users_command-Good : (w : World p.Db) → Good fails touched w (users_command p id w)
  unfolding users_command
  users_command-Good w =
      bind-Good (get_online_users p) _ w (get_online_users-Good p fails touched w)
        λ users v. returned-Good (send_message-Kept id _ v)

  process_as-Good :
      (b : Bool) (message : Bytes) (w : World p.Db)
      → Good fails touched w (process_as p b env id message w)
  unfolding process_as
  process_as-Good false message w =
      pick-Good (starts_with message (codes "login:")) _ _ w (login_command-Good message w) (
        pick-Good (starts_with message (codes "register:")) _ _ w (register_command-Good message w)
          (returned-Good (send_message-Kept id _ w)))
  process_as-Good true message w =
      let said = handle_broadcast_message-Good p fails touched env id draws own in
      pick-Good (starts_with message (codes "@")) _ _ w (private_command-Good message w) (
        guard-Good (starts_with message (codes "broadcast:")) _ _ w
          (λ b.
            bind-Good (or_throw (substr_from message 10)) _ w
              (or_throw-Good (substr_from message 10) w (λ n. absurd (broadcast-total message b n)))
              (λ content v. said content v))
          (pick-Good (equal message (codes "users")) _ _ w (users_command-Good w) (
            pick-Good (equal message (codes "logout")) _ _ w
              (after-Good (update-Kept id _ w own) (remove_session-Good p fails touched id _))
              (said message w))))

  pub handle_read-Good :
      (line : Option Bytes) (w : World p.Db) → Good fails touched w (handle_read p env id line w)
  unfolding handle_read process_message start_read
  handle_read-Good none w = remove_session-Good p fails touched id w
  handle_read-Good (some message) w =
      pick-Good (ltb max_message_length (length message)) _ _ w
        (returned-Good (
          Kept-trans _ (send_message id _ w) w (update-Kept id _ _ own) (send_message-Kept id _ w)))
        (bind-Good (process_message p env id _) _ w (process_as-Good _ _ w)
          λ _ v. returned-Good (update-Kept id _ v own))

complete_write-SameIdentity : (s : Session) → SameIdentity (complete_write s) s
unfolding complete_write
complete_write-SameIdentity s = go s.write_queue refl
  where
    go : (q : List Bytes) → s.write_queue ≡ q → SameIdentity (complete_write s) s
    go [] e = rw (e, complete_write) (ground arith)
    go (a ∷ []) e = rw (e, complete_write) (ground arith)
    go (a ∷ b ∷ q) e = rw (e, complete_write) (ground arith)

module _ (p : Platform) (fails : Bool) (touched : ℕ → Bool) (id : ℕ) where
  pub handle_write-Good :
      (error : Bool) (w : World p.Db) → Good fails touched w (handle_write p id error w)
  unfolding handle_write
  handle_write-Good true w = remove_session-Good p fails touched id w
  handle_write-Good false w =
      returned-Good (update-Kept_same id complete_write w complete_write-SameIdentity)

  pub handle_handshake-Good :
      (error : Bool) (w : World p.Db) → Good fails touched w (handle_handshake p id error w)
  unfolding handle_handshake start_read
  handle_handshake-Good true w = returned-Good (Kept-refl w)
  handle_handshake-Good false w = returned-Good (update-Kept_same id _ w (λ s. ground arith))
