-- ===== src/Server/Runs.antt =====
-- What every line, every write and every error of a connection keeps.
use cli_chat.Base.{
  refl, inl, inr, ℕ, Bool, true, false, not, Option, none, some, length, ltb, Bool-cases,
  if◌then◌else◌,
}
use cli_chat.Text.{Bytes, codes, starts_with, find, find_from, substr_from, equal}
use cli_chat.Server.State.{Platform, World, M, world, or_throw, lock, unlock, update, send_message}
use cli_chat.Server.ChatServer.{get_online_users, stop}
use cli_chat.Server.Session.{
  Env, max_message_length, handle_login, handle_register, send_auth_response, handle_handshake,
  start_read, register_fields, login_fields, private_fields,
}
use cli_chat.Server.Dispatch.{
  second_colon, login_command, register_command, private_command, users_command, process_as,
  process_message, handle_read, handle_write,
}
use cli_chat.Server.Accept.{handle_stop}
use cli_chat.Server.Mutex.{bind-returned, bind-blocked, lock-free, lock-held}
use cli_chat.Server.Unreached.{
  Unreached, bind-Unreached, at, get_online_users-Unreached, remove_session-Unreached,
}
use cli_chat.Server.Reachable.{
  handle_login-Unreached, handle_register-Unreached, handle_private_message-Unreached,
  handle_broadcast_message-Unreached,
}

pick-Unreached :
    {Db A : Type 0} (b : Bool) (m n : M Db A) (w : World Db)
    → Unreached (world (m w))
    → Unreached (world (n w))
    → Unreached (world ((if b then m else n) w))
pick-Unreached true m n w h k = h
pick-Unreached false m n w h k = k

found-Unreached :
    {Db A C : Type 0} (o : Option C) (m : M Db A) (n : C → M Db A) (w : World Db)
    → Unreached (world (m w))
    → ((c : C) → Unreached (world (n c w)))
    → let run : M Db A = elim o [ none ↦ m | some c ↦ n c ] in Unreached (world (run w))
found-Unreached none m n w h k = h
found-Unreached (some c) m n w h k = k c

or_throw-Unreached :
    {Db A : Type 0} (o : Option A) (w : World Db) → Unreached w → Unreached (world (or_throw o w))
or_throw-Unreached none w k = k
or_throw-Unreached (some a) w k = k

module _ (p : Platform) (env : Env) (id : ℕ) where
  send-Unreached :
      (message : Bytes) (w : World p.Db) → Unreached w → Unreached (send_message id message w)
  unfolding send_message update
  send-Unreached message w k = k

  login_command-Unreached :
      (message : Bytes) (w : World p.Db)
      → Unreached w
      → Unreached (world (login_command p env id message w))
  unfolding login_command send_auth_response
  login_command-Unreached message w k =
      found-Unreached (find_from message b':' 6) _ _ w (send-Unreached _ w k) (λ i.
        bind-Unreached (or_throw (login_fields message i)) _ w (or_throw-Unreached _ w k) λ f v u.
          bind-Unreached (handle_login p env id f.0 f.1) _ v
            (handle_login-Unreached p env id v u f.0 f.1) (λ _ _ t. t))

  register_command-Unreached :
      (message : Bytes) (w : World p.Db)
      → Unreached w
      → Unreached (world (register_command p env id message w))
  unfolding register_command send_auth_response
  register_command-Unreached message w k =
      found-Unreached (find_from message b':' 9) _ _ w (send-Unreached _ w k) (λ i.
        bind-Unreached (or_throw (register_fields message i (second_colon message (some i)))) _ w
          (or_throw-Unreached _ w k)
          λ f v u.
            bind-Unreached (handle_register p env id f.0 f.1 f.2) _ v
              (handle_register-Unreached p env id v u f.0 f.1 f.2) (λ _ _ t. t))

  private_command-Unreached :
      (message : Bytes) (w : World p.Db)
      → Unreached w
      → Unreached (world (private_command p env id message w))
  unfolding private_command
  private_command-Unreached message w k = found-Unreached (find message b':') _ _ w k (λ i.
      pick-Unreached (not (ltb 1 i)) _ _ w k (
        bind-Unreached (or_throw (private_fields message i)) _ w (or_throw-Unreached _ w k)
          (λ f v u. handle_private_message-Unreached p env id v u f.0 f.1)))

  users_command-Unreached :
      (w : World p.Db) → Unreached w → Unreached (world (users_command p id w))
  unfolding users_command
  users_command-Unreached w k =
      bind-Unreached (get_online_users p) _ w (get_online_users-Unreached p w k)
        (λ users v u. send-Unreached _ v u)

  process_as-Unreached :
      (b : Bool) (message : Bytes) (w : World p.Db)
      → Unreached w
      → Unreached (world (process_as p b env id message w))
  unfolding process_as update
  process_as-Unreached false message w k =
      pick-Unreached (starts_with message (codes "login:")) _ _ w
        (login_command-Unreached message w k)
        (pick-Unreached (starts_with message (codes "register:")) _ _ w
          (register_command-Unreached message w k) (send-Unreached _ w k))
  process_as-Unreached true message w k =
      pick-Unreached (starts_with message (codes "@")) _ _ w (private_command-Unreached message w k)
        (pick-Unreached (starts_with message (codes "broadcast:")) _ _ w
          (bind-Unreached (or_throw (substr_from message 10)) _ w (or_throw-Unreached _ w k)
            (λ c v u. handle_broadcast_message-Unreached p env id v u c))
          (pick-Unreached (equal message (codes "users")) _ _ w (users_command-Unreached w k) (
            pick-Unreached (equal message (codes "logout")) _ _ w
              (remove_session-Unreached p _ k id)
              (handle_broadcast_message-Unreached p env id w k message))))

  pub handle_read-Unreached :
      (line : Option Bytes) (w : World p.Db)
      → Unreached w
      → Unreached (world (handle_read p env id line w))
  unfolding handle_read process_message start_read update
  handle_read-Unreached none w k = remove_session-Unreached p w k id
  handle_read-Unreached (some message) w k =
      pick-Unreached (ltb max_message_length (length message)) _ _ w (send-Unreached _ w k) (
        bind-Unreached (process_message p env id _) _ w (process_as-Unreached _ _ w k) (λ _ v u. u))

module _ (p : Platform) (id : ℕ) where
  pub handle_write-Unreached :
      (error : Bool) (w : World p.Db) → Unreached w → Unreached (world (handle_write p id error w))
  unfolding handle_write update
  handle_write-Unreached true w k = remove_session-Unreached p w k id
  handle_write-Unreached false w k = k

  pub handle_handshake-Unreached :
      (error : Bool) (w : World p.Db)
      → Unreached w
      → Unreached (world (handle_handshake p id error w))
  unfolding handle_handshake start_read update
  handle_handshake-Unreached true w k = k
  handle_handshake-Unreached false w k = k

module _ (p : Platform) where
  pub handle_stop-Unreached :
      (error : Bool) (w : World p.Db) → Unreached w → Unreached (handle_stop p error w)
  unfolding handle_stop stop unlock
  handle_stop-Unreached true w k = k
  handle_stop-Unreached false w k = elim (Bool-cases w.running) [
    | inr e ↦ rw e k
    | inl e ↦
        let v = record w { running = false } in
        rw e (elim (Bool-cases w.sessions_mutex) [
          | inl h ↦ at _ (bind-blocked (lock {Db = p.Db}) _ v (lock-held v h)) (inl h)
          | inr h ↦ at _ (bind-returned (lock {Db = p.Db}) _ v (lock-free v h)) (inr refl)
        ])
  ]
