-- ===== src/Server/ChatServer.antt =====
-- src/server/server.cpp: the registry of sessions behind `sessions_mutex_`.
use cli_chat.Base.{
  ℕ, Bool, true, false, not, List, [], ◌∷◌, ◌++◌, map, Option, none, some, ◌==◌, is_empty, is_some,
  any, if◌then◌else◌,
}
use cli_chat.Text.{Bytes, codes, equal, ends_with, pop_back}
use cli_chat.Server.State.{
  returned, Platform, World, M, ◌>>=◌, ◌>>◌, pure, gets, modify, lock, unlock, update, send_message,
}

-- sessions_by_username_[name] = id; find; erase
unfoldable pub map_insert : Bytes → ℕ → List (Bytes × ℕ) → List (Bytes × ℕ)
map_insert k v [] = (k, v) ∷ []
map_insert k v ((j, u) ∷ m) = if equal j k then (j, v) ∷ m else (j, u) ∷ map_insert k v m

unfoldable pub map_find : Bytes → List (Bytes × ℕ) → Option ℕ
map_find k [] = none
map_find k ((j, u) ∷ m) = if equal j k then some u else map_find k m

unfoldable pub map_erase : Bytes → List (Bytes × ℕ) → List (Bytes × ℕ)
map_erase k [] = []
map_erase k ((j, u) ∷ m) = if equal j k then m else (j, u) ∷ map_erase k m

unfoldable pub set_insert : ℕ → List ℕ → List ℕ
set_insert a xs = if any (λ x. x == a) xs then xs else a ∷ xs

unfoldable pub set_erase : ℕ → List ℕ → List ℕ
set_erase a [] = []
set_erase a (x ∷ xs) = if x == a then xs else x ∷ set_erase a xs

-- The loops over the users, all of them or those that a test keeps.
unfoldable pub send_each :
    {Db : Type 0} → (Bytes → ℕ → Bool) → List (Bytes × ℕ) → Bytes → World Db → World Db
send_each keep [] message w = w
send_each keep ((name, id) ∷ m) message w =
    send_each keep m message (if keep name id then send_message id message w else w)

abbrev pub everyone : Bytes → ℕ → Bool
everyone name id = true

-- "users:" and each name with a comma, without the comma at the end.
unfoldable pub join_users : List Bytes → Bytes
join_users [] = []
join_users (u ∷ us) = u ++ b',' ∷ join_users us

unfoldable pub user_list : List Bytes → Bytes
unfolding join_users
user_list users =
    let list = codes "users:" ++ join_users users in
    if ends_with list b',' then pop_back list else list

module _ (p : Platform) where
  open p use {Db, delete_session}

  -- ChatServer::getOnlineUsers
  unfoldable pub get_online_users : M Db (List Bytes)
  get_online_users = do
    lock
    users ← gets (λ w. map (λ e. e.0) w.sessions_by_username)
    unlock
    pure users

  -- ChatServer::isUserOnline
  unfoldable pub is_user_online : Bytes → M Db Bool
  is_user_online username = do
    lock
    found ← gets (λ w. is_some (map_find username w.sessions_by_username))
    unlock
    pure found

  -- Session::stop
  unfoldable pub stop_session : ℕ → World Db → World Db
  stop_session id w =
      let token = (w.objects id).session_token in
      let closed = update id (λ s. record s { open_socket = false }) w in
      if is_empty token
      then closed
      else record closed { database = (delete_session w.database token).1 }

  unfoldable pub announce : M Db (Unit {0})
  announce = do
    users ← get_online_users
    modify (λ w. send_each everyone w.sessions_by_username (user_list users ++ b'\n' ∷ []) w)

  -- ChatServer::addSession
  unfoldable pub add_session : ℕ → M Db (Unit {0})
  add_session id = do
    lock
    modify (λ w. record w { all_sessions = set_insert id w.all_sessions })
    name ← gets (λ w. (w.objects id).username)
    if is_empty name then unlock else do
      modify (λ w. record w { sessions_by_username = map_insert name id w.sessions_by_username })
      modify (λ w.
          send_each (λ user _. not (equal user name)) w.sessions_by_username
            (codes "system:User " ++ (name ++ codes " joined the chat\n")) w)
      announce
      unlock

  -- ChatServer::removeSession
  unfoldable pub remove_session : ℕ → M Db (Unit {0})
  remove_session id = do
    lock
    name ← gets (λ w. (w.objects id).username)
    modify (λ w. record w { all_sessions = set_erase id w.all_sessions })
    if is_empty name then pure tt else do
      modify (λ w. record w { sessions_by_username = map_erase name w.sessions_by_username })
      modify (λ w.
          send_each everyone w.sessions_by_username
            (codes "system:User " ++ (name ++ codes " left the chat\n")) w)
      announce
    modify (stop_session id)
    unlock

  -- ChatServer::broadcastMessage; `none` is the default `nullptr`
  unfoldable pub broadcast_message : Bytes → Option ℕ → M Db (Unit {0})
  broadcast_message message exclude = do
    lock
    modify (λ w.
        send_each (λ _ id. elim exclude [ none ↦ true | some x ↦ not (id == x) ])
          w.sessions_by_username message w)
    unlock

  -- ChatServer::sendPrivateMessage
  unfoldable pub send_private_message : Bytes → Bytes → ℕ → M Db (Unit {0})
  send_private_message recipient message sender = do
    lock
    found ← gets (λ w. map_find recipient w.sessions_by_username)
    from ← gets (λ w. (w.objects sender).username)
    modify (λ w. elim found [
      | some id ↦
          send_message sender (codes "private_sent:" ++ (recipient ++ b'\n' ∷ []))
            (send_message id (codes "private:" ++ (from ++ b':' ∷ (message ++ b'\n' ∷ []))) w)
      | none ↦
          send_message sender (codes "error:User " ++ (recipient ++ codes " is not online\n")) w
    ])
    unlock

  unfoldable pub stop_each : List ℕ → World Db → World Db
  stop_each [] w = w
  stop_each (id ∷ ids) w = stop_each ids (stop_session id w)

  -- ChatServer::stop
  unfoldable pub stop : M Db (Unit {0})
  stop w = elim w.running [
    | false ↦ returned tt w
    | true ↦
        (do
          modify (λ v. record v { running = false })
          lock
          modify (λ v. stop_each v.all_sessions v)
          modify (λ v. record v { all_sessions = []; sessions_by_username = [] })
          unlock)
          w
  ]
