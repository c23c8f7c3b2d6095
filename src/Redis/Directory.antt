-- ===== src/Redis/Directory.antt =====
-- src/common/redis_client.cpp: the keys and channels of the chat in Redis, and the worker of a
-- subscription.
use cli_chat.Base.{ℕ, Bool, not, ◌&&◌, [], ◌∷◌, ◌++◌, Option, none, some, if◌then◌else◌}
use cli_chat.Text.{Bytes, codes, equal}
use cli_chat.Text.Decimal.{to_string}
use cli_chat.Database.Sqlite.{c_str}
use cli_chat.Redis.{Hiredis, RedisClient, Reply, array, set, get, del, sadd, srem, publish}

abbrev pub user_key : Bytes → Bytes
user_key username = codes "chat:user_server:" ++ username

-- The channel and the text of a message that the worker takes from a reply.
unfoldable pub message_of : Reply → Option (Bytes × Bytes)
unfolding c_str
message_of (array (some kind ∷ channel ∷ message ∷ [])) =
    if equal (c_str kind) (codes "message") then some (text channel, text message) else none
  where
    text : Option Bytes → Bytes
    text none = []
    text (some t) = t
message_of _ = none

module _ (h : Hiredis) (c : RedisClient) where
  open h use {Redis, next_reply}

  -- RedisClient::registerServer
  unfoldable pub register_server : Bytes → Bytes → ℕ → Redis → Bool × Redis
  unfolding to_string
  register_server server_id host port s =
      let server_info = host ++ (codes ":" ++ to_string port) in
      let added = sadd h c (codes "chat:servers") server_id s in
      if added.0 then set h c (codes "chat:server:" ++ server_id) server_info 30 added.1 else added

  -- RedisClient::unregisterServer
  unfoldable pub unregister_server : Bytes → Redis → Bool × Redis
  unregister_server server_id s =
      let removed = srem h c (codes "chat:servers") server_id s in
      if removed.0 then del h c (codes "chat:server:" ++ server_id) removed.1 else removed

  -- RedisClient::setUserServer
  unfoldable pub set_user_server : Bytes → Bytes → Redis → Bool × Redis
  set_user_server username server_id s = set h c (user_key username) server_id 3600 s

  -- RedisClient::getUserServer
  unfoldable pub get_user_server : Bytes → Redis → Bytes × Redis
  get_user_server username s = get h c (user_key username) s

  -- RedisClient::removeUserServer
  unfoldable pub remove_user_server : Bytes → Redis → Bool × Redis
  remove_user_server username s = del h c (user_key username) s

  -- RedisClient::broadcastMessage
  unfoldable pub broadcast_message : Bytes → Bytes → Redis → Bool × Redis
  broadcast_message message sender_server s =
      publish h c (codes "chat:broadcast") (sender_server ++ b'|' ∷ message) s

  -- RedisClient::sendPrivateMessage
  unfoldable pub send_private_message : Bytes → Bytes → Bytes → Redis → Bool × Redis
  send_private_message recipient message sender s =
      publish h c (codes "chat:private") (sender ++ b'|' ∷ (recipient ++ b'|' ∷ message)) s

  -- One round of `subscriptionWorker`, with what it gives to the callback.
  unfoldable pub subscription_round : Redis → Option (Bytes × Bytes) × Redis
  unfolding message_of
  subscription_round s =
      let result = next_reply s in
      if not (c.subscribing && c.connected)
      then (none, s)
      else (elim result.0 [ none ↦ none | some reply ↦ message_of reply ], result.1)
