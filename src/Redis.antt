-- ===== src/Redis.antt =====
-- src/common/redis_client.hpp and redis_client.cpp: `RedisClient`, over the commands of hiredis, which is
-- outside of the repository. A reply is copied out of its buffer; `none` is a null pointer.
pub mod Directory
pub mod Locations
mod Tests
use cli_chat.Base.{
  ℕ, Bool, true, false, not, ◌&&◌, ◌||◌, List, [], ◌∷◌, Option, none, some, ltb, is_empty,
  if◌then◌else◌,
}
use cli_chat.Text.{Bytes, codes, equal}
use cli_chat.Text.Decimal.{to_string}
use cli_chat.Database.Sqlite.{c_str}

-- The types of `redisReply` that the source tells apart; an element of an array is its text, if it
-- is one.
pub data Reply : Type 0 where
  nil : Reply
  status : Bytes → Reply
  error : Bytes → Reply
  string : Bytes → Reply
  integer : ℕ → Reply
  array : List (Option Bytes) → Reply

-- The server of Redis and the connections to it: whether `redisConnect` gives a context without an
-- error, what a command replies, and the next message for the subscription.
pub record Hiredis : Type 1 where
  pub Redis : Type 0
  pub connects : Redis → Bytes → ℕ → Bool
  pub command : Redis → List Bytes → Option Reply × Redis
  pub next_reply : Redis → Option Reply × Redis

pub record RedisClient : Type 0 where
  pub host : Bytes
  pub port : ℕ
  pub password : Bytes
  pub context : Bool
  pub sub_context : Bool
  pub connected : Bool
  pub subscribing : Bool

-- reply == nullptr || reply->type == REDIS_REPLY_ERROR
abbrev pub is_failure : Option Reply → Bool
is_failure none = true
is_failure (some (error _)) = true
is_failure (some _) = false

-- reply->integer, which is 0 in a reply of another type
abbrev pub integer_of : Option Reply → ℕ
integer_of (some (integer n)) = n
integer_of _ = 0

-- The texts among the elements of an array.
unfoldable pub texts : List (Option Bytes) → List Bytes
texts [] = []
texts (none ∷ elements) = texts elements
texts (some text ∷ elements) = text ∷ texts elements

module _ (h : Hiredis) where
  open h use {Redis, connects, command, next_reply}

  -- The AUTH command of `connect`.
  unfoldable pub authenticate : RedisClient → Redis → Bool × Redis
  authenticate c s =
      if is_empty c.password
      then (true, s)
      else let result = command s (codes "AUTH" ∷ c_str c.password ∷ []) in
        (not (is_failure result.0), result.1)

  -- RedisClient::connect
  unfoldable pub connect : RedisClient → Redis → Bool × RedisClient × Redis
  unfolding authenticate
  connect c s =
      let first = authenticate c s in
      let second = authenticate c first.1 in
      if not (connects s (c_str c.host) c.port)
      then (false, record c { context = false }, s)
      else if not first.0
      then (false, record c { context = false }, first.1)
      else if not (connects first.1 (c_str c.host) c.port)
      then (false, record c { context = false; sub_context = false }, first.1)
      else if not second.0
      then (false, record c { context = false; sub_context = false }, second.1)
      else (true, record c { context = true; sub_context = true; connected = true }, second.1)

  -- RedisClient::disconnect
  unfoldable pub disconnect : RedisClient → RedisClient
  disconnect c = record c {
    connected = false;
    subscribing = false;
    context = false;
    sub_context = false;
  }

  -- RedisClient::executeRedisCommand, on the words of the format
  unfoldable pub execute_redis_command : RedisClient → Redis → List Bytes → Option Reply × Redis
  execute_redis_command c s words =
      if not c.connected || not c.context then (none, s) else command s words

  module _ (c : RedisClient) where
    -- RedisClient::set
    unfoldable pub set : Bytes → Bytes → ℕ → Redis → Bool × Redis
    unfolding execute_redis_command c_str to_string
    set key value ttl s =
        let result = execute_redis_command c s (
          if ltb 0 ttl
          then codes "SETEX" ∷ c_str key ∷ to_string ttl ∷ c_str value ∷ []
          else codes "SET" ∷ c_str key ∷ c_str value ∷ []) in
        if not c.connected then (false, s) else (not (is_failure result.0), result.1)

    -- RedisClient::get
    unfoldable pub get : Bytes → Redis → Bytes × Redis
    unfolding execute_redis_command c_str
    get key s =
        let result = execute_redis_command c s (codes "GET" ∷ c_str key ∷ []) in
        if not c.connected then ([], s) else (
          elim result.0 [
            | some (string text) ↦ text
            | some nil ↦ []
            | some (status _) ↦ []
            | some (error _) ↦ []
            | some (integer _) ↦ []
            | some (array _) ↦ []
            | none ↦ []
          ],
          result.1,
        )

    -- A command whose result is whether the integer of its reply is positive.
    unfoldable pub counted : List Bytes → Redis → Bool × Redis
    unfolding execute_redis_command
    counted words s =
        let result = execute_redis_command c s words in
        if not c.connected
        then (false, s)
        else (not (is_failure result.0) && ltb 0 (integer_of result.0), result.1)

    -- RedisClient::del
    unfoldable pub del : Bytes → Redis → Bool × Redis
    unfolding counted c_str
    del key s = counted (codes "DEL" ∷ c_str key ∷ []) s

    -- RedisClient::sadd
    unfoldable pub sadd : Bytes → Bytes → Redis → Bool × Redis
    unfolding counted c_str
    sadd key member s = counted (codes "SADD" ∷ c_str key ∷ c_str member ∷ []) s

    -- RedisClient::srem
    unfoldable pub srem : Bytes → Bytes → Redis → Bool × Redis
    unfolding counted c_str
    srem key member s = counted (codes "SREM" ∷ c_str key ∷ c_str member ∷ []) s

    -- RedisClient::smembers
    unfoldable pub smembers : Bytes → Redis → List Bytes × Redis
    unfolding execute_redis_command c_str texts
    smembers key s =
        let result = execute_redis_command c s (codes "SMEMBERS" ∷ c_str key ∷ []) in
        if not c.connected then ([], s) else (
          elim result.0 [
            | some (array elements) ↦ texts elements
            | some nil ↦ []
            | some (status _) ↦ []
            | some (error _) ↦ []
            | some (integer _) ↦ []
            | some (string _) ↦ []
            | none ↦ []
          ],
          result.1,
        )

    -- RedisClient::publish
    unfoldable pub publish : Bytes → Bytes → Redis → Bool × Redis
    unfolding execute_redis_command c_str
    publish channel message s =
        let result =
          execute_redis_command c s (codes "PUBLISH" ∷ c_str channel ∷ c_str message ∷ []) in
        if not c.connected then (false, s) else (not (is_failure result.0), result.1)

    -- RedisClient::subscribe
    unfoldable pub subscribe : Bytes → Redis → RedisClient × Redis
    subscribe channel s = if not c.connected then (c, s) else (
      record c { subscribing = true },
      (command s (codes "SUBSCRIBE" ∷ c_str channel ∷ [])).1,
    )
