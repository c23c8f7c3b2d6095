-- ===== src/Redis/Tests.antt =====
-- The servers of users over a Redis with three commands.
use cli_chat.Base.{◌≡◌, refl, true, false, [], ◌∷◌, List, Option, none, some, if◌then◌else◌}
use cli_chat.Text.{Bytes, codes, equal}
use cli_chat.Redis.{Hiredis, RedisClient, Reply, nil, status, error, string, integer}
use cli_chat.Redis.Directory.{set_user_server, get_user_server, remove_user_server}
use cli_chat.Redis.Locations.{KeyLaws, user_servers_map}

-- What every key holds.
abbrev Keys : Type 0
Keys = Bytes → Option Bytes

abbrev reply_of : Option Bytes → Reply
reply_of none = nil
reply_of (some text) = string text

abbrev hold : Keys → Bytes → Option Bytes → Keys
hold keys key x k = if equal key k then x else keys k

abbrev run : Keys → List Bytes → Option Reply × Keys
run keys (name ∷ key ∷ []) =
    if equal name (codes "GET")
    then (some (reply_of (keys key)), keys)
    else (some (integer 1), hold keys key none)
run keys (name ∷ key ∷ ttl ∷ text ∷ []) = (some (status (codes "OK")), hold keys key (some text))
run keys _ = (some (error []), keys)

abbrev hiredis : Hiredis
hiredis = record {
  Redis = Keys;
  connects = λ keys host port. true;
  command = run;
  next_reply = λ keys. (none, keys);
}

laws : KeyLaws hiredis (λ keys key. keys key)
unfolding equal
laws = record {
  get_set = λ s key text e. rw e refl;
  get_unset = λ s key e. rw e refl;
  setex_ok = λ s key text ttl h. (refl, λ k. refl);
  del_ok = λ s key. (1, refl, λ k. refl);
}

abbrev client : RedisClient
client = record {
  host = codes "127.0.0.1";
  port = 6379;
  password = [];
  context = true;
  sub_context = true;
  connected = true;
  subscribing = false;
}

abbrev nothing : Keys
nothing key = none

user_servers_map_example :
    ((set_user_server hiredis client (codes "ann") (codes "s1") nothing).0 ≡ true)
    × ((get_user_server hiredis client
          (codes "bob")
          (set_user_server hiredis client (codes "ann") (codes "s1") nothing).1).0
        ≡ (if equal (codes "ann") (codes "bob")
            then codes "s1"
            else (get_user_server hiredis client (codes "bob") nothing).0))
    × ((get_user_server hiredis client
          (codes "bob")
          (remove_user_server hiredis client (codes "ann") nothing).1).0
        ≡ (if equal (codes "ann") (codes "bob")
            then []
            else (get_user_server hiredis client (codes "bob") nothing).0))
user_servers_map_example =
    user_servers_map hiredis (λ keys key. keys key) laws client refl refl nothing (codes "ann")
      (codes "bob") (codes "s1") refl refl refl
