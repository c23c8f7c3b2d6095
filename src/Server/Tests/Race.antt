-- ===== src/Server/Tests/Race.antt =====
-- Two sessions that log in as `ann`. The database knows her alone, and refuses a token that it has.
use cli_chat.Base.{◌≡◌, refl, true, false, not, any, List, [], ◌∷◌, none, some, map, if◌then◌else◌}
use cli_chat.Text.{Bytes, codes, equal}
use cli_chat.Crypto.{hex, generate_session_token}
use cli_chat.Database.{DatabaseApi}
use cli_chat.Server.State.{
  Platform, World, returned, world, ◌>>=◌, update, lock, unlock, send_message,
}
use cli_chat.Server.ChatServer.{
  is_user_online, map_find, add_session, announce, get_online_users, send_each, map_insert,
  set_insert,
}
use cli_chat.Server.Session.{Env, open_session}
use cli_chat.Server.Race.{two_logins_race}
use cli_chat.Server.Tests.{platform, env, start, ann, zeros, drawn}

abbrev tokens : DatabaseApi
tokens = record {
  Db = List Bytes;
  create_user = λ db now name hash email. (false, db);
  get_user_by_username = λ db name. if equal name (codes "ann") then some ann else none;
  update_last_login = λ db now id. (true, db);
  save_message = λ db m. (true, db);
  get_recent_messages = λ db n. [];
  create_session = λ db row. (not (any (equal row.token) db), row.token ∷ db);
  get_session = λ db token. none;
  delete_session = λ db token. (true, db);
  get_user_count = λ db. 1;
  get_message_count = λ db. 0;
}

abbrev p : Platform
p = record { api = tokens; sha256 = platform.sha256 }

abbrev begin : World (List Bytes)
begin = record {
  database = [];
  objects = start.objects;
  sessions_by_username = start.sessions_by_username;
  all_sessions = start.all_sessions;
  sessions_mutex = false;
  running = true;
}

abbrev other_env : Env
other_env = record { now = 8; rand = λ n. some (map (λ b. 1) (zeros n)) }

abbrev other_token : Bytes
other_token = hex (map (λ b. 1) (zeros 32))

other_drawn : generate_session_token other_env.rand ≡ some other_token
unfolding generate_session_token
other_drawn = refl

two_logins_race_example :
    let v = world (open_session p env 0 (codes "ann") ann begin) in
    let z = world (open_session p other_env 3 (codes "ann") ann v) in
    ((is_user_online p (codes "ann") >>= λ _. is_user_online p (codes "ann")) begin
      ≡ returned false begin)
    × ((z.objects 0).authenticated ≡ true)
    × ((z.objects 0).username ≡ codes "ann")
    × ((z.objects 3).authenticated ≡ true)
    × ((z.objects 3).username ≡ codes "ann")
unfolding map_find equal open_session generate_session_token hex update lock unlock add_session
    announce get_online_users send_each send_message map_insert set_insert
two_logins_race_example =
    two_logins_race p (codes "ann") ann begin 0 3 refl refl refl env other_env (hex (zeros 32))
      other_token drawn other_drawn refl refl
