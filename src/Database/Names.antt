-- ===== src/Database/Names.antt =====
-- Names with a NUL: the queries read them only up to it, the map of sessions reads them whole.
use cli_chat.Base.{sym, ◌≡◌, ◌∙◌, ap, ℕ, true, false, [], ◌∷◌, ◌++◌, some, arith, is_some}
use cli_chat.Text.{Bytes}
use cli_chat.Text.Laws.{Lacks}
use cli_chat.Crypto.{verify_password}
use cli_chat.Database.{User}
use cli_chat.Database.Sqlite.{c_str-Lacks, Sqlite, TimeText, text, c_str}
use cli_chat.Database.Schema.{select_user_by_username}
use cli_chat.Database.Store.{first, rows, user_of, get_user_by_username, database}
use cli_chat.Server.State.{Platform, World}
use cli_chat.Server.ChatServer.{map_find}
use cli_chat.Server.Session.{Env, handle_login, open_session}
use cli_chat.Server.Login.{login-open}
use cli_chat.Server.LoginCases.{IsAccepted}

c_str-append : (s t : Bytes) → Lacks 0 s → c_str (s ++ 0 ∷ t) ≡ s
unfolding c_str
c_str-append [] t h = ground arith
c_str-append (c ∷ s) t h = ground (arith, c_str-append s t)

get_user_by_username-nul :
    (q : Sqlite) (t : TimeText) (db : q.Conn) (name rest : Bytes)
    → Lacks 0 name
    → get_user_by_username q t db (name ++ 0 ∷ rest) ≡ get_user_by_username q t db name
unfolding get_user_by_username
get_user_by_username-nul q t db name rest h =
    let look =
      λ (k : Bytes). first (user_of q t) (rows q t db select_user_by_username (text k ∷ [])) in
    ap look (c_str-append name rest h) ∙ ap look (sym (c_str-Lacks name h))

module _ (q : Sqlite) (t : TimeText) (sha256 : Bytes → Bytes) (env : Env) (id : ℕ) where
  abbrev pub sqlite_platform : Platform
  sqlite_platform = record { api = database q t; sha256 = sha256 }

  -- With the mutex free, an account whose name holds no NUL and that is active, and its password: a
  -- login under the name followed by a NUL and any text finds this account, and unless that longer
  -- name is in the map of sessions, whether or not the name of the account is, the login passes every
  -- test and goes on to open a session under the longer name.
  pub handle_login-second_name :
      (w : World q.Conn) (name rest password : Bytes) (user : User)
      → w.sessions_mutex ≡ false
      → Lacks 0 name
      → get_user_by_username q t w.database name ≡ some user
      → verify_password sha256 password user.password_hash ≡ true
      → user.is_active ≡ true
      → is_some (map_find (name ++ 0 ∷ rest) w.sessions_by_username) ≡ false
      → IsAccepted sqlite_platform w (name ++ 0 ∷ rest) password user
        × (handle_login sqlite_platform env id (name ++ 0 ∷ rest) password w
            ≡ open_session sqlite_platform env id (name ++ 0 ∷ rest) user w)
  handle_login-second_name w name rest password user free clean known right active offline =
      let found = get_user_by_username-nul q t w.database name rest clean ∙ known in
      (
        record { known = found; verified = right; active = active; offline = offline },
        login-open sqlite_platform w env id (name ++ 0 ∷ rest) password user found right active free
            offline,
      )
