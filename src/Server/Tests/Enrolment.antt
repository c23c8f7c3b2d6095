-- ===== src/Server/Tests/Enrolment.antt =====
-- `joe` registers and logs in.
use cli_chat.Base.{◌≡◌, refl, true, List, []}
use cli_chat.Text.{codes, equal}
use cli_chat.Text.Laws.{equal_refl}
use cli_chat.Crypto.{hash_password}
use cli_chat.Crypto.Tests.{digest, digest-IsBytes}
use cli_chat.Database.{User}
use cli_chat.Database.Users.{UserLaws}
use cli_chat.Server.State.{Platform, World, returned, world, send_message}
use cli_chat.Server.ChatServer.{map_find}
use cli_chat.Server.Session.{handle_login, handle_register, open_session, send_auth_response}
use cli_chat.Server.LoginCases.{IsAccepted}
use cli_chat.Server.Enrolment.{registered_user_logs_in}
use cli_chat.Server.Tests.{accounts, account, env, start}

abbrev pub server : Platform
server = record { api = accounts; sha256 = digest }

pub accounts_kept : UserLaws accounts
accounts_kept = record {
  created = λ db now name hash email done n h. (
    account name hash,
    rw (equal_refl name) refl,
    record { name_is = refl; hash_is = refl; active_is = refl },
  );
}

abbrev later : World (List User)
later = world (handle_register server env 0 (codes "joe") (codes "pw") [] start)

joe_registers :
    handle_register server env 0 (codes "joe") (codes "pw") [] start ≡ returned true later
unfolding handle_register send_auth_response equal hash_password
joe_registers = refl

registered_user_logs_in_example :
    (user : User) × (user.username ≡ codes "joe")
    × IsAccepted server later (codes "joe") (codes "pw") user
    × (handle_login server env 3 (codes "joe") (codes "pw") later
        ≡ open_session server env 3 (codes "joe") user later)
unfolding handle_register send_auth_response equal hash_password send_message map_find
registered_user_logs_in_example =
    registered_user_logs_in server accounts_kept digest-IsBytes env 0 start later (codes "joe")
      (codes "pw") [] joe_registers refl refl refl env 3
