-- ===== src/Auth/Tests/Enrolment.antt =====
-- `joe` registers with `AuthManager` and authenticates.
use cli_chat.Base.{◌≡◌, refl, true, [], some}
use cli_chat.Text.{codes}
use cli_chat.Crypto.{hex, hash_password}
use cli_chat.Crypto.Tests.{digest-IsBytes}
use cli_chat.Database.{User}
use cli_chat.Auth.{
  granted, authenticate, register_user, create_account, validate_username, validate_password,
}
use cli_chat.Auth.Lifecycle.{succeeded, after_login}
use cli_chat.Auth.Enrolment.{registered_user_authenticates}
use cli_chat.Server.Tests.{env, zeros, drawn}
use cli_chat.Server.Tests.Enrolment.{server, accounts_kept}

joe_enrols :
    succeeded (register_user server true 7 env.rand (codes "joe") (codes "sunset") [] []) ≡ true
unfolding register_user create_account validate_username validate_password hash_password
joe_enrols = refl

registered_user_authenticates_example :
    let enrolled = (register_user server true 7 env.rand (codes "joe") (codes "sunset") [] []).1 in
    (user : User) × (user.username ≡ codes "joe")
    × (authenticate server true 9 env.rand (codes "joe") (codes "sunset") enrolled ≡ (
      some (granted (codes "joe") user (hex (zeros 32))),
      after_login server 9 env.rand (codes "joe") (codes "sunset") enrolled user (hex (zeros 32)),
    ))
registered_user_authenticates_example =
    registered_user_authenticates server 7 env.rand (codes "joe") (codes "sunset") [] []
      accounts_kept digest-IsBytes joe_enrols 9 env.rand (hex (zeros 32)) drawn (λ user known. refl)
