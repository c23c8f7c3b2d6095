-- ===== src/Config/Environment.antt =====
-- What the environment leaves of a configuration.
use cli_chat.Base.{sym, ◌≡◌, refl, ◌∙◌, ap, Bool, Option, none, some}
use cli_chat.Text.{Bytes, codes, equal}
use cli_chat.Config.{MachineInt, Config, set_text, set_number, load_from_env}

-- A variable that is set, or the value from before.
abbrev pub override : Option Bytes → Bytes → Bytes
override none old = old
override (some v) old = v

abbrev pub override_flag : Option Bytes → Bool → Bool
override_flag none old = old
override_flag (some v) old = equal v (codes "true")

module _ (stoi : Bytes → Option MachineInt) where
  abbrev pub override_number : Option Bytes → MachineInt → Option MachineInt
  override_number none old = some old
  override_number (some v) old = stoi v

  set_number-override :
      (o : Option Bytes) (assign : MachineInt → Config → Config) (c : Config) (old n : MachineInt)
      → assign old c ≡ c
      → override_number o old ≡ some n
      → set_number stoi o assign c ≡ some (assign n c)
  unfolding set_number
  set_number-override none assign c old n keeps h = ap some (sym keeps ∙ ap (λ m. assign m c) same)
    where
      same : old ≡ n
      same = cc
  set_number-override (some v) assign c old n keeps h = rw h refl

texts :
    (o : Option Bytes) (assign : Bytes → Config → Config) (c : Config) (old : Bytes)
    → assign old c ≡ c
    → set_text o assign c ≡ assign (override o old) c
unfolding set_text
texts none assign c old keeps = sym keeps
texts (some v) assign c old keeps = refl

flags :
    (o : Option Bytes) (c : Config)
    → set_text o (λ v d. record d { tls_enabled = equal v (codes "true") }) c
      ≡ record c { tls_enabled = override_flag o c.tls_enabled }
unfolding set_text
flags none c = refl
flags (some v) c = refl

-- With numbers in the six variables for numbers, if they are set, each member is afterwards what its
-- variable says, and keeps its value if the variable is not set. The flag is on for `true` alone.
pub load_from_env-overrides :
    (stoi : Bytes → Option MachineInt) (env : Bytes → Option Bytes) (c : Config)
    (n1 n2 n3 n4 n5 n6 : MachineInt)
    → override_number stoi (env (codes "CHAT_SERVER_PORT")) c.server_port ≡ some n1
    → override_number stoi (env (codes "CHAT_REDIS_PORT")) c.redis_port ≡ some n2
    → override_number stoi (env (codes "CHAT_MAX_USERS")) c.max_users ≡ some n3
    → override_number stoi (env (codes "CHAT_MAX_MESSAGE_LENGTH")) c.max_message_length ≡ some n4
    → override_number stoi (env (codes "CHAT_SESSION_TIMEOUT")) c.session_timeout ≡ some n5
    → override_number stoi (env (codes "CHAT_WEB_PORT")) c.web_port ≡ some n6
    → load_from_env stoi env c
      ≡ some (record {
        server_host = override (env (codes "CHAT_SERVER_HOST")) c.server_host;
        server_port = n1;
        tls_enabled = override_flag (env (codes "CHAT_TLS_ENABLED")) c.tls_enabled;
        cert_file = override (env (codes "CHAT_CERT_FILE")) c.cert_file;
        key_file = override (env (codes "CHAT_KEY_FILE")) c.key_file;
        database_path = override (env (codes "CHAT_DATABASE_PATH")) c.database_path;
        redis_host = override (env (codes "CHAT_REDIS_HOST")) c.redis_host;
        redis_port = n2;
        max_users = n3;
        max_message_length = n4;
        session_timeout = n5;
        web_port = n6;
        web_root = override (env (codes "CHAT_WEB_ROOT")) c.web_root;
      })
unfolding load_from_env
load_from_env-overrides stoi env c n1 n2 n3 n4 n5 n6 h1 h2 h3 h4 h5 h6 =
    let c1 = record c { server_host = override (env (codes "CHAT_SERVER_HOST")) c.server_host } in
    let c2 = record c1 { server_port = n1 } in
    let c3 = record c2 {
      tls_enabled = override_flag (env (codes "CHAT_TLS_ENABLED")) c.tls_enabled;
    } in
    let c4 = record c3 { cert_file = override (env (codes "CHAT_CERT_FILE")) c.cert_file } in
    let c5 = record c4 { key_file = override (env (codes "CHAT_KEY_FILE")) c.key_file } in
    let c6 = record c5 {
      database_path = override (env (codes "CHAT_DATABASE_PATH")) c.database_path;
    } in
    let c7 = record c6 { redis_host = override (env (codes "CHAT_REDIS_HOST")) c.redis_host } in
    let c8 = record c7 { redis_port = n2 } in
    let c9 = record c8 { max_users = n3 } in
    let c10 = record c9 { max_message_length = n4 } in
    let c11 = record c10 { session_timeout = n5 } in
    let c12 = record c11 { web_port = n6 } in
    rw
      (
        load_from_env,
        texts (env (codes "CHAT_SERVER_HOST")) (λ v d. record d { server_host = v }) c c.server_host
            refl,
        set_number-override stoi (env (codes "CHAT_SERVER_PORT"))
            (λ n d. record d { server_port = n }) c1 c.server_port n1 refl h1,
        flags (env (codes "CHAT_TLS_ENABLED")) c2,
        texts (env (codes "CHAT_CERT_FILE")) (λ v d. record d { cert_file = v }) c3 c.cert_file
            refl,
        texts (env (codes "CHAT_KEY_FILE")) (λ v d. record d { key_file = v }) c4 c.key_file refl,
        texts (env (codes "CHAT_DATABASE_PATH")) (λ v d. record d { database_path = v }) c5
            c.database_path refl,
        texts (env (codes "CHAT_REDIS_HOST")) (λ v d. record d { redis_host = v }) c6 c.redis_host
            refl,
        set_number-override stoi (env (codes "CHAT_REDIS_PORT"))
            (λ n d. record d { redis_port = n }) c7 c.redis_port n2 refl h2,
        set_number-override stoi (env (codes "CHAT_MAX_USERS")) (λ n d. record d { max_users = n })
            c8 c.max_users n3 refl h3,
        set_number-override stoi (env (codes "CHAT_MAX_MESSAGE_LENGTH"))
            (λ n d. record d { max_message_length = n }) c9 c.max_message_length n4 refl h4,
        set_number-override stoi (env (codes "CHAT_SESSION_TIMEOUT"))
            (λ n d. record d { session_timeout = n }) c10 c.session_timeout n5 refl h5,
        set_number-override stoi (env (codes "CHAT_WEB_PORT")) (λ n d. record d { web_port = n })
            c11 c.web_port n6 refl h6,
        texts (env (codes "CHAT_WEB_ROOT")) (λ v d. record d { web_root = v }) c12 c.web_root refl,
      )
      refl
