-- ===== src/Secrets/Loading.antt =====
-- The end of the loop over the lines of a file.
use cli_chat.Base.{
  ◌≡◌, refl, Bool, true, false, List, [], ◌∷◌, ◌++◌, Option, some, any, if◌then◌else◌,
}
use cli_chat.Text.{Bytes, codes, equal, split}
use cli_chat.Secrets.{
  SecretsManager, validate_secret_strength, entry, store, load_line, load_lines,
  load_secrets_from_file, initialize, get_redis_password, get_database_password, get_session_secret,
}

abbrev pub secret_names : List Bytes
secret_names = codes "redis_password" ∷ codes "database_password" ∷ codes "session_secret" ∷ []

store-weak :
    (k v : Bytes) (s : SecretsManager)
    → any (equal k) secret_names ≡ true
    → validate_secret_strength v ≡ false
    → (store k v s).0 ≡ false
unfolding store
store-weak k v s known weak = rw weak (
    refused (equal k (codes "redis_password")) (equal k (codes "database_password"))
      (equal k (codes "session_secret")) known)
  where
    refused :
        (a b c : Bool)
        → any (λ x. x) (a ∷ b ∷ c ∷ []) ≡ true
        → let r : Bool × SecretsManager =
            if a
            then (false, s)
            else if b
            then (false, s)
            else if c
            then (false, s)
            else (true, s) in
          r.0 ≡ false
    refused true b c h = refl
    refused false true c h = refl
    refused false false true h = refl
    refused false false false h = cc

load_line-weak :
    (line k v : Bytes) (s : SecretsManager)
    → entry line ≡ some (k, v)
    → any (equal k) secret_names ≡ true
    → validate_secret_strength v ≡ false
    → (load_line line s).0 ≡ false
unfolding load_line
load_line-weak line k v s e known weak = rw (load_line, e) (store-weak k v s known weak)

load_lines-weak :
    (pre post : List Bytes) (line k v : Bytes) (s : SecretsManager)
    → entry line ≡ some (k, v)
    → any (equal k) secret_names ≡ true
    → validate_secret_strength v ≡ false
    → (load_lines (pre ++ line ∷ post) s).0 ≡ false
unfolding load_lines
load_lines-weak [] post line k v s e known weak =
    rw (load_lines, load_line-weak line k v s e known weak) refl
load_lines-weak (l ∷ pre) post line k v s e known weak =
    let t = (load_line l s).1 in
    elim (load_line l s).0
      as (λ ok.
        let r : Bool × SecretsManager = elim ok [
          | false ↦ (false, t)
          | true ↦ load_lines (pre ++ line ∷ post) t
        ] in
        r.0 ≡ false) [ false ↦ refl | true ↦ load_lines-weak pre post line k v t e known weak ]

-- A manager that is not initialized loads a file with a line that sets one of the three secrets to a
-- text that the test of strength refuses: no secret of the file is taken, also none of the lines
-- before, and initialization still reports success.
pub initialize-weak :
    (file : Bytes → Option Bytes) (path text : Bytes) (s : SecretsManager) (pre post : List Bytes)
    (line k v : Bytes)
    → s.initialized ≡ false
    → file path ≡ some text
    → split b'\n' text ≡ pre ++ line ∷ post
    → entry line ≡ some (k, v)
    → any (equal k) secret_names ≡ true
    → validate_secret_strength v ≡ false
    → let r = initialize file path s in
      (r.0 ≡ true)
      × (get_redis_password r.1 ≡ [])
      × (get_database_password r.1 ≡ [])
      × (get_session_secret r.1 ≡ [])
unfolding initialize load_secrets_from_file get_redis_password get_database_password
    get_session_secret
initialize-weak file path text s pre post line k v fresh found lines e known weak =
    let bad =
      load_lines-weak pre post line k v (record s { secrets_file_path = path }) e known weak in
    rw (found, lines, bad, fresh) (refl, refl, refl, refl)
