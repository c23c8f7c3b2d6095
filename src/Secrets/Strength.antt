-- ===== src/Secrets/Strength.antt =====
-- What the secrets of a manager are worth, whatever was loaded.
use cli_chat.Base.{
  ◌⊎◌, ◌≤◌, length, any, map, if◌then◌else◌, refl, none, some, false, true, List, [], ◌∷◌, Option,
  Bool, ◌≡◌,
}
use cli_chat.Text.{contains, Bytes, codes, equal, split}
use cli_chat.Secrets.{
  to_lower, is_complex, weak_passwords, entry, codes, equal, Bytes, SecretsManager,
  validate_secret_strength, store, load_line, load_lines, load_secrets_from_file, initialize,
}

-- A secret that is not set, or that passes the test.
abbrev pub IsStrong : Option Bytes → Type 0
IsStrong secret = (v : Bytes) → secret ≡ some v → validate_secret_strength v ≡ true

pub record AllStrong (s : SecretsManager) : Type 0 where
  pub redis : IsStrong s.redis_password
  pub database : IsStrong s.database_password
  pub session : IsStrong s.session_secret

if_both {ℓ κ} :
    {A : Type ℓ} (P : A → Type κ) (b : Bool) {x y : A}
    → (b ≡ true → P x)
    → P y
    → P (if b then x else y)
if_both P true f p = f refl
if_both P false f p = p

some-IsStrong : (v : Bytes) → validate_secret_strength v ≡ true → IsStrong (some v)
some-IsStrong v h u e = cc

no_secret : IsStrong (some [])
unfolding validate_secret_strength
no_secret = some-IsStrong [] refl

store-AllStrong : (k v : Bytes) (s : SecretsManager) → AllStrong s → AllStrong (store k v s).1
unfolding store
store-AllStrong k v s a =
    let strong = validate_secret_strength v in
    let P : Bool × SecretsManager → Type 0 = λ r. AllStrong r.1 in
    if_both P (equal k (codes "redis_password"))
      (λ _.
        if_both P strong
          (λ h. record { redis = some-IsStrong v h; database = a.database; session = a.session }) a)
      (if_both P (equal k (codes "database_password"))
        (λ _.
          if_both P strong
            (λ h. record { redis = a.redis; database = some-IsStrong v h; session = a.session }) a)
        (if_both P (equal k (codes "session_secret"))
          (λ _.
            if_both P strong
              (λ h. record { redis = a.redis; database = a.database; session = some-IsStrong v h })
              a)
          a))

load_line-AllStrong :
    (line : Bytes) (s : SecretsManager) → AllStrong s → AllStrong (load_line line s).1
unfolding load_line
load_line-AllStrong line s a =
    elim (entry line)
      as (λ e.
        let r : Bool × SecretsManager = elim e [ none ↦ (true, s) | some kv ↦ store kv.0 kv.1 s ] in
        AllStrong r.1) [ none ↦ a | some kv ↦ store-AllStrong kv.0 kv.1 s a ]

load_lines-AllStrong :
    (lines : List Bytes) (s : SecretsManager) → AllStrong s → AllStrong (load_lines lines s).1
unfolding load_lines
load_lines-AllStrong [] s a = a
load_lines-AllStrong (line ∷ lines) s a =
    let t = (load_line line s).1 in
    let b = load_line-AllStrong line s a in
    elim (load_line line s).0
      as (λ ok.
        let r : Bool × SecretsManager = elim ok [
          | false ↦ (false, t)
          | true ↦ load_lines lines t
        ] in
        AllStrong r.1) [ false ↦ b | true ↦ load_lines-AllStrong lines t b ]

load_secrets_from_file-AllStrong :
    (file : Option Bytes) (s : SecretsManager)
    → AllStrong s
    → AllStrong (load_secrets_from_file file s).1
unfolding load_secrets_from_file
load_secrets_from_file-AllStrong none s a = a
load_secrets_from_file-AllStrong (some text) s a = load_lines-AllStrong (split b'\n' text) s a

pub initialize-AllStrong :
    (file : Bytes → Option Bytes) (path : Bytes) (s : SecretsManager)
    → AllStrong s
    → ((initialize file path s).0 ≡ true) × AllStrong (initialize file path s).1
unfolding initialize load_secrets_from_file
initialize-AllStrong file path s a =
    let start = record s { secrets_file_path = path } in
    let given : AllStrong start = record {
      redis = a.redis;
      database = a.database;
      session = a.session;
    } in
    let b = load_secrets_from_file-AllStrong (file path) start given in
    let P : SecretsManager → Type 0 = λ m. AllStrong (record m { initialized = true }) in
    let Q : Bool × SecretsManager → Type 0 = λ r. (r.0 ≡ true) × AllStrong r.1 in
    if_both Q s.initialized (λ _. (refl, a))
      (
        refl,
        if_both P (load_secrets_from_file (file path) start).0
            (λ _. record { redis = b.redis; database = b.database; session = b.session })
            (record { redis = no_secret; database = no_secret; session = no_secret }),
      )

-- What an accepted secret is: empty, or of 12 to 256 bytes, with none of the listed words in it, and
-- with letters of both cases and another character.
abbrev pub IsSound : Bytes → Type 0
IsSound v =
    (v ≡ [])
    ⊎ ((12 ≤ length v)
        × (length v ≤ 256)
        × (any (contains (map to_lower v)) weak_passwords ≡ false)
        × (is_complex v ≡ true))
