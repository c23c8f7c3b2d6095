-- ===== src/Redis/Locations.antt =====
-- The servers of the users in Redis, as a map.
use cli_chat.Base.{
  ◌≡◌, refl, ◌∙◌, ap, sym, ℕ, Bool, true, false, List, [], ◌∷◌, Option, none, some, ltb,
  Option-cases, inl, inr, if◌then◌else◌, arith, ◌<◌,
}
use cli_chat.Text.{Bytes, codes, equal}
use cli_chat.Text.Laws.{Lacks}
use cli_chat.Text.Decimal.{to_string}
use cli_chat.Database.Sqlite.{c_str-Lacks}
use cli_chat.Redis.{
  Hiredis, RedisClient, nil, status, string, integer, set, get, del, counted, execute_redis_command,
}
use cli_chat.Redis.Directory.{user_key, set_user_server, get_user_server, remove_user_server}

module _ (h : Hiredis) where
  open h use {Redis, command}

  -- What Redis documents of three commands on keys that hold texts. `value` is what a key holds, as
  -- long as no time to live runs out.
  pub record KeyLaws (value : Redis → Bytes → Option Bytes) : Type 0 where
    pub get_set :
        (s : Redis) (key text : Bytes)
        → value s key ≡ some text
        → command s (codes "GET" ∷ key ∷ []) ≡ (some (string text), s)
    pub get_unset :
        (s : Redis) (key : Bytes)
        → value s key ≡ none
        → command s (codes "GET" ∷ key ∷ []) ≡ (some nil, s)
    pub setex_ok :
        (s : Redis) (key text : Bytes) (ttl : ℕ)
        → 0 < ttl
        → let result = command s (codes "SETEX" ∷ key ∷ to_string ttl ∷ text ∷ []) in
          (result.0 ≡ some (status (codes "OK")))
          × ((k : Bytes) → value result.1 k ≡ (if equal key k then some text else value s k))
    pub del_ok :
        (s : Redis) (key : Bytes)
        → let result = command s (codes "DEL" ∷ key ∷ []) in
          (n : ℕ) × (result.0 ≡ some (integer n))
          × ((k : Bytes) → value result.1 k ≡ (if equal key k then none else value s k))

  module _ (value : Redis → Bytes → Option Bytes) (laws : KeyLaws value) (c : RedisClient)
      (online : c.connected ≡ true) (open_context : c.context ≡ true) where
    execute-open :
        (s : Redis) (words : List Bytes) → execute_redis_command h c s words ≡ command s words
    unfolding execute_redis_command
    execute-open s words = rw (online, open_context) refl

    -- What `get` gives for what a key holds.
    abbrev pub held : Option Bytes → Bytes
    held none = []
    held (some text) = text

    get-value : (s : Redis) (key : Bytes) → Lacks 0 key → get h c key s ≡ (held (value s key), s)
    unfolding get
    get-value s key clean = elim (Option-cases (value s key)) [
      | inl e ↦
          rw (get, online, open_context, c_str-Lacks key clean, laws.get_unset s key e, e) refl
      | inr (text, e) ↦
          rw (get, online, open_context, c_str-Lacks key clean, laws.get_set s key text e, e) refl
    ]

    set-value :
        (s : Redis) (key text : Bytes) (ttl : ℕ)
        → ltb 0 ttl ≡ true
        → Lacks 0 key
        → Lacks 0 text
        → set h c key text ttl s
          ≡ (true, (command s (codes "SETEX" ∷ key ∷ to_string ttl ∷ text ∷ [])).1)
    unfolding set
    set-value s key text ttl positive clean clean_text =
        let (ok, _) = laws.setex_ok s key text ttl (ground arith) in
        rw
          (
            set,
            online,
            open_context,
            positive,
            c_str-Lacks key clean,
            c_str-Lacks text clean_text,
            ok,
          )
          refl

    del-value :
        (s : Redis) (key : Bytes)
        → Lacks 0 key
        → (del h c key s).1 ≡ (command s (codes "DEL" ∷ key ∷ [])).1
    unfolding del counted
    del-value s key clean = rw (del, counted, online, open_context, c_str-Lacks key clean) refl

    user_key-Lacks : (username : Bytes) → Lacks 0 username → Lacks 0 (user_key username)
    user_key-Lacks username clean = clean

    equal-user_key : (u v : Bytes) → equal (user_key u) (user_key v) ≡ equal u v
    unfolding equal
    equal-user_key u v = refl

    held-cond :
        (b : Bool) (x y : Option Bytes) → held (if b then x else y) ≡ (if b then held x else held y)
    held-cond true x y = refl
    held-cond false x y = refl

    held-read :
        (s : Redis) (u v : Bytes) (x : Option Bytes)
        → Lacks 0 v
        → held (if equal (user_key u) (user_key v) then x else value s (user_key v))
          ≡ (if equal u v then held x else (get h c (user_key v) s).0)
    held-read s u v x clean =
        let other = value s (user_key v) in
        ap (λ (b : Bool). held (if b then x else other)) (equal-user_key u v)
        ∙ held-cond (equal u v) x other
        ∙ ap (λ (r : Bytes × Redis). if equal u v then held x else r.0)
            (sym (get-value s (user_key v) clean))

    -- With a connection and a Redis that keeps keys as the named laws say: the server noted for a user
    -- is the one that is read for that user afterwards, and removing it leaves none; what is read for
    -- every other user stays the same. No name holds a NUL.
    pub user_servers_map :
        (s : Redis) (user other server_id : Bytes)
        → Lacks 0 user
        → Lacks 0 other
        → Lacks 0 server_id
        → ((set_user_server h c user server_id s).0 ≡ true)
          × ((get_user_server h c other (set_user_server h c user server_id s).1).0
              ≡ (if equal user other then server_id else (get_user_server h c other s).0))
          × ((get_user_server h c other (remove_user_server h c user s).1).0
              ≡ (if equal user other then [] else (get_user_server h c other s).0))
    unfolding set_user_server get_user_server remove_user_server
    user_servers_map s user other server_id clean clean_other clean_id =
        let noted = set-value s (user_key user) server_id 3600 refl clean clean_id in
        let read = λ (t : Redis). get-value t (user_key other) clean_other in
        let (_, stored) = laws.setex_ok s (user_key user) server_id 3600 (omega arith) in
        let (_, _, gone) = laws.del_ok s (user_key user) in
        (
          ap (λ (r : Bool × Redis). r.0) noted,
          ap (λ (r : Bool × Redis). (get h c (user_key other) r.1).0) noted
              ∙ ap (λ (r : Bytes × Redis). r.0) (read _)
              ∙ ap held (stored (user_key other))
              ∙ held-read s user other (some server_id) clean_other,
          ap (λ (t : Redis). (get h c (user_key other) t).0) (del-value s (user_key user) clean)
              ∙ ap (λ (r : Bytes × Redis). r.0) (read _)
              ∙ ap held (gone (user_key other))
              ∙ held-read s user other none clean_other,
        )
