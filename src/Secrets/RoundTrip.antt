-- ===== src/Secrets/RoundTrip.antt =====
-- A file of three secrets, from its text to the getters.
use cli_chat.Base.{
  ◌≡◌, refl, ◌∙◌, ap, Bool, true, false, List, [], ◌∷◌, ◌++◌, Option, some, arith, append-nil,
  append_assoc,
}
use cli_chat.Text.{Bytes, codes, split, split_piece, find, starts_with, equal}
use cli_chat.Text.Laws.{Lacks}
use cli_chat.Secrets.{
  SecretsManager, validate_secret_strength, entry, trim, trim_left, trim_right, store, load_line,
  load_lines, load_secrets_from_file, initialize, get_redis_password, get_database_password,
  get_session_secret,
}

-- A secret that the test accepts, on one line, with no blank at its ends.
abbrev pub IsWritable : Bytes → Type 0
IsWritable v = (validate_secret_strength v ≡ true) × Lacks b'\n' v × (trim v ≡ v)

abbrev pub secret_lines : Bytes → Bytes → Bytes → List Bytes
secret_lines r d s =
    (codes "redis_password=" ++ r)
    ∷ (codes "database_password=" ++ d)
    ∷ (codes "session_secret=" ++ s)
    ∷ []

abbrev pub unlines : List Bytes → Bytes
unlines [] = []
unlines (l ∷ ls) = l ++ b'\n' ∷ unlines ls

abbrev pub IsLines : List Bytes → Type 0
IsLines [] = Unit {0}
IsLines (l ∷ ls) = Lacks b'\n' l × IsLines ls

split_piece-line :
    (cur u rest : Bytes)
    → Lacks b'\n' u
    → split_piece b'\n' cur (u ++ b'\n' ∷ rest) ≡ (cur ++ u) ∷ split_piece b'\n' [] rest
unfolding split_piece
split_piece-line cur [] rest l = rw append-nil
split_piece-line cur (x ∷ u) rest l =
    let tail = split_piece-line (cur ++ x ∷ []) u rest (ground arith) in
    ground (arith, tail, append_assoc cur (x ∷ []) u)

pub split-unlines : (ls : List Bytes) → IsLines ls → split b'\n' (unlines ls) ≡ ls
unfolding split split_piece
split-unlines [] h = refl
split-unlines (l ∷ ls) (a, h) =
    split_piece-line [] l (unlines ls) a ∙ ap (λ (r : List Bytes). l ∷ r) (split-unlines ls h)

entry-redis :
    (v : Bytes) → entry (codes "redis_password=" ++ v) ≡ some (codes "redis_password", trim v)
unfolding entry trim trim_left trim_right find starts_with
entry-redis v = refl

entry-database :
    (v : Bytes) → entry (codes "database_password=" ++ v) ≡ some (codes "database_password", trim v)
unfolding entry trim trim_left trim_right find starts_with
entry-database v = refl

entry-session :
    (v : Bytes) → entry (codes "session_secret=" ++ v) ≡ some (codes "session_secret", trim v)
unfolding entry trim trim_left trim_right find starts_with
entry-session v = refl

load_line-redis :
    (v : Bytes) (m : SecretsManager)
    → IsWritable v
    → load_line (codes "redis_password=" ++ v) m ≡ (true, record m { redis_password = some v })
unfolding load_line store equal
load_line-redis v m (strong, l, e) = rw (load_line, entry-redis v, e, strong) refl

load_line-database :
    (v : Bytes) (m : SecretsManager)
    → IsWritable v
    → load_line (codes "database_password=" ++ v) m
      ≡ (true, record m { database_password = some v })
unfolding load_line store equal
load_line-database v m (strong, l, e) = rw (load_line, entry-database v, e, strong) refl

load_line-session :
    (v : Bytes) (m : SecretsManager)
    → IsWritable v
    → load_line (codes "session_secret=" ++ v) m ≡ (true, record m { session_secret = some v })
unfolding load_line store equal
load_line-session v m (strong, l, e) = rw (load_line, entry-session v, e, strong) refl

load_lines-line :
    (l : Bytes) (ls : List Bytes) (m t : SecretsManager)
    → load_line l m ≡ (true, t)
    → load_lines (l ∷ ls) m ≡ load_lines ls t
unfolding load_lines
load_lines-line l ls m t e = ap after e
  where
    after : Bool × SecretsManager → Bool × SecretsManager
    after r = elim r.0 [ false ↦ (false, r.1) | true ↦ load_lines ls r.1 ]

load_lines-secret_lines :
    (r d v : Bytes) (m : SecretsManager)
    → IsWritable r
    → IsWritable d
    → IsWritable v
    → load_lines (secret_lines r d v) m ≡ (
      true,
      record m { redis_password = some r; database_password = some d; session_secret = some v },
    )
unfolding load_lines
load_lines-secret_lines r d v m a b c =
    let m1 = record m { redis_password = some r } in
    let m2 = record m1 { database_password = some d } in
    let m3 = record m2 { session_secret = some v } in
    let third = (codes "session_secret=" ++ v) ∷ [] in
    let second = (codes "database_password=" ++ d) ∷ third in
    load_lines-line (codes "redis_password=" ++ r) second m m1 (load_line-redis r m a)
    ∙ load_lines-line (codes "database_password=" ++ d) third m1 m2 (load_line-database d m1 b)
    ∙ load_lines-line (codes "session_secret=" ++ v) [] m2 m3 (load_line-session v m2 c)

-- Three secrets that the test of strength accepts, written on lines of their own without blanks at
-- their ends and without line breaks: the getters of a fresh manager give them back.
pub initialize-secret_lines :
    (file : Bytes → Option Bytes) (path r d v : Bytes) (s : SecretsManager)
    → s.initialized ≡ false
    → file path ≡ some (unlines (secret_lines r d v))
    → IsWritable r
    → IsWritable d
    → IsWritable v
    → let t = (initialize file path s).1 in
      (get_redis_password t ≡ r) × (get_database_password t ≡ d) × (get_session_secret t ≡ v)
unfolding initialize load_secrets_from_file get_redis_password get_database_password
    get_session_secret
initialize-secret_lines file path r d v s fresh found (sr, lr, er) (sd, ld, ed) (sv, lv, ev) =
    let start = record s { secrets_file_path = path } in
    let loaded = load_lines-secret_lines r d v start (sr, lr, er) (sd, ld, ed) (sv, lv, ev) in
    let cut = split-unlines (secret_lines r d v) (lr, (ld, (lv, tt))) in
    rw (found, cut, loaded, fresh) (refl, refl, refl)
