-- ===== src/Config/RoundTrip.antt =====
-- A configuration file with a line for every member, from its text to the members.
use mathlib.Core.Option
use cli_chat.Base.{◌≡◌, refl, ◌∙◌, ap, Bool, true, false, List, [], ◌∷◌, ◌++◌, Option, some}
use cli_chat.Text.{Bytes, codes, find, starts_with, equal}
use cli_chat.Text.Laws.{Lacks}
use cli_chat.Secrets.{SecretsManager, entry, trim, trim_left, trim_right}
use cli_chat.Secrets.RoundTrip.{unlines, split-unlines}
use cli_chat.Config.{MachineInt, Config, set, set_line, set_lines, load_from_file}

-- A value on one line, with no blank at its ends.
abbrev pub IsPlain : Bytes → Type 0
IsPlain v = Lacks b'\n' v × (trim v ≡ v)

abbrev pub flag : Bool → Bytes
flag true = codes "true"
flag false = codes "false"

abbrev pub line : Bytes → Bytes → Bytes
line key value = key ++ b'=' ∷ value

-- The lines of a configuration.
abbrev pub config_lines : (MachineInt → Bytes) → Config → List Bytes
config_lines print d =
    line (codes "server_host") d.server_host
    ∷ line (codes "server_port") (print d.server_port)
    ∷ line (codes "tls_enabled") (flag d.tls_enabled)
    ∷ line (codes "cert_file") d.cert_file
    ∷ line (codes "key_file") d.key_file
    ∷ line (codes "database_path") d.database_path
    ∷ line (codes "redis_host") d.redis_host
    ∷ line (codes "redis_port") (print d.redis_port)
    ∷ line (codes "max_users") (print d.max_users)
    ∷ line (codes "max_message_length") (print d.max_message_length)
    ∷ line (codes "session_timeout") (print d.session_timeout)
    ∷ line (codes "web_port") (print d.web_port)
    ∷ line (codes "web_root") d.web_root
    ∷ []

-- The texts of a configuration that can stand in a file.
abbrev pub IsWritable : Config → Type 0
IsWritable d =
    IsPlain d.server_host
    × IsPlain d.cert_file
    × IsPlain d.key_file
    × IsPlain d.database_path
    × IsPlain d.redis_host
    × IsPlain d.web_root

module _ (stoi : Bytes → Option MachineInt) (print : MachineInt → Bytes) where
  -- A line assigns its value.
  set_line-line :
      (key value : Bytes) (c e : Config)
      → entry (line key value) ≡ some (key, trim value)
      → trim value ≡ value
      → set stoi key value c ≡ some e
      → set_line stoi (line key value) c ≡ some e
  unfolding set_line
  set_line-line key value c e i t h = rw (set_line, i, t) h

  -- One line of a text, of a number and of the flag, before the rest of the lines.
  set_lines-text :
      (ls : List Bytes) (c d : Config) (key value : Bytes) (assign : Bytes → Config → Config)
      → entry (line key value) ≡ some (key, trim value)
      → set stoi key value c ≡ some (assign value c)
      → trim value ≡ value
      → set_lines stoi ls (assign value c) ≡ some d
      → set_lines stoi (line key value ∷ ls) c ≡ some d
  unfolding set_lines
  set_lines-text ls c d key value assign i h t k =
      rw (set_lines, set_line-line key value c (assign value c) i t h) k

  set_lines-none : (c : Config) → set_lines stoi [] c ≡ some c
  unfolding set_lines
  set_lines-none c = refl

  flag-trim : (b : Bool) → trim (flag b) ≡ flag b
  unfolding trim trim_left trim_right
  flag-trim true = refl
  flag-trim false = refl

  flag-set :
      (c : Config) (b : Bool)
      → set stoi (codes "tls_enabled") (flag b) c ≡ some (record c { tls_enabled = b })
  unfolding set equal
  flag-set c true = refl
  flag-set c false = refl

  set_lines-flag :
      (ls : List Bytes) (c d : Config) (b : Bool)
      → set_lines stoi ls (record c { tls_enabled = b }) ≡ some d
      → set_lines stoi (line (codes "tls_enabled") (flag b) ∷ ls) c ≡ some d
  unfolding set_lines entry trim trim_left trim_right find starts_with
  set_lines-flag ls c d b k =
      rw
        (
          set_lines,
          set_line-line (codes "tls_enabled") (flag b) c (record c { tls_enabled = b }) refl
              (flag-trim b) (flag-set c b),
        )
        k

  module _ (reads : (n : MachineInt) → stoi (print n) ≡ some n)
      (plain : (n : MachineInt) → IsPlain (print n)) where
    set_lines-number :
        (ls : List Bytes) (c d : Config) (key : Bytes) (n : MachineInt)
        (assign : MachineInt → Config → Config)
        → entry (line key (print n)) ≡ some (key, trim (print n))
        → set stoi key (print n) c ≡ Option.map (λ m. assign m c) (stoi (print n))
        → set_lines stoi ls (assign n c) ≡ some d
        → set_lines stoi (line key (print n) ∷ ls) c ≡ some d
    unfolding set_lines
    set_lines-number ls c d key n assign i h k =
        let e : set stoi key (print n) c ≡ some (assign n c) =
          h ∙ ap (Option.map (λ m. assign m c)) (reads n) in
        rw (set_lines, set_line-line key (print n) c (assign n c) i (plain n).1 e) k

    set_lines-config_lines :
        (c d : Config)
        → trim d.server_host ≡ d.server_host
        → trim d.cert_file ≡ d.cert_file
        → trim d.key_file ≡ d.key_file
        → trim d.database_path ≡ d.database_path
        → trim d.redis_host ≡ d.redis_host
        → trim d.web_root ≡ d.web_root
        → set_lines stoi (config_lines print d) c ≡ some d
    unfolding set entry trim trim_left trim_right find starts_with equal
    set_lines-config_lines c d t0 t1 t2 t3 t4 t5 =
        (set_lines-text _ _ _ (codes "server_host") d.server_host
          (λ v e. record e { server_host = v }) refl refl t0
          (set_lines-number _ _ _ (codes "server_port") d.server_port
            (λ n e. record e { server_port = n }) refl refl
            (set_lines-flag _ _ _ d.tls_enabled (
              set_lines-text _ _ _ (codes "cert_file") d.cert_file
                (λ v e. record e { cert_file = v }) refl refl t1
                (set_lines-text _ _ _ (codes "key_file") d.key_file
                  (λ v e. record e { key_file = v }) refl refl t2
                  (set_lines-text _ _ _ (codes "database_path") d.database_path
                    (λ v e. record e { database_path = v }) refl refl t3
                    (set_lines-text _ _ _ (codes "redis_host") d.redis_host
                      (λ v e. record e { redis_host = v }) refl refl t4
                      (set_lines-number _ _ _ (codes "redis_port") d.redis_port
                        (λ n e. record e { redis_port = n }) refl refl
                        (set_lines-number _ _ _ (codes "max_users") d.max_users
                          (λ n e. record e { max_users = n }) refl refl
                          (set_lines-number _ _ _ (codes "max_message_length") d.max_message_length
                            (λ n e. record e { max_message_length = n }) refl refl
                            (set_lines-number _ _ _ (codes "session_timeout") d.session_timeout
                              (λ n e. record e { session_timeout = n }) refl refl
                              (set_lines-number _ _ _ (codes "web_port") d.web_port
                                (λ n e. record e { web_port = n }) refl refl
                                (set_lines-text _ _ _ (codes "web_root") d.web_root
                                  (λ v e. record e { web_root = v }) refl refl t5
                                  (set_lines-none _))))))))))))))

    flag-Lacks : (b : Bool) → Lacks b'\n' (flag b)
    flag-Lacks true = refl
    flag-Lacks false = refl

    -- A configuration whose texts have no line break and no blank at their ends, written with a line
    -- for every member, numbers as `print` writes them, without blanks and line breaks, and `stoi`
    -- reads them: the file gives every member
    -- back, whatever the members were before, and leaves the secrets as they were.
    pub load_from_file-config_lines :
        (file : Bytes → Option Bytes) (filename : Bytes) (c d : Config) (s : SecretsManager)
        → file filename ≡ some (unlines (config_lines print d))
        → IsWritable d
        → load_from_file stoi file filename (c, s) ≡ some (d, s)
    unfolding load_from_file
    load_from_file-config_lines file filename c d s found (a0, a1, a2, a3, a4, a5) =
        let n = λ (m : MachineInt). (plain m).0 in
        let cut = split-unlines (config_lines print d) (
          a0.0,
          (
            n d.server_port,
            (
              flag-Lacks d.tls_enabled,
              (
                a1.0,
                (
                  a2.0,
                  (
                    a3.0,
                    (
                      a4.0,
                      (
                        n d.redis_port,
                        (
                          n d.max_users,
                          (
                            n d.max_message_length,
                            (n d.session_timeout, (n d.web_port, (a5.0, tt))),
                          ),
                        ),
                      ),
                    ),
                  ),
                ),
              ),
            ),
          ),
        ) in
        rw (load_from_file, found, cut, set_lines-config_lines c d a0.1 a1.1 a2.1 a3.1 a4.1 a5.1)
          refl
