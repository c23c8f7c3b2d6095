-- ===== src/Config/File.antt =====
-- What `loadFromFile` does with the secrets.
use cli_chat.Base.{◌≡◌, refl, ap, sym, false, [], Option, none, some, Option-cases, inl, inr}
use cli_chat.Text.{Bytes, split}
use cli_chat.Secrets.{SecretsManager, get_redis_password}
use cli_chat.Config.{MachineInt, Config, set_lines, load_from_file}

-- With a configuration file that can be read, loading it leaves the manager of secrets as it was: if
-- that was not initialized, the Redis password is empty, whatever the file of secrets holds.
pub load_from_file-get_redis_password :
    (stoi : Bytes → Option MachineInt) (file : Bytes → Option Bytes) (filename text : Bytes)
    (c d : Config) (s t : SecretsManager)
    → s.initialized ≡ false
    → file filename ≡ some text
    → load_from_file stoi file filename (c, s) ≡ some (d, t)
    → (t ≡ s) × (get_redis_password t ≡ [])
unfolding load_from_file get_redis_password
load_from_file-get_redis_password stoi file filename text c d s t fresh found h =
    elim (Option-cases (set_lines stoi (split b'\n' text) c)) [
      | inl e ↦ absurd (none-some (rw (load_from_file, found, e) at h))
      | inr (e, f) ↦
          let same : t ≡ s = sym (ap (kept s) (rw (load_from_file, found, f) at h)) in
          (same, rw (same, fresh) refl)
    ]
  where
    none-some :
        {x : Config × SecretsManager} → ◌≡◌ {A = Option (Config × SecretsManager)} none (some x) → ⊥
    none-some e = cc

    kept : SecretsManager → Option (Config × SecretsManager) → SecretsManager
    kept u none = u
    kept u (some x) = x.1
