-- ===== src/Secrets/Wipe.antt =====
-- src/common/secrets.cpp: what the memory of a secret of the manager holds when it is given up. These
-- texts are copies, with nothing behind their end. The destructor calls `clearSecrets`.
use cli_chat.Base.{
  Bool, List, [], ◌∷◌, ◌++◌, Option, none, some, ◌==◌, all, is_empty, if◌then◌else◌,
}
use cli_chat.Text.{Bytes}
use cli_chat.Secrets.{SecretsManager}

-- The loop of `secureMemoryWipe`.
unfoldable pub wipe_loop : Bytes → Bytes
wipe_loop [] = []
wipe_loop (_ ∷ s) = 0 ∷ wipe_loop s

-- SecretsManager::secureMemoryWipe: the text afterwards, and what its memory holds when it is given up.
unfoldable pub secure_memory_wipe : Bytes → Bytes × Bytes
unfolding wipe_loop
secure_memory_wipe str = if is_empty str then (str, str) else ([], wipe_loop str)

abbrev wiped : Option Bytes → List Bytes
wiped none = []
wiped (some secret) = (secure_memory_wipe secret).1 ∷ []

-- What the secrets' memory holds after `clearSecrets`.
unfoldable pub clear_memory : SecretsManager → List Bytes
unfolding secure_memory_wipe
clear_memory s = wiped s.redis_password ++ (wiped s.database_password ++ wiped s.session_secret)

-- Nothing but zeros.
abbrev pub is_wiped : Bytes → Bool
is_wiped = all (λ c. c == 0)
