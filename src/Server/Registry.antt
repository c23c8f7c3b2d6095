-- ===== src/Server/Registry.antt =====
-- The map and the set of sessions.
use cli_chat.Base.{Bool-cases, inl, inr, Bool, ℕ, ◌≡◌, List, [], ◌∷◌, some, arith}
use cli_chat.Text.{Bytes}
use cli_chat.Text.Laws.{equal_refl}
use cli_chat.Server.State.{Session, World, send_message}
use cli_chat.Server.ChatServer.{send_each, map_insert, map_find}

pub map_find-insert_self :
    (k : Bytes) (v : ℕ) (m : List (Bytes × ℕ)) → map_find k (map_insert k v m) ≡ some v
unfolding map_find map_insert
map_find-insert_self k v [] = ground (arith, equal_refl k)
map_find-insert_self k v ((j, u) ∷ m) = ground (arith, map_find-insert_self k v m, equal_refl k)

-- Two states of a session object that differ in what was queued and written at most.
pub record SameButQueue (s t : Session) : Type 0 where
  pub username : s.username ≡ t.username
  pub user_id : s.user_id ≡ t.user_id
  pub authenticated : s.authenticated ≡ t.authenticated
  pub session_token : s.session_token ≡ t.session_token
  pub reading : s.reading ≡ t.reading
  pub open_socket : s.open_socket ≡ t.open_socket

pub send_message-SameButQueue :
    {Db : Type 0} (id : ℕ) (message : Bytes) (w : World Db) (j : ℕ)
    → SameButQueue ((send_message id message w).objects j) (w.objects j)
unfolding send_message
send_message-SameButQueue id message w j = ground arith

SameButQueue-trans : {s t u : Session} → SameButQueue s t → SameButQueue t u → SameButQueue s u
SameButQueue-trans a b = ground arith

pub send_each-SameButQueue :
    {Db : Type 0} (keep : Bytes → ℕ → Bool) (m : List (Bytes × ℕ)) (message : Bytes) (w : World Db)
    (j : ℕ)
    → SameButQueue ((send_each keep m message w).objects j) (w.objects j)
unfolding send_each
send_each-SameButQueue keep [] message w j = ground arith
send_each-SameButQueue keep ((name, id) ∷ m) message w j = elim (Bool-cases (keep name id)) [
  | inl k ↦
      rw (k, send_each)
        (SameButQueue-trans (send_each-SameButQueue keep m message (send_message id message w) j)
          (send_message-SameButQueue id message w j))
  | inr k ↦ rw (k, send_each) (send_each-SameButQueue keep m message w j)
]
