-- ===== src/Server/State.antt =====
-- The objects of the server and the effects of its handlers. A handler runs to its end before the
-- next one starts, unless it waits for `sessions_mutex_`: it then never goes on. `write_mutex_` is
-- held only around the two queue operations, in which nothing waits, and is not modelled.
use cli_chat.Base.{
  ℕ, Bool, true, false, List, [], ◌∷◌, ◌++◌, Option, none, some, ◌==◌, is_empty, if◌then◌else◌,
}
use cli_chat.Text.{Bytes}
use cli_chat.Database.{DatabaseApi}

-- Code outside of the repository: the database as an interface, and OpenSSL's digest.
pub record Platform : Type 1 where
  pub api : DatabaseApi
  pub open api use *
  pub sha256 : Bytes → Bytes

-- The class `Session`. `sent` lists the buffers given to `async_write`, the oldest first;
-- `reading` says that a read is pending.
pub record Session : Type 0 where
  pub username : Bytes
  pub user_id : ℕ
  pub authenticated : Bool
  pub session_token : Bytes
  pub write_queue : List Bytes
  pub sent : List Bytes
  pub reading : Bool
  pub open_socket : Bool

-- The constructor, on an accepted socket.
abbrev pub new_session : Session
new_session = record {
  username = [];
  user_id = 0;
  authenticated = false;
  session_token = [];
  write_queue = [];
  sent = [];
  reading = false;
  open_socket = true;
}

-- A `shared_ptr<Session>` is a number, and `objects` holds what it points to. The map and the set
-- are lists, in the order in which they are iterated.
pub record World (Db : Type 0) : Type 0 where
  pub database : Db
  pub objects : ℕ → Session
  pub sessions_by_username : List (Bytes × ℕ)
  pub all_sessions : List ℕ
  pub sessions_mutex : Bool
  pub running : Bool

-- How a handler ends: it returns, it waits for ever for the mutex, or an exception leaves it.
pub data Outcome (Db A : Type 0) : Type 0 where
  returned : A → World Db → Outcome Db A
  blocked : World Db → Outcome Db A
  threw : World Db → Outcome Db A

-- The world that a handler leaves, however it ends.
abbrev pub world : {Db A : Type 0} → Outcome Db A → World Db
world (returned a w) = w
world (blocked w) = w
world (threw w) = w

abbrev pub has_thrown : {Db A : Type 0} → Outcome Db A → Bool
has_thrown (threw w) = true
has_thrown (returned a w) = false
has_thrown (blocked w) = false

abbrev pub M : Type 0 → Type 0 → Type 0
M Db A = World Db → Outcome Db A

module _ {Db : Type 0} where
  infixl 5 ◌>>=◌ ◌>>◌
  abbrev pub ◌>>=◌ : {A B : Type 0} → M Db A → (A → M Db B) → M Db B
  ◌>>=◌ m f w = elim (m w) [
    | returned a w' ↦ f a w'
    | blocked w' ↦ blocked w'
    | threw w' ↦ threw w'
  ]

  abbrev pub ◌>>◌ : {B : Type 0} → M Db (Unit {0}) → M Db B → M Db B
  m >> k = m >>= λ _. k

  abbrev pub pure : {A : Type 0} → A → M Db A
  pure a w = returned a w

  -- A function that may throw.
  abbrev pub or_throw : {A : Type 0} → Option A → M Db A
  or_throw none w = threw w
  or_throw (some a) w = returned a w

  abbrev pub gets : {A : Type 0} → (World Db → A) → M Db A
  gets f w = returned (f w) w

  abbrev pub modify : (World Db → World Db) → M Db (Unit {0})
  modify f w = returned tt (f w)

  -- std::lock_guard: the mutex is not recursive.
  unfoldable pub lock : M Db (Unit {0})
  lock w = if w.sessions_mutex then blocked w else returned tt (record w { sessions_mutex = true })

  unfoldable pub unlock : M Db (Unit {0})
  unlock w = returned tt (record w { sessions_mutex = false })

  unfoldable pub update : ℕ → (Session → Session) → World Db → World Db
  update id f w = record w { objects = λ j. if j == id then f (w.objects j) else w.objects j }

-- Session::sendMessage
unfoldable pub enqueue : Bytes → Session → Session
enqueue message s = record s {
  write_queue = s.write_queue ++ message ∷ [];
  sent = if is_empty s.write_queue then s.sent ++ message ∷ [] else s.sent;
}

unfoldable pub send_message : {Db : Type 0} → ℕ → Bytes → World Db → World Db
unfolding enqueue update
send_message id message = update id (enqueue message)
