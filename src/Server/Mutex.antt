-- ===== src/Server/Mutex.antt =====
-- `sessions_mutex_` and the operations that take it twice.
use cli_chat.Base.{
  Option, some, ap, inl, inr, Bool-cases, if◌then◌else◌, ◌∷◌, [], List, Bool, arith, ◌++◌, not, ℕ,
  ◌≡◌, ◌∙◌, true, false, is_empty,
}
use cli_chat.Text.{Bytes, codes, equal}
use cli_chat.Server.State.{
  send_message, Platform, World, M, returned, blocked, threw, ◌>>=◌, lock, unlock,
}
use cli_chat.Server.Registry.{SameButQueue, send_each-SameButQueue, map_find-insert_self}
use cli_chat.Server.ChatServer.{
  is_user_online, broadcast_message, send_private_message, stop, map_find, set_erase, everyone,
  map_erase, remove_session, set_insert, map_insert, send_each, announce, get_online_users,
  add_session,
}

-- Sequences, one step at a time.
module _ {Db A B : Type 0} (m : M Db A) (f : A → M Db B) (w : World Db) where
  pub bind-returned : {a : A} {v : World Db} → m w ≡ returned a v → (m >>= f) w ≡ f a v
  bind-returned e = rw (e, ◌>>=◌)

  pub bind-blocked : {v : World Db} → m w ≡ blocked v → (m >>= f) w ≡ blocked v
  bind-blocked e = rw (e, ◌>>=◌)

  pub bind-threw : {v : World Db} → m w ≡ threw v → (m >>= f) w ≡ threw v
  bind-threw e = rw (e, ◌>>=◌)

module _ {Db : Type 0} (w : World Db) where
  pub lock-free :
      w.sessions_mutex ≡ false → lock w ≡ returned tt (record w { sessions_mutex = true })
  unfolding lock
  lock-free e = rw e

  pub lock-held : w.sessions_mutex ≡ true → lock w ≡ blocked w
  unfolding lock
  lock-held e = rw e

-- Sending touches only the session objects.
pub record SameButObjects {Db : Type 0} (v w : World Db) : Type 0 where
  pub database : v.database ≡ w.database
  pub sessions_by_username : v.sessions_by_username ≡ w.sessions_by_username
  pub all_sessions : v.all_sessions ≡ w.all_sessions
  pub sessions_mutex : v.sessions_mutex ≡ w.sessions_mutex
  pub running : v.running ≡ w.running

pub send_each-SameButObjects :
    {Db : Type 0} (keep : Bytes → ℕ → Bool) (m : List (Bytes × ℕ)) (message : Bytes) (w : World Db)
    → SameButObjects (send_each keep m message w) w
unfolding send_each send_message
send_each-SameButObjects keep [] message w = ground arith
send_each-SameButObjects keep ((name, id) ∷ m) message w = ground (
  arith,
  send_each-SameButObjects keep m message w,
  send_each-SameButObjects keep m message (send_message id message w),
)

module _ (p : Platform) (w : World p.Db) where
  pub get_online_users-held : w.sessions_mutex ≡ true → get_online_users p w ≡ blocked w
  unfolding get_online_users
  get_online_users-held e = bind-blocked lock _ w (lock-held w e)

  pub announce-held : w.sessions_mutex ≡ true → announce p w ≡ blocked w
  unfolding announce
  announce-held e = bind-blocked (get_online_users p) _ w (get_online_users-held e)

module _ (p : Platform) (id : ℕ) (w : World p.Db) where
  pub add_session-anonymous :
      w.sessions_mutex ≡ false
      → is_empty (w.objects id).username ≡ true
      → add_session p id w
        ≡ returned tt
            (record w { all_sessions = set_insert id w.all_sessions; sessions_mutex = false })
  unfolding add_session unlock
  add_session-anonymous free anon = bind-returned lock _ w (lock-free w free) ∙ rw anon

  -- The world in which `addSession` of a session with a name gets stuck.
  abbrev pub joined : World p.Db
  joined =
      let name = (w.objects id).username in
      let m = map_insert name id w.sessions_by_username in
      send_each (λ user _. not (equal user name)) m
        (codes "system:User " ++ (name ++ codes " joined the chat\n"))
        (record w {
          all_sessions = set_insert id w.all_sessions;
          sessions_mutex = true;
          sessions_by_username = m;
        })

  -- A session with a name is registered, the others are told, and then the thread waits for the mutex
  -- that it holds.
  pub add_session-named :
      w.sessions_mutex ≡ false
      → is_empty (w.objects id).username ≡ false
      → add_session p id w ≡ blocked joined
  unfolding add_session
  add_session-named free named =
      let name = (w.objects id).username in
      let m = map_insert name id w.sessions_by_username in
      let held =
        send_each-SameButObjects (λ user _. not (equal user name)) m
          (codes "system:User " ++ (name ++ codes " joined the chat\n"))
          (record w {
            all_sessions = set_insert id w.all_sessions;
            sessions_mutex = true;
            sessions_by_username = m;
          }) in
      bind-returned lock _ w (lock-free w free)
      ∙ rw named (bind-blocked (announce p) _ joined (announce-held p joined held.sessions_mutex))

  -- The world in which `removeSession` of a session with a name gets stuck.
  abbrev pub parted : World p.Db
  parted =
      let name = (w.objects id).username in
      let m = map_erase name w.sessions_by_username in
      send_each everyone m (codes "system:User " ++ (name ++ codes " left the chat\n")) (record w {
        all_sessions = set_erase id w.all_sessions;
        sessions_mutex = true;
        sessions_by_username = m;
      })

  pub remove_session-named :
      w.sessions_mutex ≡ false
      → is_empty (w.objects id).username ≡ false
      → remove_session p id w ≡ blocked parted
  unfolding remove_session
  remove_session-named free named =
      let name = (w.objects id).username in
      let m = map_erase name w.sessions_by_username in
      let held =
        send_each-SameButObjects everyone m
          (codes "system:User " ++ (name ++ codes " left the chat\n"))
          (record w {
            all_sessions = set_erase id w.all_sessions;
            sessions_mutex = true;
            sessions_by_username = m;
          }) in
      bind-returned lock _ w (lock-free w free)
      ∙ rw named (bind-blocked (announce p) _ parted (announce-held p parted held.sessions_mutex))

  pub parted-held : parted.sessions_mutex ≡ true
  parted-held =
      (send_each-SameButObjects everyone (map_erase (w.objects id).username w.sessions_by_username)
        (codes "system:User " ++ ((w.objects id).username ++ codes " left the chat\n"))
        (record w {
          all_sessions = set_erase id w.all_sessions;
          sessions_mutex = true;
          sessions_by_username = map_erase (w.objects id).username w.sessions_by_username;
        })).sessions_mutex

-- While the mutex is held, every operation of the registry waits for ever, in the world in which
-- it was called; so does `stop` on a running server, after it has cleared `running_`, and on a
-- stopped one it returns.
pub held_blocks_all :
    (p : Platform) (w : World p.Db) (id : ℕ) (name message : Bytes) (exclude : Option ℕ)
    → w.sessions_mutex ≡ true
    → (get_online_users p w ≡ blocked w)
      × (is_user_online p name w ≡ blocked w)
      × (add_session p id w ≡ blocked w)
      × (remove_session p id w ≡ blocked w)
      × (broadcast_message p message exclude w ≡ blocked w)
      × (send_private_message p name message id w ≡ blocked w)
      × (stop p w ≡ (if w.running then blocked (record w { running = false }) else returned tt w))
unfolding is_user_online add_session remove_session broadcast_message send_private_message stop
held_blocks_all p w id name message exclude e = (
  get_online_users-held p w e,
  bind-blocked lock _ w (lock-held w e),
  bind-blocked lock _ w (lock-held w e),
  bind-blocked lock _ w (lock-held w e),
  bind-blocked lock _ w (lock-held w e),
  bind-blocked lock _ w (lock-held w e),
  elim (Bool-cases w.running) [
    | inl r ↦ rw r (
        bind-blocked lock _ (record w { running = false })
          (lock-held (record w { running = false }) e))
    | inr r ↦ rw r
  ],
)

-- With the mutex free, registering a session that has a name never returns: it ends up waiting
-- for the mutex that its own thread holds, with the name already in the map. The sessions differ
-- in what was queued and written at most.
pub add_session-deadlock :
    (p : Platform) (id : ℕ) (w : World p.Db)
    → w.sessions_mutex ≡ false
    → is_empty (w.objects id).username ≡ false
    → (v : World p.Db) × (add_session p id w ≡ blocked v)
      × (v.sessions_mutex ≡ true)
      × (map_find (w.objects id).username v.sessions_by_username ≡ some id)
      × ((j : ℕ) → SameButQueue (v.objects j) (w.objects j))
add_session-deadlock p id w free named =
    let name = (w.objects id).username in
    let m = map_insert name id w.sessions_by_username in
    let same =
      send_each-SameButObjects (λ user _. not (equal user name)) m
        (codes "system:User " ++ (name ++ codes " joined the chat\n"))
        (record w {
          all_sessions = set_insert id w.all_sessions;
          sessions_mutex = true;
          sessions_by_username = m;
        }) in
    (
      joined p id w,
      add_session-named p id w free named,
      same.sessions_mutex,
      ap (map_find name) same.sessions_by_username
          ∙ map_find-insert_self name id w.sessions_by_username,
      send_each-SameButQueue (λ user _. not (equal user name)) m
          (codes "system:User " ++ (name ++ codes " joined the chat\n"))
          (record w {
            all_sessions = set_insert id w.all_sessions;
            sessions_mutex = true;
            sessions_by_username = m;
          }),
    )
