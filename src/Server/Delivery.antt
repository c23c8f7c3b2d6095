-- ===== src/Server/Delivery.antt =====
-- Who gets a message.
use cli_chat.Base.{
  none, ◌≢◌, some, ◌∙◌, ◌++◌, ◌≡◌, refl, ap, sym, inl, inr, ℕ, Bool, true, false, not, ◌&&◌, List,
  [], ◌∷◌, arith, ◌==◌, if◌then◌else◌, any, Bool-cases,
}
use cli_chat.Text.{Bytes, codes}
use cli_chat.Server.State.{Platform, World, returned, lock, unlock, enqueue, send_message}
use cli_chat.Server.ChatServer.{map_find, send_private_message, send_each, broadcast_message}
use cli_chat.Server.Mutex.{SameButObjects, send_each-SameButObjects, bind-returned, lock-free}

-- An object is in the map under some name; no object is in it twice.
abbrev pub registered : ℕ → List (Bytes × ℕ) → Bool
registered id m = any (λ e. e.1 == id) m

abbrev pub IsDistinct : List (Bytes × ℕ) → Type 0
IsDistinct [] = Unit {0}
IsDistinct ((name, id) ∷ m) = (registered id m ≡ false) × IsDistinct m

send_message-objects :
    {Db : Type 0} (id : ℕ) (message : Bytes) (w : World Db) (j : ℕ)
    → (send_message id message w).objects j
      ≡ (if j == id then enqueue message (w.objects j) else w.objects j)
unfolding send_message
send_message-objects id message w j = refl

module _ (keep : Bytes → ℕ → Bool) (message : Bytes) (j : ℕ) where
  abbrev pub kept : List (Bytes × ℕ) → Bool
  kept m = any (λ e. e.1 == j && keep e.0 e.1) m

  kept-unregistered : (m : List (Bytes × ℕ)) → registered j m ≡ false → kept m ≡ false
  kept-unregistered [] h = refl
  kept-unregistered ((name, id) ∷ m) h = ground (arith, kept-unregistered m)

  pub send_each-objects :
      {Db : Type 0} (m : List (Bytes × ℕ)) (w : World Db)
      → IsDistinct m
      → (send_each keep m message w).objects j
        ≡ (if kept m then enqueue message (w.objects j) else w.objects j)
  unfolding send_each
  send_each-objects [] w d = refl
  send_each-objects ((name, id) ∷ m) w (fresh, d) = elim (Bool-cases (keep name id)) [
    | inl k ↦
        rw (k, send_each)
          (ground (
            arith,
            send_each-objects m (send_message id message w) d,
            send_message-objects id message w j,
            kept-unregistered m,
          ))
    | inr k ↦ rw (k, send_each) (ground (arith, send_each-objects m w d))
  ]

abbrev not_the_sender : ℕ → Bytes → ℕ → Bool
not_the_sender x _ id = not (id == x)

kept-not_the_sender :
    (x : ℕ) (message : Bytes) (j : ℕ) (m : List (Bytes × ℕ))
    → kept (not_the_sender x) message j m ≡ (registered j m && not (j == x))
kept-not_the_sender x message j [] = refl
kept-not_the_sender x message j ((name, id) ∷ m) = ground (arith, kept-not_the_sender x message j m)

module _ (p : Platform) (w : World p.Db) where
  -- With the mutex free and each session under one name at most, a broadcast returns; each
  -- registered session but the sender has the message once more in its queue, every other
  -- session is as before, and so is all else.
  pub broadcast_message-delivers :
      (message : Bytes) (sender : ℕ)
      → w.sessions_mutex ≡ false
      → IsDistinct w.sessions_by_username
      → (v : World p.Db) × (broadcast_message p message (some sender) w ≡ returned tt v)
        × SameButObjects v w
        × ((j : ℕ)
            → v.objects j ≡ (
                if registered j w.sessions_by_username && not (j == sender)
                then enqueue message (w.objects j)
                else w.objects j))
  unfolding broadcast_message unlock
  broadcast_message-delivers message sender free d =
      let held = record w { sessions_mutex = true } in
      let sent = send_each (not_the_sender sender) w.sessions_by_username message held in
      let same =
        send_each-SameButObjects (not_the_sender sender) w.sessions_by_username message held in
      (
        record sent { sessions_mutex = false },
        bind-returned lock _ w (lock-free w free),
        record {
          database = same.database;
          sessions_by_username = same.sessions_by_username;
          all_sessions = same.all_sessions;
          sessions_mutex = sym free;
          running = same.running;
        },
        λ j.
            send_each-objects (not_the_sender sender) message j w.sessions_by_username held d
            ∙ ap (λ (b : Bool). if b then enqueue message (w.objects j) else w.objects j)
                (kept-not_the_sender sender message j w.sessions_by_username),
      )

  -- With the mutex free, a private message to a registered name of another session than the
  -- sender's goes to the session under that name, and a confirmation to the sender; nothing
  -- else changes.
  pub send_private_message-delivers :
      (recipient message : Bytes) (sender id : ℕ)
      → w.sessions_mutex ≡ false
      → map_find recipient w.sessions_by_username ≡ some id
      → id ≢ sender
      → (v : World p.Db) × (send_private_message p recipient message sender w ≡ returned tt v)
        × SameButObjects v w
        × ((j : ℕ)
            → v.objects j ≡ (
                if j == id
                then enqueue
                    (codes "private:"
                      ++ ((w.objects sender).username ++ b':' ∷ (message ++ b'\n' ∷ [])))
                    (w.objects j)
                else if j == sender
                then enqueue (codes "private_sent:" ++ (recipient ++ b'\n' ∷ [])) (w.objects j)
                else w.objects j))
  unfolding send_private_message unlock send_message
  send_private_message-delivers recipient message sender id free found ne = (
    record (send_message sender (codes "private_sent:" ++ (recipient ++ b'\n' ∷ [])) (
        send_message id
          (codes "private:" ++ ((w.objects sender).username ++ b':' ∷ (message ++ b'\n' ∷ [])))
          w)) { sessions_mutex = false },
    bind-returned lock _ w (lock-free w free) ∙ rw found,
    ground arith,
    λ j. ground arith,
  )

  -- With the mutex free, a private message to a name that is not registered reaches nobody: the
  -- sender gets an error, and nothing else changes.
  pub send_private_message-offline :
      (recipient message : Bytes) (sender : ℕ)
      → w.sessions_mutex ≡ false
      → map_find recipient w.sessions_by_username ≡ none
      → (v : World p.Db) × (send_private_message p recipient message sender w ≡ returned tt v)
        × SameButObjects v w
        × ((j : ℕ)
            → v.objects j ≡ (
                if j == sender
                then enqueue
                    (codes "error:User " ++ (recipient ++ codes " is not online\n"))
                    (w.objects j)
                else w.objects j))
  unfolding send_private_message unlock send_message
  send_private_message-offline recipient message sender free missing = (
    record (send_message sender (codes "error:User " ++ (recipient ++ codes " is not online\n"))
        w) { sessions_mutex = false },
    bind-returned lock _ w (lock-free w free) ∙ rw missing,
    ground arith,
    λ j. ground arith,
  )
