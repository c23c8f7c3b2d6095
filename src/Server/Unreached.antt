-- ===== src/Server/Unreached.antt =====
-- The mutex held for good, or nobody registered: the operations of the registry keep it.
use cli_chat.Base.{
  ◌≡◌, refl, ◌∙◌, ap, ◌⊎◌, inl, inr, ℕ, true, false, [], Option, none, is_empty, Bool-cases, arith,
}
use cli_chat.Text.{Bytes}
use cli_chat.Server.State.{
  Platform, World, M, Outcome, returned, blocked, threw, world, ◌>>=◌, lock, unlock, update,
  send_message,
}
use cli_chat.Server.ChatServer.{
  map_find, send_each, get_online_users, is_user_online, add_session, remove_session,
  broadcast_message, send_private_message, stop_session,
}
use cli_chat.Server.Mutex.{
  parted-held, lock-free, bind-returned, held_blocks_all, add_session-anonymous,
  add_session-deadlock, remove_session-named,
}

-- The mutex is held, for good, or nobody is registered.
abbrev pub Unreached : {Db : Type 0} → World Db → Type 0
Unreached w = (w.sessions_mutex ≡ true) ⊎ (w.sessions_by_username ≡ [])

pub bind-Unreached :
    {Db A B : Type 0} (m : M Db A) (f : A → M Db B) (w : World Db)
    → Unreached (world (m w))
    → ((a : A) (v : World Db) → Unreached v → Unreached (world (f a v)))
    → Unreached (world ((m >>= f) w))
bind-Unreached {Db} {A} {B} m f w k next = go (m w) refl
  where
    go : (o : Outcome Db A) → m w ≡ o → Unreached (world ((m >>= f) w))
    go (returned a v) e = rw (e, ◌>>=◌) (next a v (rw (← ap (λ (x : Outcome Db A). world x) e) k))
    go (blocked v) e = rw (e, ◌>>=◌) (rw (← ap (λ (x : Outcome Db A). world x) e) k)
    go (threw v) e = rw (e, ◌>>=◌) (rw (← ap (λ (x : Outcome Db A). world x) e) k)

pub at :
    {Db A : Type 0} (x : Outcome Db A) {o : Outcome Db A}
    → x ≡ o
    → Unreached (world o)
    → Unreached (world x)
at x e k = rw e k

pub empty_map :
    {Db : Type 0} (w : World Db)
    → Unreached w
    → w.sessions_mutex ≡ false
    → w.sessions_by_username ≡ []
empty_map w (inl held) free = cc
empty_map w (inr e) free = e

stop_session-map :
    (p : Platform) (id : ℕ) (w : World p.Db)
    → (stop_session p id w).sessions_by_username ≡ w.sessions_by_username
unfolding stop_session update
stop_session-map p id w = ground arith

-- The operations of the registry that start with the mutex and leave the map alone.
module _ (p : Platform) (w : World p.Db) (k : Unreached w) where
  pub get_online_users-Unreached : Unreached (world (get_online_users p w))
  unfolding get_online_users unlock
  get_online_users-Unreached = elim (Bool-cases w.sessions_mutex) [
    | inl e ↦ at (get_online_users p w) (held_blocks_all p w 0 [] [] none e).0 k
    | inr e ↦
        at (get_online_users p w) (bind-returned lock _ w (lock-free w e)) (inr (empty_map w k e))
  ]

  pub is_user_online-Unreached : (name : Bytes) → Unreached (world (is_user_online p name w))
  unfolding is_user_online unlock
  is_user_online-Unreached name = elim (Bool-cases w.sessions_mutex) [
    | inl e ↦ at (is_user_online p name w) (held_blocks_all p w 0 name [] none e).1 k
    | inr e ↦
        at (is_user_online p name w) (bind-returned lock _ w (lock-free w e))
          (inr (empty_map w k e))
  ]

  pub broadcast_message-Unreached :
      (message : Bytes) (exclude : Option ℕ)
      → Unreached (world (broadcast_message p message exclude w))
  unfolding broadcast_message unlock send_each
  broadcast_message-Unreached message exclude = elim (Bool-cases w.sessions_mutex) [
    | inl e ↦
        at (broadcast_message p message exclude w) (held_blocks_all p w 0 [] message exclude e).4 k
    | inr e ↦
        at (broadcast_message p message exclude w) (bind-returned lock _ w (lock-free w e))
          (inr (rw (empty_map w k e) refl))
  ]

  pub send_private_message-Unreached :
      (recipient message : Bytes) (id : ℕ)
      → Unreached (world (send_private_message p recipient message id w))
  unfolding send_private_message unlock map_find send_message update
  send_private_message-Unreached recipient message id = elim (Bool-cases w.sessions_mutex) [
    | inl e ↦
        at (send_private_message p recipient message id w)
          (held_blocks_all p w id recipient message none e).5 k
    | inr e ↦
        at (send_private_message p recipient message id w) (bind-returned lock _ w (lock-free w e))
          (inr (rw (empty_map w k e) (empty_map w k e)))
  ]

  pub add_session-Unreached : (id : ℕ) → Unreached (world (add_session p id w))
  add_session-Unreached id = elim (Bool-cases w.sessions_mutex) [
    | inl e ↦ at (add_session p id w) (held_blocks_all p w id [] [] none e).2 k
    | inr e ↦ elim (Bool-cases (is_empty (w.objects id).username)) [
      | inl anonymous ↦
          at (add_session p id w) (add_session-anonymous p id w e anonymous) (inr (empty_map w k e))
      | inr named ↦
          let (v, stuck, held, _, _) = add_session-deadlock p id w e named in
          at (add_session p id w) stuck (inl held)
    ]
  ]

  pub remove_session-Unreached : (id : ℕ) → Unreached (world (remove_session p id w))
  unfolding remove_session unlock
  remove_session-Unreached id = elim (Bool-cases w.sessions_mutex) [
    | inl e ↦ at (remove_session p id w) (held_blocks_all p w id [] [] none e).3 k
    | inr e ↦ elim (Bool-cases (is_empty (w.objects id).username)) [
      | inl anonymous ↦
          at (remove_session p id w) (bind-returned lock _ w (lock-free w e))
            (rw anonymous (inr (stop_session-map p id _ ∙ empty_map w k e)))
      | inr named ↦
          at (remove_session p id w) (remove_session-named p id w e named)
            (inl (parted-held p id w))
    ]
  ]
