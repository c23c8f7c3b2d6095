-- ===== src/Server/Identity/Registry.antt =====
-- The operations of the registry change nobody's identity, and never throw.
use cli_chat.Base.{
  Bool-cases, false, List, [], ◌∷◌, arith, ◌≡◌, refl, ℕ, Bool, Option, is_empty, Option-cases, inl,
  inr,
}
use cli_chat.Text.{Bytes}
use cli_chat.Server.State.{M, Platform, World, ◌>>=◌, modify, lock, unlock, update, send_message}
use cli_chat.Server.ChatServer.{
  everyone, map_find, send_each, get_online_users, is_user_online, add_session, remove_session,
  stop_session, announce, broadcast_message, send_private_message, stop, stop_each,
}
use cli_chat.Server.Identity.{
  after-Good, Kept, Good, Kept-refl, Kept-trans, Kept-objects, returned-Good, bind-Good, lock-Good,
  unlock-Good, send_message-Kept, send_each-Kept, update-Kept_same,
}

module _ (p : Platform) (fails : Bool) (touched : ℕ → Bool) where
  pub get_online_users-Good : (w : World p.Db) → Good fails touched w (get_online_users p w)
  unfolding get_online_users unlock
  get_online_users-Good w =
      bind-Good lock _ w (lock-Good w) (λ _ v. returned-Good (Kept-objects _ v refl))

  pub is_user_online-Good :
      (name : Bytes) (w : World p.Db) → Good fails touched w (is_user_online p name w)
  unfolding is_user_online unlock
  is_user_online-Good name w =
      bind-Good lock _ w (lock-Good w) (λ _ v. returned-Good (Kept-objects _ v refl))

  announce-Good : (w : World p.Db) → Good fails touched w (announce p w)
  unfolding announce
  announce-Good w =
      bind-Good (get_online_users p) _ w (get_online_users-Good w)
        λ users v. returned-Good (send_each-Kept _ _ _ v)

  -- What follows a change of the map and a message to the users.
  told-Good :
      {A : Type 0} (keep : Bytes → ℕ → Bool) (message : Bytes) (v w : World p.Db)
      (f : Unit {0} → M p.Db A)
      → v.objects ≡ w.objects
      → ((u : World p.Db) → Good fails touched u (f tt u))
      → Good fails touched w ((announce p >>= f) (send_each keep v.sessions_by_username message v))
  told-Good keep message v w f e rest =
      after-Good
        (Kept-trans _ v w (send_each-Kept keep v.sessions_by_username message v)
          (Kept-objects v w e))
        (bind-Good (announce p) f _ (announce-Good _) (λ _ u. rest u))

  pub add_session-Good : (id : ℕ) (w : World p.Db) → Good fails touched w (add_session p id w)
  unfolding add_session
  add_session-Good id w = bind-Good lock _ w (lock-Good w) λ _ v.
      elim (Bool-cases (is_empty (v.objects id).username)) [
        | inl e ↦ rw e (after-Good (Kept-objects _ v refl) (unlock-Good _))
        | inr e ↦ rw e (told-Good _ _ _ v (λ _. unlock) refl unlock-Good)
      ]

  stop_session-Kept : (id : ℕ) (w : World p.Db) → Kept touched (stop_session p id w) w
  unfolding stop_session
  stop_session-Kept id w =
      let closed = update id (λ s. record s { open_socket = false }) w in
      Kept-trans _ closed w (Kept-objects _ closed (ground arith))
        (update-Kept_same id _ w (λ s. ground arith))

  stopped-Good :
      (id : ℕ) (w : World p.Db)
      → Good fails touched w ((modify (stop_session p id) >>= λ _. unlock) w)
  stopped-Good id w = after-Good (stop_session-Kept id w) (unlock-Good _)

  pub remove_session-Good : (id : ℕ) (w : World p.Db) → Good fails touched w (remove_session p id w)
  unfolding remove_session
  remove_session-Good id w = bind-Good lock _ w (lock-Good w) λ _ v.
      elim (Bool-cases (is_empty (v.objects id).username)) [
        | inl e ↦ rw e (after-Good (Kept-objects _ v refl) (stopped-Good id _))
        | inr e ↦ rw e (
            told-Good everyone _ _ v (λ _. modify (stop_session p id) >>= λ _. unlock) refl
              (stopped-Good id))
      ]

  pub broadcast_message-Good :
      (message : Bytes) (exclude : Option ℕ) (w : World p.Db)
      → Good fails touched w (broadcast_message p message exclude w)
  unfolding broadcast_message
  broadcast_message-Good message exclude w =
      bind-Good lock _ w (lock-Good w) λ _ v. after-Good (send_each-Kept _ _ _ v) (unlock-Good _)

  pub send_private_message-Good :
      (recipient message : Bytes) (id : ℕ) (w : World p.Db)
      → Good fails touched w (send_private_message p recipient message id w)
  unfolding send_private_message
  send_private_message-Good recipient message id w = bind-Good lock _ w (lock-Good w) λ _ v.
      elim (Option-cases (map_find recipient v.sessions_by_username)) [
        | inl e ↦ rw e (after-Good (send_message-Kept id _ v) (unlock-Good _))
        | inr (other, e) ↦ rw e (
            after-Good
              (Kept-trans _ (send_message other _ v) v (send_message-Kept id _ _)
                (send_message-Kept other _ v))
              (unlock-Good _))
      ]

  stop_each-Kept : (ids : List ℕ) (w : World p.Db) → Kept touched (stop_each p ids w) w
  unfolding stop_each
  stop_each-Kept [] w = Kept-refl w
  stop_each-Kept (id ∷ ids) w =
      Kept-trans _ (stop_session p id w) w (stop_each-Kept ids (stop_session p id w))
        (stop_session-Kept id w)

  pub stop-Good : (w : World p.Db) → Good fails touched w (stop p w)
  unfolding stop unlock
  stop-Good w = elim (Bool-cases w.running) [
    | inr e ↦ rw e (returned-Good (Kept-refl _))
    | inl e ↦
        let v = record w { running = false } in
        rw e (
          after-Good (Kept-objects v _ refl) (
            bind-Good lock _ v (lock-Good v) λ _ u. returned-Good (
              Kept-trans _ (stop_each p u.all_sessions u) u (Kept-objects _ _ refl)
                (stop_each-Kept u.all_sessions u))))
  ]
