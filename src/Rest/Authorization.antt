-- ===== src/Rest/Authorization.antt =====
-- Which requests the routes behind a token answer.
use cli_chat.Base.{
  ◌≡◌, refl, ◌∙◌, ◌⊎◌, inl, inr, ℕ, Bool, true, false, [], ◌∷◌, none, some, map, length, ltb,
  is_empty, Bool-cases, Option-cases,
}
use cli_chat.Text.{Bytes, codes, equal}
use cli_chat.Database.{SessionRow}
use cli_chat.Server.State.{Platform, World, M, returned, blocked, ◌>>=◌, pure, lock, unlock}
use cli_chat.Server.ChatServer.{get_online_users}
use cli_chat.Server.Session.{Env}
use cli_chat.Server.Mutex.{get_online_users-held, bind-returned, bind-blocked, lock-free}
use cli_chat.Rest.{
  Boost, get, Request, Response, extract_token, finish, unauthorized, succeeded, message_json,
}
use cli_chat.Rest.Handlers.{
  validate_session, handle_messages, handle_users, handle_stats, route, handle_request,
}

-- The token stands for a session that is active and has not ended.
pub record IsLive (p : Platform) (db : p.Db) (now : ℕ) (token : Bytes) (row : SessionRow)
    : Type 0 where
  pub present : is_empty token ≡ false
  pub found : p.get_session db token ≡ some row
  pub active : row.is_active ≡ true
  pub in_time : ltb row.expires_at now ≡ false

-- The world after the session of a token was deleted.
abbrev pub forget : (p : Platform) → Bytes → World p.Db → World p.Db
forget p token w = record w { database = (p.delete_session w.database token).1 }

module _ (b : Boost) (p : Platform) (now : ℕ) (token : Bytes) (w : World p.Db) where
  pub validate_session-live :
      (row : SessionRow)
      → IsLive p w.database now token row
      → validate_session b p now token w ≡ returned (some row.username) w
  unfolding validate_session
  validate_session-live row l = rw (l.present, l.found, l.active, l.in_time) refl

  -- A session that is not live is refused, and at most deleted.
  pub validate_session-dead :
      ((row : SessionRow) → ¬ IsLive p w.database now token row)
      → (v : World p.Db) × (validate_session b p now token w ≡ returned none v)
        × ((v ≡ w) ⊎ (v ≡ forget p token w))
  unfolding validate_session
  validate_session-dead dead = elim (Bool-cases (is_empty token)) [
    | inl e ↦ (w, rw e refl, inl refl)
    | inr present ↦ elim (Option-cases (p.get_session w.database token)) [
      | inl e ↦ (w, rw (present, e) refl, inl refl)
      | inr (row, found) ↦ elim (Bool-cases row.is_active) [
        | inr e ↦ (w, rw (present, found, e) refl, inl refl)
        | inl active ↦ elim (Bool-cases (ltb row.expires_at now)) [
          | inl e ↦ (forget p token w, rw (present, found, active, e) refl, inr refl)
          | inr in_time ↦ absurd (
              dead row
                (record { present = present; found = found; active = active; in_time = in_time }))
        ]
      ]
    ]
  ]

get_online_users-free :
    (p : Platform) (w : World p.Db)
    → w.sessions_mutex ≡ false
    → get_online_users p w ≡ returned (map (λ e. e.0) w.sessions_by_username) w
unfolding get_online_users unlock
get_online_users-free p w free = bind-returned lock _ w (lock-free w free) ∙ rw free refl

-- The routes behind a token.
pub data Protected : Type 0 where
  messages users stats : Protected

abbrev pub target_of : Protected → Bytes
target_of messages = codes "/api/messages"
target_of users = codes "/api/users"
target_of stats = codes "/api/stats"

abbrev handler : (b : Boost) (p : Platform) → Protected → Env → Request → M p.Db Response
handler b p messages = handle_messages b p
handler b p users = handle_users b p
handler b p stats = handle_stats b p

module _ (b : Boost) (p : Platform) (env : Env) (req : Request) (w : World p.Db) where
  handle_request-handler :
      (t : Protected)
      → req.method ≡ get
      → req.target ≡ target_of t
      → handle_request b p env req w ≡ (handler b p t env req >>= λ res. pure (finish req res)) w
  unfolding handle_request route equal
  handle_request-handler messages m e = rw (m, e) refl
  handle_request-handler users m e = rw (m, e) refl
  handle_request-handler stats m e = rw (m, e) refl

  handler-dead :
      (t : Protected) (v : World p.Db)
      → validate_session b p env.now (extract_token req) w ≡ returned none v
      → handler b p t env req w ≡ returned (unauthorized b) v
  unfolding handle_messages handle_users handle_stats
  handler-dead messages v e = bind-returned (validate_session b p env.now (extract_token req)) _ w e
  handler-dead users v e = bind-returned (validate_session b p env.now (extract_token req)) _ w e
  handler-dead stats v e = bind-returned (validate_session b p env.now (extract_token req)) _ w e

-- What a route behind a token answers: the last 50 messages, the names in the registry, or the
-- three counts.
abbrev pub answer : (b : Boost) (p : Platform) → Protected → World p.Db → Response
answer b p messages w =
    succeeded b 200 (
      (codes "messages", b.array (map (message_json b) (p.get_recent_messages w.database 50))) ∷ [])
answer b p users w =
    succeeded b 200
      ((codes "users", b.array (map b.string (map (λ e. e.0) w.sessions_by_username))) ∷ [])
answer b p stats w = succeeded b 200 (
    (
      codes "stats",
      b.object (
          (codes "total_users", b.number (p.get_user_count w.database))
          ∷ (codes "total_messages", b.number (p.get_message_count w.database))
          ∷ (codes "online_users", b.number (length (map (λ e. e.0) w.sessions_by_username)))
          ∷ []),
    )
    ∷ [])

-- The routes that read the registry wait for its mutex.
abbrev pub waits : {Db : Type 0} → Protected → World Db → Bool
waits messages w = false
waits users w = w.sessions_mutex
waits stats w = w.sessions_mutex

module _ (b : Boost) (p : Platform) (env : Env) (req : Request) (w : World p.Db) where
  handler-live :
      (t : Protected) (name : Bytes)
      → validate_session b p env.now (extract_token req) w ≡ returned (some name) w
      → ((waits t w ≡ true) × (handler b p t env req w ≡ blocked w))
        ⊎ ((waits t w ≡ false) × (handler b p t env req w ≡ returned (answer b p t w) w))
  unfolding handle_messages handle_users handle_stats
  handler-live messages name e =
      inr (refl, bind-returned (validate_session b p env.now (extract_token req)) _ w e)
  handler-live users name e =
      let checked = bind-returned (validate_session b p env.now (extract_token req)) _ w e in
      elim (Bool-cases w.sessions_mutex) [
        | inl h ↦
            inl (h, checked ∙ bind-blocked (get_online_users p) _ w (get_online_users-held p w h))
        | inr h ↦
            inr (h, checked ∙ bind-returned (get_online_users p) _ w (get_online_users-free p w h))
      ]
  handler-live stats name e =
      let checked = bind-returned (validate_session b p env.now (extract_token req)) _ w e in
      elim (Bool-cases w.sessions_mutex) [
        | inl h ↦
            inl (h, checked ∙ bind-blocked (get_online_users p) _ w (get_online_users-held p w h))
        | inr h ↦
            inr (h, checked ∙ bind-returned (get_online_users p) _ w (get_online_users-free p w h))
      ]

  -- A GET of a route behind a token. If the token of its `Authorization` field stands for a session
  -- that is active and has not ended, the answer is the route's, and nothing changes; but the users
  -- and the statistics wait for ever where the mutex is held. If it does not, the answer is
  -- "Unauthorized", and nothing changes but that the session may be deleted.
  pub handle_request-guarded :
      (t : Protected)
      → req.method ≡ get
      → req.target ≡ target_of t
      → ((row : SessionRow)
          → IsLive p w.database env.now (extract_token req) row
          → ((waits t w ≡ true) × (handle_request b p env req w ≡ blocked w))
            ⊎ ((waits t w ≡ false)
                × (handle_request b p env req w ≡ returned (finish req (answer b p t w)) w)))
        × (((row : SessionRow) → ¬ IsLive p w.database env.now (extract_token req) row)
            → (v : World p.Db) × (handle_request b p env req w
                ≡ returned (finish req (unauthorized b)) v)
              × ((v ≡ w) ⊎ (v ≡ forget p (extract_token req) w)))
  handle_request-guarded t m e =
      let routed = handle_request-handler b p env req w t m e in
      (
        λ row l.
            elim (handler-live t row.username
              (validate_session-live b p env.now (extract_token req) w row l)) [
                | inl (h, k) ↦ inl (h, routed ∙ bind-blocked (handler b p t env req) _ w k)
                | inr (h, k) ↦ inr (h, routed ∙ bind-returned (handler b p t env req) _ w k)
              ],
        λ dead.
            let (v, checked, same) = validate_session-dead b p env.now (extract_token req) w dead in
            (
              v,
              routed
                  ∙ bind-returned (handler b p t env req) _ w
                      (handler-dead b p env req w t v checked),
              same,
            ),
      )
