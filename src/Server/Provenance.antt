-- ===== src/Server/Provenance.antt =====
-- Where an authenticated session of a run comes from.
use cli_chat.Base.{
  ◌≡◌, refl, ◌∙◌, sym, ◌⊎◌, inl, inr, ℕ, Bool, true, false, Option, none, some, length, ltb, arith,
  ◌==◌, Bool-cases,
}
use cli_chat.Text.{Bytes}
use cli_chat.Database.{User}
use cli_chat.Message.{colon, build_login_message}
use cli_chat.Text.Laws.{Lacks}
use cli_chat.Server.State.{Platform, World, world, update}
use cli_chat.Server.Session.{Env, max_message_length}
use cli_chat.Server.Dispatch.{handle_read}
use cli_chat.Server.Accept.{
  Listener, start, start_accept, start_session, handle_accept, handle_stop,
}
use cli_chat.Server.Schedule.{Step, accept, handshake, read, write, signal, Reach, here, next}
use cli_chat.Server.LoginCases.{IsAccepted}
use cli_chat.Server.Identity.Registry.{stop-Good}
use mathlib.Core.Path.{subst}
use cli_chat.Server.Identity.Lines.{handle_read-Good, handle_write-Good, handle_handshake-Good}
use cli_chat.Server.Reads.{is_authenticated, command, read-error, read-authenticates}

-- Steps during which the session `j` is authenticated.
pub data Stays (p : Platform) (j : ℕ) (l : Listener p.Db) : Listener p.Db → Type 0 where
  from_here : is_authenticated l.server j ≡ true → Stays p j l l
  still :
      {m n : Listener p.Db}
      → Stays p j l m
      → Step p m n
      → is_authenticated n.server j ≡ true
      → Stays p j l n

-- The step of a run that authenticated the session `j`, which then stayed so.
pub record Login (p : Platform) (l m : Listener p.Db) (j : ℕ) : Type 0 where
  pub before : Listener p.Db
  pub reached : Reach p l before
  pub anonymous : is_authenticated before.server j ≡ false
  pub pending : (before.server.objects j).reading ≡ true
  pub env : Env
  pub message : Bytes
  pub username : Bytes
  pub password : Bytes
  pub user : User
  pub fits : ltb max_message_length (length message) ≡ false
  pub is_login : command message ≡ build_login_message username password
  pub no_colon : Lacks colon username
  pub accepted : IsAccepted p before.server username password user
  pub after :
      Stays p j
        (record before {
          server = world (
              handle_read p env j
                (some message)
                (update j (λ s. record s { reading = false }) before.server));
        })
        m

Reach-trans : {p : Platform} {l m n : Listener p.Db} → Reach p l m → Reach p m n → Reach p l n
Reach-trans r here = r
Reach-trans r (next q s) = next (Reach-trans r q) s

module _ (p : Platform) where
  earlier : {l m n : Listener p.Db} (j : ℕ) → Reach p l m → Login p m n j → Login p l n j
  earlier j r g = record {
    before = g.before;
    reached = Reach-trans r g.reached;
    anonymous = g.anonymous;
    pending = g.pending;
    env = g.env;
    message = g.message;
    username = g.username;
    password = g.password;
    user = g.user;
    fits = g.fits;
    is_login = g.is_login;
    no_colon = g.no_colon;
    accepted = g.accepted;
    after = g.after;
  }

  extend :
      {l m n : Listener p.Db} (j : ℕ)
      → Login p l m j
      → Step p m n
      → is_authenticated n.server j ≡ true
      → Login p l n j
  extend j g s h = record {
    before = g.before;
    reached = g.reached;
    anonymous = g.anonymous;
    pending = g.pending;
    env = g.env;
    message = g.message;
    username = g.username;
    password = g.password;
    user = g.user;
    fits = g.fits;
    is_login = g.is_login;
    no_colon = g.no_colon;
    accepted = g.accepted;
    after = still g.after s h;
  }

  handle_accept-authenticated :
      (id : ℕ) (error : Bool) (l : Listener p.Db) (j : ℕ)
      → is_authenticated (handle_accept id error l).server j ≡ true
      → is_authenticated l.server j ≡ true
  unfolding handle_accept start_session start_accept update
  handle_accept-authenticated id error l j e = ground arith

  pub start-authenticated :
      (l : Listener p.Db) (j : ℕ)
      → is_authenticated (start l).server j ≡ true
      → is_authenticated l.server j ≡ true
  unfolding start start_accept update
  start-authenticated l j e = ground arith

  handle_stop-authenticated :
      (error : Bool) (w : World p.Db) (j : ℕ)
      → is_authenticated (handle_stop p error w) j ≡ is_authenticated w j
  unfolding handle_stop
  handle_stop-authenticated true w j = refl
  handle_stop-authenticated false w j =
      ((stop-Good p false (λ _. false) w).kept.same j refl).authenticated

  pub waiting-authenticated :
      (id : ℕ) (w : World p.Db) (j : ℕ)
      → is_authenticated (update id (λ s. record s { reading = false }) w) j ≡ is_authenticated w j
  unfolding update
  waiting-authenticated id w j = ground arith

  -- The session without the read that completes.
  abbrev waiting : ℕ → World p.Db → World p.Db
  waiting id w = update id (λ s. record s { reading = false }) w

  waiting-IsAccepted :
      (id : ℕ) (w : World p.Db) (username password : Bytes) (user : User)
      → IsAccepted p (waiting id w) username password user
      → IsAccepted p w username password user
  unfolding update
  waiting-IsAccepted id w username password user a = record {
    known = a.known;
    verified = a.verified;
    active = a.active;
    offline = a.offline;
  }

  own_read :
      (env : Env) (j : ℕ) (line : Option Bytes) (l : Listener p.Db)
      → (l.server.objects j).reading ≡ true
      → is_authenticated (world (handle_read p env j line (waiting j l.server))) j ≡ true
      → (is_authenticated l.server j ≡ true)
        ⊎ Login p l (record l { server = world (handle_read p env j line (waiting j l.server)) }) j
  own_read env j none l e h =
      inl (
        sym (waiting-authenticated j l.server j)
        ∙ sym (read-error p env j (waiting j l.server))
        ∙ h)
  own_read env j (some message) l e h = elim (Bool-cases (is_authenticated l.server j)) [
    | inl known ↦ inl known
    | inr new ↦
        let a =
          read-authenticates p env j message (waiting j l.server)
            (waiting-authenticated j l.server j ∙ new) h in
        inr (record {
          before = l;
          reached = here;
          anonymous = new;
          pending = e;
          env = env;
          message = message;
          username = a.username;
          password = a.password;
          user = a.user;
          fits = a.fits;
          is_login = a.is_login;
          no_colon = a.no_colon;
          accepted = waiting-IsAccepted j l.server a.username a.password a.user a.accepted;
          after = from_here h;
        })
  ]

  -- Whether a step completes a read of the session.
  abbrev pub reads : {l m : Listener p.Db} → ℕ → Step p l m → Bool
  reads j (accept id error e) = false
  reads j (handshake id error e) = false
  reads j (read env id line e n) = j == id
  reads j (write id error e) = false
  reads j (signal error) = false

  -- A step that does not complete a read of the session does not authenticate it.
  pub Step-elsewhere :
      {l m : Listener p.Db} (j : ℕ) (s : Step p l m)
      → reads j s ≡ false
      → is_authenticated m.server j ≡ true
      → is_authenticated l.server j ≡ true
  Step-elsewhere {l} j (accept id error e) q h = handle_accept-authenticated id error l j h
  Step-elsewhere {l} j (handshake id error e) q h =
      sym
        ((handle_handshake-Good p false (λ _. false) id error l.server).kept.same j
          refl).authenticated
      ∙ h
  Step-elsewhere {l} j (write id error e) q h =
      sym
        ((handle_write-Good p false (λ _. false) id error l.server).kept.same j refl).authenticated
      ∙ h
  Step-elsewhere {l} j (signal error) q h = sym (handle_stop-authenticated error l.server j) ∙ h
  Step-elsewhere {l} j (read env id line e _) q h =
      let w = waiting id l.server in
      let g = handle_read-Good p true (λ k. k == id) env id (λ n _. refl) (ground arith) line w in
      sym (waiting-authenticated id l.server j) ∙ sym (g.kept.same j q).authenticated ∙ h

  Step-authenticated :
      {l m : Listener p.Db} (j : ℕ)
      → Step p l m
      → is_authenticated m.server j ≡ true
      → (is_authenticated l.server j ≡ true) ⊎ Login p l m j
  Step-authenticated {l} j (accept id error e) h =
      inl (Step-elsewhere {l = l} j (accept id error e) refl h)
  Step-authenticated {l} j (handshake id error e) h =
      inl (Step-elsewhere {l = l} j (handshake id error e) refl h)
  Step-authenticated {l} j (write id error e) h =
      inl (Step-elsewhere {l = l} j (write id error e) refl h)
  Step-authenticated {l} j (signal error) h = inl (Step-elsewhere {l = l} j (signal error) refl h)
  Step-authenticated {l} j (read env id line e n) h = elim (Bool-cases (j == id)) [
    | inr q ↦ inl (Step-elsewhere {l = l} j (read env id line e n) q h)
    | inl q ↦
        let same : j ≡ id = ground arith in
        subst
          (λ (k : ℕ).
            (l.server.objects k).reading ≡ true
            → is_authenticated (world (handle_read p env k line (waiting k l.server))) j ≡ true
            → (is_authenticated l.server j ≡ true)
              ⊎ Login p l
                  (record l { server = world (handle_read p env k line (waiting k l.server)) }) j)
          same (own_read env j line l) e h
  ]

  Reach-authenticated :
      {l m : Listener p.Db} (j : ℕ)
      → Reach p l m
      → is_authenticated m.server j ≡ true
      → (is_authenticated l.server j ≡ true) ⊎ Login p l m j
  Reach-authenticated j here h = inl h
  Reach-authenticated j (next r s) h = elim (Step-authenticated j s h) [
    | inr g ↦ inr (earlier j r g)
    | inl k ↦ elim (Reach-authenticated j r k) [ inl k ↦ inl k | inr g ↦ inr (extend j g s h) ]
  ]

  -- In every run from a start in which no session is authenticated: a session that is authenticated at its end
  -- completed, while it was not, a read of a line `login:name:password` that is not too long, whose name
  -- holds no colon, at a moment at which the account was known and active, the password verified against
  -- its hash, and nobody was registered under the name; and it was authenticated at each moment since.
  pub authentication_traced :
      (l m : Listener p.Db)
      → ((j : ℕ) → (l.server.objects j).authenticated ≡ false)
      → Reach p (start l) m
      → (j : ℕ) → (m.server.objects j).authenticated ≡ true
      → Login p (start l) m j
  authentication_traced l m nobody r j h = elim (Reach-authenticated j r h) [
    | inr g ↦ g
    | inl k ↦ let known = start-authenticated l j k in absurd (let n = nobody j in cc)
  ]
