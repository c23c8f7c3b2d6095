-- ===== src/Server/Shutdown.antt =====
-- src/server/main.cpp: the threads of `main` and its end. A thread that runs a handler which waits for
-- the mutex for ever is lost. `run` returns in the others when nothing is pending any more, and `main`
-- joins every thread. What the destructors do after that is left out.
use cli_chat.Base.{
  not, any, ◌&&◌, ◌∷◌, ◌≡◌, refl, ◌∙◌, ap, sym, inl, inr, ◌⊎◌, ℕ, ◌+◌, Bool, true, false, ◌||◌, [],
  List, Option, none, some, ltb, ◌==◌, is_empty, Bool-cases, if◌then◌else◌, arith,
}
use cli_chat.Text.{Bytes}
use cli_chat.Config.{Config}
use cli_chat.Server.State.{Platform, World, world, update}
use cli_chat.Server.ChatServer.{stop}
use cli_chat.Server.Session.{Env, handle_handshake}
use cli_chat.Server.Dispatch.{handle_read, handle_write}
use cli_chat.Server.Start.{Outside}
use cli_chat.Server.Accept.{Listener, start}
use cli_chat.Server.Schedule.{Step, accept, handshake, read, write, signal}
use cli_chat.Server.Hang.{has_blocked, read-blocked}
use cli_chat.Server.Reads.{is_authenticated, read-error}
use cli_chat.Server.Provenance.{reads, Step-elsewhere, waiting-authenticated, start-authenticated}
use cli_chat.Server.Main.{System, exits, serves, server_main, new_server}
use cli_chat.Server.Program.{serves-start}

-- The number of the threads, from what `hardware_concurrency` says.
unfoldable pub thread_count : ℕ → ℕ
thread_count hardware = if hardware == 0 then 2 else hardware

-- Whether the handler that a step runs never returns.
abbrev pub hangs : {p : Platform} {l m : Listener p.Db} → Step p l m → Bool
hangs (accept id error e) = false
hangs {p} {l} (handshake id error e) = has_blocked (handle_handshake p id error l.server)
hangs {p} {l} (read env id line e n) =
    has_blocked (handle_read p env id line (update id (λ s. record s { reading = false }) l.server))
hangs {p} {l} (write id error e) = has_blocked (handle_write p id error l.server)
hangs {p} {l} (signal error) = if error then false else has_blocked (stop p l.server)

abbrev pub is_signal : {p : Platform} {l m : Listener p.Db} → Step p l m → Bool
is_signal (accept id error e) = false
is_signal (handshake id error e) = false
is_signal (read env id line e n) = false
is_signal (write id error e) = false
is_signal (signal error) = true

-- The threads that are lost, whether the wait for a signal is over, and the sessions with a write that
-- failed: their queues are left as they are, and no write is pending for them any more.
pub record Threads : Type 0 where
  pub lost : ℕ
  pub signalled : Bool
  pub failed : List ℕ

-- There is one wait for a signal, and nothing writes for a session after a write that failed.
abbrev pub is_pending : {p : Platform} {l m : Listener p.Db} → Step p l m → Threads → Bool
is_pending (accept id error e) t = true
is_pending (handshake id error e) t = true
is_pending (read env id line e n) t = true
is_pending (write id error e) t = not (any (λ j. j == id) t.failed)
is_pending (signal error) t = not t.signalled

abbrev failed_writes : {p : Platform} {l m : Listener p.Db} → Step p l m → List ℕ → List ℕ
failed_writes (accept id error e) ids = ids
failed_writes (handshake id error e) ids = ids
failed_writes (read env id line e n) ids = ids
failed_writes (write id error e) ids = if error then id ∷ ids else ids
failed_writes (signal error) ids = ids

abbrev pub after_step : {p : Platform} {l m : Listener p.Db} → Step p l m → Threads → Threads
after_step s t = record {
  lost = if hangs s then t.lost + 1 else t.lost;
  signalled = t.signalled || is_signal s;
  failed = failed_writes s t.failed;
}

abbrev pub at_begin : Threads
at_begin = record { lost = 0; signalled = false; failed = [] }

-- What the threads run: a handler needs a thread that is not lost.
pub data Run (p : Platform) (threads : ℕ) (l : Listener p.Db)
    : Listener p.Db → Threads → Type 0 where
  begun : Run p threads l l at_begin
  ran :
      {m n : Listener p.Db} {t : Threads}
      → Run p threads l m t
      → (s : Step p m n) → is_pending s t && ltb t.lost threads ≡ true
      → Run p threads l n (after_step s t)

-- The moments of a run.
abbrev pub At :
    {p : Platform} {threads : ℕ} {l m : Listener p.Db} {t : Threads}
    → Run p threads l m t
    → Listener p.Db
    → Type 0
At {l = l} begun k = k ≡ l
At {m = m} (ran r s q) k = (k ≡ m) ⊎ At r k

-- Nothing is pending but a signal.
pub record IsIdle {Db : Type 0} (l : Listener Db) (t : Threads) : Type 0 where
  pub no_accept : l.pending ≡ none
  pub no_handshake : l.handshakes ≡ []
  pub no_read : (j : ℕ) → (l.server.objects j).reading ≡ false
  pub no_write :
      (j : ℕ) → (is_empty (l.server.objects j).write_queue || any (λ i. i == j) t.failed) ≡ true

-- The ways in which `main` returns, with its code.
pub data Ends (p : Platform) (s : System) (outside : Config → Outside) (db : p.Db)
    (argv : List Bytes) (hardware : ℕ) : ℕ → Type 0 where
  refused :
      (code : ℕ)
      → server_main p s outside db argv ≡ exits code
      → Ends p s outside db argv hardware code
  joined :
      (config : Config) (l m : Listener p.Db) (t : Threads)
      → server_main p s outside db argv ≡ serves config l
      → Run p (thread_count hardware) l m t
      → t.lost ≡ 0
      → t.signalled ≡ true
      → IsIdle m t
      → Ends p s outside db argv hardware 0

module _ (p : Platform) where
  -- Nobody is authenticated.
  abbrev Anonymous : Listener p.Db → Type 0
  Anonymous l = (j : ℕ) → is_authenticated l.server j ≡ false

  -- Nobody has the empty name.
  abbrev Nameless : Listener p.Db → Type 0
  Nameless l = p.get_user_by_username l.server.database [] ≡ none

  own_read-Anonymous :
      (env : Env) (id : ℕ) (line : Option Bytes) (w : World p.Db)
      → p.get_user_by_username w.database [] ≡ none
      → is_authenticated w id ≡ false
      → has_blocked (handle_read p env id line w) ≡ false
      → is_authenticated (world (handle_read p env id line w)) id ≡ true
      → ⊥
  own_read-Anonymous env id none w n before free after = let e = read-error p env id w in cc
  own_read-Anonymous env id (some message) w n before free after =
      let h = read-blocked p env id message w n before after in cc

  reads-Anonymous :
      {l m : Listener p.Db} (j : ℕ) (s : Step p l m)
      → Nameless l
      → Anonymous l
      → hangs s ≡ false
      → reads p j s ≡ true
      → is_authenticated m.server j ≡ true
      → ⊥
  unfolding update
  reads-Anonymous j (accept id error e) n a free q h = absurd cc
  reads-Anonymous j (handshake id error e) n a free q h = absurd cc
  reads-Anonymous j (write id error e) n a free q h = absurd cc
  reads-Anonymous j (signal error) n a free q h = absurd cc
  reads-Anonymous {l} j (read env id line e _) n a free q h =
      let same : j ≡ id = ground arith in
      let w = update id (λ s. record s { reading = false }) l.server in
      own_read-Anonymous env id line w n (waiting-authenticated p id l.server id ∙ a id) free
        (ap (λ (k : ℕ). is_authenticated (world (handle_read p env id line w)) k) (sym same) ∙ h)

  Step-Anonymous :
      {l m : Listener p.Db} (s : Step p l m)
      → Nameless l
      → Anonymous l
      → hangs s ≡ false
      → Anonymous m
  Step-Anonymous {l} {m} s n a free j = elim (Bool-cases (is_authenticated m.server j)) [
    | inr e ↦ e
    | inl h ↦ elim (Bool-cases (reads p j s)) [
      | inl q ↦ absurd (reads-Anonymous j s n a free q h)
      | inr q ↦ let k = Step-elsewhere p {l = l} j s q h in let no_one = a j in absurd cc
    ]
  ]

  none_lost : (b : Bool) (lost : ℕ) → (if b then lost + 1 else lost) ≡ 0 → (b ≡ false) × (lost ≡ 0)
  none_lost b lost e = ground arith

  At-last : {threads : ℕ} {l m : Listener p.Db} {t : Threads} (r : Run p threads l m t) → At r m
  At-last begun = refl
  At-last (ran r s q) = inl refl

  Run-Anonymous :
      {threads : ℕ} {l m : Listener p.Db} {t : Threads}
      → (r : Run p threads l m t) → t.lost ≡ 0
      → ((k : Listener p.Db) → At r k → Nameless k)
      → Anonymous l
      → Anonymous m
  Run-Anonymous begun e n a = a
  Run-Anonymous (ran {m = m} {t = t} r s q) e n a =
      let (free, before) = none_lost (hangs s) t.lost e in
      Step-Anonymous s (n m (inr (At-last r))) (Run-Anonymous r before (λ k i. n k (inr i)) a) free

  At-Anonymous :
      {threads : ℕ} {l m : Listener p.Db} {t : Threads}
      → (r : Run p threads l m t) → t.lost ≡ 0
      → ((k : Listener p.Db) → At r k → Nameless k)
      → Anonymous l
      → (k : Listener p.Db) → At r k
      → Anonymous k
  At-Anonymous begun e n a k i = rw i a
  At-Anonymous (ran r s q) e n a k (inl i) = rw i (Run-Anonymous (ran r s q) e n a)
  At-Anonymous (ran {t = t} r s q) e n a k (inr i) =
      let (free, before) = none_lost (hangs s) t.lost e in
      At-Anonymous r before (λ k i. n k (inr i)) a k i

  new_server-Anonymous : (db : p.Db) → Anonymous (start (new_server db))
  new_server-Anonymous db j =
      elim (Bool-cases (is_authenticated (start (new_server db)).server j)) [
        | inr e ↦ e
        | inl h ↦ let known = start-authenticated p (new_server db) j h in absurd cc
      ]

-- The moments at which the handlers ran before `main` returned.
abbrev pub During :
    {p : Platform} {s : System} {outside : Config → Outside} {db : p.Db} {argv : List Bytes}
    {hardware code : ℕ}
    → Ends p s outside db argv hardware code
    → Listener p.Db
    → Type 0
During (refused code e) k = ⊥
During (joined config l m t e r f g i) k = At r k

-- If the database has no account under the empty name at any moment of the run of the handlers: with
-- whatever code `main` returns, no session was authenticated at any of these moments.
pub main_ends-nobody :
    (p : Platform) (s : System) (outside : Config → Outside) (db : p.Db) (argv : List Bytes)
    (hardware code : ℕ) (e : Ends p s outside db argv hardware code)
    → ((k : Listener p.Db) → During e k → p.get_user_by_username k.server.database [] ≡ none)
    → (k : Listener p.Db) → During e k
    → (j : ℕ) → (k.server.objects j).authenticated ≡ false
main_ends-nobody p s outside db argv hardware code (refused c e) n k i = absurd i
main_ends-nobody p s outside db argv hardware code (joined config l m t e r free g idle) n k i =
    At-Anonymous p r free n
      (rw (serves-start p s outside db argv config l e) (new_server-Anonymous p db)) k i
