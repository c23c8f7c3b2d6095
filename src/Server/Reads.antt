-- ===== src/Server/Reads.antt =====
-- A read that authenticates its session.
use cli_chat.Base.{
  ◌≡◌, refl, ◌∙◌, sym, inl, inr, ℕ, Bool, true, false, none, some, length, ltb, arith, Bool-cases,
  if◌then◌else◌,
}
use cli_chat.Text.{Bytes, ends_with, pop_back}
use cli_chat.Database.{User}
use cli_chat.Message.{colon, build_login_message}
use cli_chat.Text.Laws.{Lacks}
use cli_chat.Server.State.{
  Platform, World, M, Outcome, returned, blocked, threw, world, ◌>>=◌, update, send_message,
}
use cli_chat.Server.Session.{Env, max_message_length, start_read}
use cli_chat.Server.Dispatch.{process_message, handle_read}
use cli_chat.Server.LoginCases.{IsAccepted}
use cli_chat.Server.Authentication.{process_message-authenticates}
use cli_chat.Server.Identity.Registry.{remove_session-Good}

abbrev pub is_authenticated : {Db : Type 0} → World Db → ℕ → Bool
is_authenticated w j = (w.objects j).authenticated

-- The line without the carriage return at its end.
abbrev pub command : Bytes → Bytes
command message = if ends_with message b'\r' then pop_back message else message

-- What a line has to be to authenticate its session.
pub record Accepts (p : Platform) (w : World p.Db) (message : Bytes) : Type 0 where
  pub username : Bytes
  pub password : Bytes
  pub user : User
  pub fits : ltb max_message_length (length message) ≡ false
  pub is_login : command message ≡ build_login_message username password
  pub no_colon : Lacks colon username
  pub accepted : IsAccepted p w username password user

module _ (p : Platform) (env : Env) (id : ℕ) where
  start_read-authenticated :
      (w : World p.Db) (m : M p.Db (Unit {0}))
      → is_authenticated (world ((m >>= λ _. start_read p id) w)) id
        ≡ is_authenticated (world (m w)) id
  unfolding start_read update
  start_read-authenticated w m = go (m w) refl
    where
      go :
          (o : Outcome p.Db (Unit {0}))
          → m w ≡ o
          → is_authenticated (world ((m >>= λ _. start_read p id) w)) id
            ≡ is_authenticated (world (m w)) id
      go (returned a v) e = rw (e, ◌>>=◌) (ground arith)
      go (blocked v) e = rw (e, ◌>>=◌) refl
      go (threw v) e = rw (e, ◌>>=◌) refl

  read-long :
      (message : Bytes) (w : World p.Db)
      → ltb max_message_length (length message) ≡ true
      → is_authenticated (world (handle_read p env id (some message) w)) id ≡ is_authenticated w id
  unfolding handle_read start_read update send_message
  read-long message w long = rw (long, handle_read) (ground arith)

  pub read-short :
      (message : Bytes) (w : World p.Db)
      → ltb max_message_length (length message) ≡ false
      → is_authenticated (world (handle_read p env id (some message) w)) id
        ≡ is_authenticated (world (process_message p env id (command message) w)) id
  unfolding handle_read
  read-short message w short =
      rw (short, handle_read)
        (start_read-authenticated w (process_message p env id (command message)))

  pub read-error :
      (w : World p.Db)
      → is_authenticated (world (handle_read p env id none w)) id ≡ is_authenticated w id
  unfolding handle_read
  read-error w = ((remove_session-Good p true (λ _. false) id w).kept.same id refl).authenticated

  pub read-authenticates :
      (message : Bytes) (w : World p.Db)
      → is_authenticated w id ≡ false
      → is_authenticated (world (handle_read p env id (some message) w)) id ≡ true
      → Accepts p w message
  read-authenticates message w before after =
      elim (Bool-cases (ltb max_message_length (length message))) [
        | inl long ↦ absurd (let e = read-long message w long in cc)
        | inr short ↦
            let (u, pw, user, e, l, a) =
              process_message-authenticates p env id w (command message) before
                (sym (read-short message w short) ∙ after) in
            record {
              username = u;
              password = pw;
              user = user;
              fits = short;
              is_login = e;
              no_colon = l;
              accepted = a;
            }
      ]
