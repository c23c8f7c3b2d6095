-- ===== src/Server/Robust.antt =====
-- What no client can do to the server: stop it with a line, or change who another client is.
use cli_chat.Base.{
  Bool-cases, inl, inr, ◌≡◌, ◌≢◌, refl, ℕ, Bool, true, false, Option, none, arith, ◌==◌,
}
use cli_chat.Text.{Bytes}
use cli_chat.Server.State.{has_thrown, Platform, World, Outcome, world}
use cli_chat.Server.ChatServer.{stop}
use cli_chat.Server.Session.{Env, handle_handshake}
use cli_chat.Server.Dispatch.{handle_read, handle_write}
use cli_chat.Server.Identity.{Good, SameIdentity}
use cli_chat.Server.Identity.Registry.{stop-Good}
use cli_chat.Server.Identity.Lines.{handle_read-Good, handle_write-Good, handle_handshake-Good}

Good-has_thrown :
    {Db A : Type 0} {touched : ℕ → Bool} {w : World Db} {o : Outcome Db A}
    → Good false touched w o
    → has_thrown o ≡ false
Good-has_thrown {o} g = elim (Bool-cases (has_thrown o)) [
  | inl e ↦ absurd (let h = g.throws e in cc)
  | inr e ↦ e
]

module _ (p : Platform) (id : ℕ) (w : World p.Db) where
  -- Whatever line arrives, or none for an error, and whatever the state of the server is: if random
  -- bytes are drawn whenever they are asked for, no exception leaves the completion of the read. None
  -- leaves the completion of a write or of a handshake, or the stop of the server.
  pub handlers_never_throw :
      (env : Env) (line : Option Bytes) (error : Bool)
      → ((n : ℕ) → env.rand n ≢ none)
      → (has_thrown (handle_read p env id line w) ≡ false)
        × (has_thrown (handle_write p id error w) ≡ false)
        × (has_thrown (handle_handshake p id error w) ≡ false)
        × (has_thrown (stop p w) ≡ false)
  handlers_never_throw env line error draws = (
    Good-has_thrown (
        handle_read-Good p false (λ k. k == id) env id (λ n e. absurd (draws n e)) (ground arith)
          line w),
    Good-has_thrown (handle_write-Good p false (λ k. k == id) id error w),
    Good-has_thrown (handle_handshake-Good p false (λ k. k == id) id error w),
    Good-has_thrown (stop-Good p false (λ k. k == id) w),
  )

  -- Whatever line a client sends, or when its connection breaks: every other session keeps its name,
  -- its account, its token and whether it is authenticated.
  pub handle_read-others :
      (env : Env) (line : Option Bytes) (j : ℕ)
      → j == id ≡ false
      → SameIdentity ((world (handle_read p env id line w)).objects j) (w.objects j)
  handle_read-others env line j other =
      (handle_read-Good p true (λ k. k == id) env id (λ n e. refl) (ground arith) line w).kept.same
        j other
