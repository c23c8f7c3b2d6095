-- ===== src/Server/Register.antt =====
-- `handleRegister`, branch by branch.
use cli_chat.Base.{
  ◌≡◌, inl, inr, ℕ, Bool, true, false, ◌||◌, none, some, ltb, is_empty, length, Bool-cases,
  Option-cases,
}
use cli_chat.Text.{Bytes, codes}
use cli_chat.Crypto.{hash_password}
use cli_chat.Database.{User}
use cli_chat.Server.State.{Platform, World, Outcome, returned, threw, send_message}
use cli_chat.Server.Session.{Env, auth_response, handle_register, fail_auth, send_auth_response}

-- The world after the attempt to store the account.
abbrev pub after_create : (p : Platform) → Env → Bytes → Bytes → Bytes → World p.Db → World p.Db
after_create p env u hash email w = record w {
  database = (p.create_user w.database env.now u hash email).1;
}

-- The outcomes of a registration, with what decides each.
pub data RegisterCase (p : Platform) (w : World p.Db) (env : Env) (id : ℕ) (u pw email : Bytes)
    (o : Outcome p.Db Bool) : Type 0 where
  bad_length :
      (is_empty u || ltb 32 (length u)) ≡ true
      → o ≡ fail_auth p id (codes "Invalid username length") w
      → RegisterCase p w env id u pw email o
  taken :
      (user : User)
      → (is_empty u || ltb 32 (length u)) ≡ false
      → p.get_user_by_username w.database u ≡ some user
      → o ≡ fail_auth p id (codes "Username already taken") w
      → RegisterCase p w env id u pw email o
  no_salt :
      (is_empty u || ltb 32 (length u)) ≡ false
      → p.get_user_by_username w.database u ≡ none
      → hash_password p.sha256 env.rand pw ≡ none
      → o ≡ threw w
      → RegisterCase p w env id u pw email o
  refused :
      (hash : Bytes)
      → (is_empty u || ltb 32 (length u)) ≡ false
      → p.get_user_by_username w.database u ≡ none
      → hash_password p.sha256 env.rand pw ≡ some hash
      → (p.create_user w.database env.now u hash email).0 ≡ false
      → o ≡ fail_auth p id (codes "Failed to create user") (after_create p env u hash email w)
      → RegisterCase p w env id u pw email o
  created :
      (hash : Bytes)
      → (is_empty u || ltb 32 (length u)) ≡ false
      → p.get_user_by_username w.database u ≡ none
      → hash_password p.sha256 env.rand pw ≡ some hash
      → (p.create_user w.database env.now u hash email).0 ≡ true
      → o
        ≡ returned true (
            send_message id
              (auth_response true (codes "Registration successful. Please login."))
              (after_create p env u hash email w))
      → RegisterCase p w env id u pw email o

-- A registration takes exactly the branch that the length of the name, the accounts, the salt and
-- the database decide, in this order; it never waits for the mutex.
pub handle_register-cases :
    (p : Platform) (w : World p.Db) (env : Env) (id : ℕ) (u pw email : Bytes)
    → RegisterCase p w env id u pw email (handle_register p env id u pw email w)
unfolding handle_register send_auth_response
handle_register-cases p w env id u pw email = elim (Bool-cases (is_empty u || ltb 32 (length u))) [
  | inl bad ↦ bad_length bad (rw bad)
  | inr good ↦ elim (Option-cases (p.get_user_by_username w.database u)) [
    | inr (user, e) ↦ taken user good e (rw good (rw e))
    | inl e ↦ elim (Option-cases (hash_password p.sha256 env.rand pw)) [
      | inl n ↦ no_salt good e n (rw good (rw e (rw n)))
      | inr (hash, n) ↦ elim (Bool-cases (p.create_user w.database env.now u hash email).0) [
        | inl c ↦ created hash good e n c (rw good (rw e (rw n (rw c))))
        | inr c ↦ refused hash good e n c (rw good (rw e (rw n (rw c))))
      ]
    ]
  ]
]
