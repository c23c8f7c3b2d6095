-- ===== src/Server/Identity.antt =====
-- What a handler leaves alone: the identity of the sessions that it is not about; and when an
-- exception leaves it. Closed under the combinators of Server.State.
pub mod Registry
pub mod Handlers
pub mod Lines
use cli_chat.Base.{
  ◌≡◌, refl, ◌∙◌, ap, inl, inr, ℕ, Bool, true, false, List, Option, none, some, arith, ◌==◌,
  Bool-cases, if◌then◌else◌,
}
use cli_chat.Text.{Bytes}
use cli_chat.Server.State.{
  has_thrown, Session, World, M, Outcome, returned, blocked, threw, world, ◌>>=◌, or_throw, lock,
  unlock, update, send_message,
}
use cli_chat.Server.ChatServer.{send_each}
use cli_chat.Server.Mutex.{lock-held, lock-free}
use cli_chat.Server.Registry.{SameButQueue, send_message-SameButQueue, send_each-SameButQueue}

-- Who a session is.
pub record SameIdentity (s t : Session) : Type 0 where
  pub username : s.username ≡ t.username
  pub user_id : s.user_id ≡ t.user_id
  pub authenticated : s.authenticated ≡ t.authenticated
  pub session_token : s.session_token ≡ t.session_token

pub SameIdentity-refl : (s : Session) → SameIdentity s s
SameIdentity-refl s = ground arith

pub SameIdentity-trans : {s t u : Session} → SameIdentity s t → SameIdentity t u → SameIdentity s u
SameIdentity-trans a b = ground arith

SameIdentity-queue : {s t : Session} → SameButQueue s t → SameIdentity s t
SameIdentity-queue q = ground arith

-- Every session outside of `touched` is who it was.
pub record Kept {Db : Type 0} (touched : ℕ → Bool) (v w : World Db) : Type 0 where
  pub same : (j : ℕ) → touched j ≡ false → SameIdentity (v.objects j) (w.objects j)

-- An outcome that keeps them, and is an exception only if `fails`.
pub record Good {Db A : Type 0} (fails : Bool) (touched : ℕ → Bool) (w : World Db)
    (o : Outcome Db A) : Type 0 where
  pub kept : Kept touched (world o) w
  pub throws : has_thrown o ≡ true → fails ≡ true

module _ {Db : Type 0} {touched : ℕ → Bool} where
  pub Kept-refl : (w : World Db) → Kept touched w w
  Kept-refl w = record { same = λ j e. SameIdentity-refl (w.objects j) }

  pub Kept-trans : (u v w : World Db) → Kept touched u v → Kept touched v w → Kept touched u w
  Kept-trans u v w k l = record { same = λ j e. SameIdentity-trans (k.same j e) (l.same j e) }

  -- A change of anything but the objects.
  pub Kept-objects : (v w : World Db) → v.objects ≡ w.objects → Kept touched v w
  Kept-objects v w e = record {
    same = λ j h. rw (ap (λ (o : ℕ → Session). o j) e) (SameIdentity-refl (w.objects j));
  }

  pub send_message-Kept : (id : ℕ) (m : Bytes) (w : World Db) → Kept touched (send_message id m w) w
  send_message-Kept id m w = record {
    same = λ j e. SameIdentity-queue (send_message-SameButQueue id m w j);
  }

  pub send_each-Kept :
      (keep : Bytes → ℕ → Bool) (users : List (Bytes × ℕ)) (m : Bytes) (w : World Db)
      → Kept touched (send_each keep users m w) w
  send_each-Kept keep users m w = record {
    same = λ j e. SameIdentity-queue (send_each-SameButQueue keep users m w j);
  }

  -- An update of a session that is not kept, or that leaves it who it is.
  pub update-Kept :
      (id : ℕ) (f : Session → Session) (w : World Db)
      → touched id ≡ true
      → Kept touched (update id f w) w
  unfolding update
  update-Kept id f w t = record {
    same = λ j e. elim (Bool-cases (j == id)) [
      | inl q ↦ let same : j ≡ id = ground arith in absurd cc
      | inr q ↦ rw q (SameIdentity-refl (w.objects j))
    ];
  }

  pub update-Kept_same :
      (id : ℕ) (f : Session → Session) (w : World Db)
      → ((s : Session) → SameIdentity (f s) s)
      → Kept touched (update id f w) w
  unfolding update
  update-Kept_same id f w same = record {
    same = λ j e. elim (Bool-cases (j == id)) [
      | inl q ↦ rw q (same (w.objects j))
      | inr q ↦ rw q (SameIdentity-refl (w.objects j))
    ];
  }

module _ {Db : Type 0} {fails : Bool} {touched : ℕ → Bool} where
  pub returned-Good :
      {A : Type 0} {a : A} {v w : World Db} → Kept touched v w → Good fails touched w (returned a v)
  returned-Good k = record { kept = k; throws = λ e. cc }

  pub blocked-Good :
      {A : Type 0} {v w : World Db} → Kept touched v w → Good {A = A} fails touched w (blocked v)
  blocked-Good k = record { kept = k; throws = λ e. cc }

  pub same-Good :
      {A : Type 0} {x o : Outcome Db A} {w : World Db}
      → x ≡ o
      → Good fails touched w o
      → Good fails touched w x
  same-Good e g = rw e g

  -- What was changed before.
  pub after-Good :
      {A : Type 0} {v w : World Db} {o : Outcome Db A}
      → Kept touched v w
      → Good fails touched v o
      → Good fails touched w o
  after-Good {v} {w} {o} k g = record {
    kept = Kept-trans (world o) v w g.kept k;
    throws = g.throws;
  }

  pub bind-Good :
      {A B : Type 0} (m : M Db A) (f : A → M Db B) (w : World Db)
      → Good fails touched w (m w)
      → ((a : A) (v : World Db) → Good fails touched v (f a v))
      → Good fails touched w ((m >>= f) w)
  bind-Good {A} {B} m f w g next = go (m w) refl
    where
      go : (o : Outcome Db A) → m w ≡ o → Good fails touched w ((m >>= f) w)
      go (returned a v) e =
          rw (e, ◌>>=◌)
            (record {
              kept =
                  Kept-trans (world (f a v)) v w (next a v).kept
                    (rw (← ap (λ (x : Outcome Db A). world x) e) g.kept);
              throws = (next a v).throws;
            })
      go (blocked v) e =
          rw (e, ◌>>=◌)
            (record { kept = rw (← ap (λ (x : Outcome Db A). world x) e) g.kept; throws = λ h. cc })
      go (threw v) e =
          rw (e, ◌>>=◌)
            (record {
              kept = rw (← ap (λ (x : Outcome Db A). world x) e) g.kept;
              throws = λ h. g.throws (ap has_thrown e);
            })

  pub pick-Good :
      {A : Type 0} (b : Bool) (m n : M Db A) (w : World Db)
      → Good fails touched w (m w)
      → Good fails touched w (n w)
      → Good fails touched w ((if b then m else n) w)
  pick-Good true m n w g h = g
  pick-Good false m n w g h = h

  pub guard-Good :
      {A : Type 0} (b : Bool) (m n : M Db A) (w : World Db)
      → (b ≡ true → Good fails touched w (m w))
      → Good fails touched w (n w)
      → Good fails touched w ((if b then m else n) w)
  guard-Good true m n w g h = g refl
  guard-Good false m n w g h = h

  pub found-Good :
      {A C : Type 0} (o : Option C) (m : M Db A) (n : C → M Db A) (w : World Db)
      → Good fails touched w (m w)
      → ((c : C) → o ≡ some c → Good fails touched w (n c w))
      → let run : M Db A = elim o [ none ↦ m | some c ↦ n c ] in Good fails touched w (run w)
  found-Good none m n w g h = g
  found-Good (some c) m n w g h = h c refl

  pub or_throw-Good :
      {A : Type 0} (o : Option A) (w : World Db)
      → (o ≡ none → fails ≡ true)
      → Good fails touched w (or_throw o w)
  or_throw-Good none w h = record { kept = Kept-refl w; throws = λ e. h refl }
  or_throw-Good (some a) w h = returned-Good (Kept-refl w)

  pub lock-Good : (w : World Db) → Good fails touched w (lock w)
  unfolding lock
  lock-Good w = elim (Bool-cases w.sessions_mutex) [
    | inl e ↦ same-Good (lock-held w e) (blocked-Good (Kept-refl w))
    | inr e ↦
        same-Good (lock-free w e)
          (returned-Good (Kept-objects (record w { sessions_mutex = true }) w refl))
  ]

  pub unlock-Good : (w : World Db) → Good fails touched w (unlock w)
  unfolding unlock
  unlock-Good w = returned-Good (Kept-objects (record w { sessions_mutex = false }) w refl)
