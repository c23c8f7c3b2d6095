-- ===== src/Server/WriteQueue.antt =====
-- The write queue of a connection: one write at a time, in the order of the calls of `sendMessage`.
use cli_chat.Base.{
  ℕ, zero, suc, sym, ◌≡◌, refl, ◌∙◌, ap, sym, List, [], ◌∷◌, ◌++◌, append_assoc, append-nil,
}
use cli_chat.Text.{Bytes}
use cli_chat.Server.State.{Session, enqueue}
use cli_chat.Server.Dispatch.{complete_write}

-- A call of `sendMessage`, or the end of the write in progress.
pub data Step : Type 0 where
  sends : Bytes → Step
  completes : Step

abbrev pub step : Step → Session → Session
step (sends message) s = enqueue message s
step completes s = complete_write s

unfoldable pub run : List Step → Session → Session
run [] s = s
run (e ∷ es) s = run es (step e s)

-- What `sendMessage` was called with, in order.
abbrev pub messages : List Step → List Bytes
messages [] = []
messages (sends message ∷ es) = message ∷ messages es
messages (completes ∷ es) = messages es

abbrev pub tail : List Bytes → List Bytes
tail [] = []
tail (_ ∷ q) = q

-- The front of the queue is the buffer in flight, so it is the last one written: what was written,
-- followed by the rest of the queue, is what was asked for.
abbrev pub asked : Session → List Bytes
asked s = s.sent ++ tail s.write_queue

enqueue-asked :
    (message : Bytes) (s : Session) (q : List Bytes)
    → s.write_queue ≡ q
    → asked (enqueue message s) ≡ asked s ++ message ∷ []
unfolding enqueue
enqueue-asked message s [] e = rw e (simp append-nil)
enqueue-asked message s (m ∷ q) e = rw (e, append_assoc)

complete_write-asked :
    (s : Session) (q : List Bytes) → s.write_queue ≡ q → asked (complete_write s) ≡ asked s
unfolding complete_write
complete_write-asked s [] e = rw (e, complete_write) (rw e)
complete_write-asked s (m ∷ []) e = rw (e, complete_write)
complete_write-asked s (m ∷ n ∷ q) e = rw (e, complete_write) (rw append_assoc)

-- After any calls of `sendMessage` and any ends of writes, what was written and what still waits make
-- up the messages in the order of the calls: none is lost, doubled or overtaken.
pub run-asked : (es : List Step) (s : Session) → asked (run es s) ≡ asked s ++ messages es
unfolding run
run-asked [] s = rw append-nil
run-asked (sends message ∷ es) s =
    run-asked es (enqueue message s)
    ∙ ap (λ (x : List Bytes). x ++ messages es) (enqueue-asked message s s.write_queue refl)
    ∙ append_assoc (asked s) (message ∷ []) (messages es)
run-asked (completes ∷ es) s =
    run-asked es (complete_write s)
    ∙ ap (λ (x : List Bytes). x ++ messages es) (complete_write-asked s s.write_queue refl)

abbrev pub ends : ℕ → List Step
ends zero = []
ends (suc n) = completes ∷ ends n
