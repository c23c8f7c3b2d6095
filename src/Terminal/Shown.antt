-- ===== src/Terminal/Shown.antt =====
-- From the server's `sendPrivateMessage` to the terminal of the recipient.
use mathlib.Core.Option
use cli_chat.Base.{
  ==_iff, inl, inr, Bool-cases, ◌≢◌, ◌≡◌, refl, ◌∙◌, ap, sym, ℕ, ◌+◌, ◌-◌, Bool, true, false, [],
  ◌∷◌, ◌++◌, List, some, length, ◌==◌, arith, append_assoc, length-append, if◌then◌else◌,
}
use cli_chat.Text.{pop_back, Bytes, codes, starts_with, substr, substr_from, ends_with}
use cli_chat.Text.Laws.{Lacks, find_from-append, substr-at, substr_from-at}
use cli_chat.Server.State.{Platform, World, returned, enqueue}
use cli_chat.Server.ChatServer.{map_find, send_private_message}
use cli_chat.Server.Delivery.{send_private_message-delivers}
use cli_chat.Client.{
  ChatClient, Event, on_private_message, private_reply, process_message, start_read, handle_read,
  emit,
}
use cli_chat.Terminal.{TerminalUi, receive, on_events, on_event, show_private_message}

-- The line that the server sends for a private message, without the line end.
abbrev pub private_line : Bytes → Bytes → Bytes
private_line sender message = codes "private:" ++ (sender ++ b':' ∷ message)

private_reply-line :
    (sender message : Bytes) (c : ChatClient)
    → Lacks b':' sender
    → private_reply (private_line sender message) c
      ≡ some (emit c.callbacks.private_message (on_private_message sender message) c)
unfolding private_reply
private_reply-line sender message c clean =
    let line = private_line sender message in
    let found = find_from-append (codes "private:") sender message b':' clean in
    let from : substr line 8 (8 + length sender - 8) ≡ some sender =
      substr-at (codes "private:") sender (b':' ∷ message) refl refl (omega arith) in
    let content : substr_from line (8 + length sender + 1) ≡ some message =
      substr_from-at (codes "private:" ++ (sender ++ b':' ∷ [])) message
        (ap (◌++◌ (codes "private:")) (sym (append_assoc sender (b':' ∷ []) message)))
        (omega (arith, length-append sender (b':' ∷ []))) in
    rw (found, private_reply) (rw from (rw content refl))

start_read-events :
    (c : ChatClient) (es : List Event)
    → start_read (record c { events = es }) ≡ record (start_read c) { events = es }
unfolding start_read
start_read-events c es = elim (Bool-cases c.connected) [
  | inr e ↦ rw e refl
  | inl e ↦ elim (Bool-cases c.has_socket) [ inl k ↦ rw (e, k) refl | inr k ↦ rw (e, k) refl ]
]

handle_read-private :
    (sender message : Bytes) (c : ChatClient)
    → Lacks b':' sender
    → ends_with (private_line sender message) b'\r' ≡ false
    → c.callbacks.private_message ≡ true
    → handle_read (some (private_line sender message)) (record c { events = [] })
      ≡ some (record (start_read c) { events = on_private_message sender message ∷ [] })
unfolding handle_read process_message starts_with
handle_read-private sender message c clean plain set =
    let line = private_line sender message in
    let quiet = record c { events = [] } in
    let shown = on_private_message sender message ∷ [] in
    ap
      (λ (b : Bool).
        Option.map start_read (process_message (if b then pop_back line else line) quiet))
      plain
    ∙ ap (Option.map start_read) (private_reply-line sender message quiet clean)
    ∙ ap (λ (b : Bool). some (start_read (emit b (on_private_message sender message) quiet))) set
    ∙ ap some (start_read-events c shown)

receive-private :
    (sender message : Bytes) (ui : TerminalUi)
    → Lacks b':' sender
    → ends_with (private_line sender message) b'\r' ≡ false
    → ui.client.callbacks.private_message ≡ true
    → receive (some (private_line sender message)) ui
      ≡ some (
          show_private_message sender message
            (record ui { client = start_read (record ui.client { events = [] }) }))
unfolding receive on_events on_event
receive-private sender message ui clean plain set =
    ap
      (Option.map
        (λ (c : ChatClient). on_events c.events (record ui { client = record c { events = [] } })))
      (handle_read-private sender message ui.client clean plain set)
    ∙ ap (λ (c : ChatClient). some (show_private_message sender message (record ui { client = c })))
        (sym (start_read-events ui.client []))

-- With the mutex free, a private message to a name registered for another session than the
-- sender's: the server queues one line for that session, and that line, read by a client whose
-- callbacks are set, is shown in its terminal as the private message of the sender, with its text
-- as it was sent, before the client reads on. The name of the sender holds no colon, and the text
-- does not end in a carriage return.
pub private_message_shown :
    (p : Platform) (w : World p.Db) (recipient message : Bytes) (sender id : ℕ) (ui : TerminalUi)
    → w.sessions_mutex ≡ false
    → map_find recipient w.sessions_by_username ≡ some id
    → id ≢ sender
    → Lacks b':' (w.objects sender).username
    → let line = private_line (w.objects sender).username message in
      ends_with line b'\r' ≡ false
      → ui.client.callbacks.private_message ≡ true
      → ((v : World p.Db) × (send_private_message p recipient message sender w ≡ returned tt v)
          × (v.objects id ≡ enqueue (line ++ b'\n' ∷ []) (w.objects id)))
        × (receive (some line) ui
            ≡ some (
                show_private_message
                  (w.objects sender).username
                  message
                  (record ui { client = start_read (record ui.client { events = [] }) })))
private_message_shown p w recipient message sender id ui free found ne clean plain set =
    let name = (w.objects sender).username in
    let (v, sent, _, objects) =
      send_private_message-delivers p w recipient message sender id free found ne in
    let own =
      enqueue (codes "private:" ++ (name ++ b':' ∷ (message ++ b'\n' ∷ []))) (w.objects id) in
    let other =
      if id == sender
      then enqueue (codes "private_sent:" ++ (recipient ++ b'\n' ∷ [])) (w.objects id)
      else w.objects id in
    (
      (
        v,
        sent,
        objects id
            ∙ ap (λ (b : Bool). if b then own else other) ((==_iff id id).1 refl)
            ∙ ap (λ (t : Bytes). enqueue (codes "private:" ++ t) (w.objects id))
                (sym (append_assoc name (b':' ∷ message) (b'\n' ∷ []))),
      ),
      receive-private name message ui clean plain set,
    )
