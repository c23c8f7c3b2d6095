-- ===== src/Terminal/Loop.antt =====
-- When the loop of `chatMode` ends.
use cli_chat.Base.{
  ◌≡◌, refl, ℕ, zero, suc, true, ◌&&◌, ◌⊎◌, inl, inr, [], ◌∷◌, ◌++◌, List, Bool-cases, Option-cases,
}
use cli_chat.Text.{codes, equal}
use cli_chat.Terminal.{
  TerminalUi, receive, chat_line, chat_loop, Input, server, typed, Ending, waiting, left, crashed,
  print, prompt,
}

abbrev pub HasEnded : Ending → Type 0
HasEnded ending =
    ((v : TerminalUi) × (rest : List Input) × (ending ≡ left v rest)) ⊎ (ending ≡ crashed)

HasEnded-at : (x y : Ending) → x ≡ y → HasEnded y → HasEnded x
HasEnded-at x y e h = rw e h

-- Where `quit` is typed, the chat mode ends: it left then or before, or an exception in what came from
-- the server ended the program, whatever was typed and received before and after.
pub chat_loop-ends :
    (before after : List Input) (ui : TerminalUi)
    → HasEnded (chat_loop (before ++ typed (codes "quit") ∷ after) ui)
unfolding chat_loop chat_line equal
chat_loop-ends [] after ui = inl (_, _, refl)
chat_loop-ends (server line ∷ before) after ui = elim (Option-cases (receive line ui)) [
  | inl e ↦ rw (chat_loop, e) (inr refl)
  | inr (next, e) ↦ rw (chat_loop, e) (chat_loop-ends before after next)
]
chat_loop-ends (typed input ∷ before) after ui =
    let (more, next) = chat_line input ui in
    elim (Bool-cases (more && (next.running && next.client.authenticated))) [
      | inl e ↦ rw (chat_loop, e) (chat_loop-ends before after (print prompt next))
      | inr e ↦ rw (chat_loop, e) (inl (_, _, refl))
    ]

-- n lines without text, which `std::getline` gives for ever at the end of its input.
abbrev pub empty_lines : ℕ → List Input
empty_lines zero = []
empty_lines (suc n) = typed [] ∷ empty_lines n

-- At the end of its input the chat mode of a client that stays authenticated never ends: after any
-- number of empty lines it waits for another, and the client is as it was.
pub chat_loop-at_end :
    (n : ℕ) (ui : TerminalUi)
    → ui.running ≡ true
    → ui.client.authenticated ≡ true
    → (v : TerminalUi) × (chat_loop (empty_lines n) ui ≡ waiting v) × (v.client ≡ ui.client)
unfolding chat_loop chat_line
chat_loop-at_end zero ui running online = (ui, refl, refl)
chat_loop-at_end (suc n) ui running online =
    let (v, waits, same) = chat_loop-at_end n (print prompt ui) running online in
    (v, rw (running, online) waits, same)
