-- ===== src/CommandLine/Repeat.antt =====
-- The commands that a user's lines amount to.
use snesemu.Base.{
  Option, none, sym, ap, ◌∙◌, Bool, true, false, Bool-cases, inl, inr, ◌==◌, ℕ, ◌≡◌, refl, some,
  List, [], ◌∷◌, if◌then◌else◌, arith,
}
use snesemu.Console.{Snes}
use snesemu.CommandLine.{
  Line, Prompt, Ending, scanned_or, action, perform, command_of, next_prompt, is_quit, go_on,
  handle_user_input,
}

-- Whether a line starts with a line feed.
abbrev is_feed : Option ℕ → Bool
is_feed none = false
is_feed (some c) = c == 0x0a

-- The lines with each line feed replaced by the command of the line before, which for the first is
-- `previous` and for a line of which nothing is scanned is 0. No other line changes.
unfoldable pub written_out : ℕ → List Line → List Line
written_out previous [] = []
written_out previous (line ∷ lines) =
    if is_feed line.command
    then record line { command = some previous } ∷ written_out previous lines
    else line ∷ written_out (scanned_or line.command 0) lines

-- Two lines that differ in what is scanned as the command, but not in what it comes to, and lines
-- after them that end the loop the same way.
same_round :
    (line : Line) (scanned : Option ℕ) (rest rest' : List Line) (prompt : Prompt) (s : Snes)
    {command : ℕ}
    → command_of prompt.previous_command (record line { command = scanned }) ≡ command
    → command_of prompt.previous_command line ≡ command
    → ((prompt' : Prompt) (s' : Snes)
        → prompt'.previous_command ≡ command
        → handle_user_input rest prompt' s' ≡ handle_user_input rest' prompt' s')
    → handle_user_input (record line { command = scanned } ∷ rest) prompt s
      ≡ handle_user_input (line ∷ rest') prompt s
unfolding handle_user_input next_prompt
same_round line scanned rest rest' prompt s {command} e e' same =
    let prompt' : Prompt = record {
      previous_command = command;
      params = scanned_or line.params prompt.params;
    } in
    rw e (
      rw e' (λ i.
        if is_quit (action command)
        then Ending.quitting (line.meanwhile s)
        else go_on (perform (action command) prompt'.params (line.meanwhile s))
            λ s''. same prompt' s'' refl i))

command_of-feed :
    (previous : ℕ) (line : Line) → is_feed line.command ≡ true → command_of previous line ≡ previous
unfolding command_of
command_of-feed previous line h = ground arith

command_of-plain :
    (previous : ℕ) (line : Line)
    → is_feed line.command ≡ false
    → command_of previous line ≡ scanned_or line.command 0
unfolding command_of
command_of-plain previous line h = ground arith

command_of-some :
    (previous : ℕ) (line : Line)
    → command_of previous (record line { command = some previous }) ≡ previous
unfolding command_of
command_of-some previous line = ground arith

-- A line that starts with a line feed does what the command before does: the loop ends the same way
-- on the lines in which each line feed is replaced by the command of the line before.
pub handle_user_input-written_out :
    (lines : List Line) (prompt : Prompt) (s : Snes)
    → handle_user_input (written_out prompt.previous_command lines) prompt s
      ≡ handle_user_input lines prompt s
unfolding written_out
handle_user_input-written_out [] prompt s = refl
handle_user_input-written_out (line ∷ lines) prompt s = elim (Bool-cases (is_feed line.command)) [
  | inl feed ↦ rw feed (
      same_round line (some prompt.previous_command) (written_out prompt.previous_command lines)
        lines prompt s (command_of-some prompt.previous_command line)
        (command_of-feed prompt.previous_command line feed)
        λ prompt' s' e.
          ap (λ c. handle_user_input (written_out c lines) prompt' s') (sym e)
          ∙ handle_user_input-written_out lines prompt' s')
  | inr plain ↦
      let e = command_of-plain prompt.previous_command line plain in
      rw plain (
        same_round line line.command (written_out (scanned_or line.command 0) lines) lines prompt s
          e e
          λ prompt' s' h.
            ap (λ c. handle_user_input (written_out c lines) prompt' s') (sym h)
            ∙ handle_user_input-written_out lines prompt' s')
]
