-- ===== src/CommandLine.antt =====
-- src/main.c: the commands of the user.

pub mod Repeat
pub mod Exit
use snesemu.Base.{
  ℕ, ◌==◌, Bool, true, false, ◌||◌, Option, none, some, List, [], ◌∷◌, if◌then◌else◌, get_or,
  Result, ok, err, and_then,
}
use mathlib.Core.Option
use snesemu.Apu.{Garbage}
use snesemu.Console.{Snes, Call, do_cpu_tick, run_cpu, set_cpu_breakpoint, power_up, destroy}
use snesemu.Console
use snesemu.Cart
use snesemu.System.{Process, Grants, ℤ}

-- One line: what `sscanf` with the format "%c %x" stores of it, the character of the command and the
-- number, and what the threads have done to the console before it is acted on. A line of which
-- nothing is scanned, as at the end of the input, leaves both.
pub record Line : Type 0 where
  pub command : Option ℕ
  pub params : Option ℕ
  pub meanwhile : Snes → Snes

abbrev pub scanned_or : Option ℕ → ℕ → ℕ
scanned_or none n = n
scanned_or (some k) n = k

-- The locals that outlast a round; `params` starts with an indeterminate value.
pub record Prompt : Type 0 where
  pub previous_command : ℕ
  pub params : ℕ

pub data Action : Type 0 where
  next breakpoint run quit unknown : Action

-- The cases of the `switch`, by the character codes.
unfoldable pub action : ℕ → Action
action command =
    if command == 0x6e || command == 0x4e
    then Action.next
    else if command == 0x62 || command == 0x42
    then Action.breakpoint
    else if command == 0x72 || command == 0x52
    then Action.run
    else if command == 0x71 || command == 0x51
    then Action.quit
    else Action.unknown

-- The console after an action that does not quit; `none` waits for ever.
unfoldable pub perform : Action → ℕ → Snes → Option Snes
unfolding do_cpu_tick run_cpu set_cpu_breakpoint
perform Action.next params s = do_cpu_tick s
perform Action.breakpoint params s = some (set_cpu_breakpoint s params)
perform Action.run params s = run_cpu s
perform Action.quit params s = some s
perform Action.unknown params s = some s

-- A line feed alone repeats the command before.
unfoldable pub command_of : ℕ → Line → ℕ
command_of previous_command line =
    let command = scanned_or line.command 0 in if command == 0x0a then previous_command else command

unfoldable pub next_prompt : Prompt → Line → Prompt
unfolding command_of
next_prompt prompt line = record {
  previous_command = command_of prompt.previous_command line;
  params = scanned_or line.params prompt.params;
}

-- How the loop ends: by a command to quit, or never, because a call waits for ever or because the
-- input has ended, from where on each round scans nothing.
pub data Ending : Type 0 where
  quitting : Snes → Ending
  waiting : Ending
  endless : Snes → Ending

abbrev pub is_quit : Action → Bool
is_quit Action.quit = true
is_quit _ = false

abbrev pub go_on : Option Snes → (Snes → Ending) → Ending
go_on none rest = Ending.waiting
go_on (some s) rest = rest s

unfoldable pub handle_user_input : List Line → Prompt → Snes → Ending
unfolding action perform next_prompt
handle_user_input [] prompt s = Ending.endless s
handle_user_input (line ∷ lines) prompt s =
    let prompt' = next_prompt prompt line in
    let a = action prompt'.previous_command in
    let s' = line.meanwhile s in
    if is_quit a
    then Ending.quitting s'
    else go_on (perform a prompt'.params s') λ s''. handle_user_input lines prompt' s''

-- The end of `main`, when the loop has ended.
unfoldable pub shut_down : Ending → Process → Call (ℤ × Process)
shut_down (Ending.quitting s) p =
    Option.map (λ r. and_then r λ (u, q). and_then (Cart.power_down q) λ (v, q'). ok (ℤ.pos 0, q'))
      (destroy s p)
shut_down Ending.waiting p = none
shut_down (Ending.endless s) p = none

-- What `main` does with the console after `snes_power_up`, whose return is not tested.
unfoldable pub operate : List Line → Prompt → Process → Call (ℤ × Snes) → Call (ℤ × Process)
unfolding handle_user_input shut_down
operate lines prompt p none = none
operate lines prompt p (some (err e)) = some (err e)
operate lines prompt p (some (ok (code, s))) = shut_down (handle_user_input lines prompt s) p

abbrev pub failed : Process → ℤ × Process
failed p = (ℤ.negsuc 0, p)

-- `main`: -1 without a cartridge or a console. `cpu_code` and `apu_code` are what `pthread_create`
-- returns.
module _ (g : Grants) (raw : Garbage) (cpu_code apu_code : ℤ) (lines : List Line)
    (prompt : Prompt) where
  unfoldable pub with_console : Result (Option Snes × Process) → Call (ℤ × Process)
  unfolding operate
  with_console (err e) = some (err e)
  with_console (ok (none, p)) = some (and_then (Cart.power_down p) λ (u, q). ok (failed q))
  with_console (ok (some s, p)) = operate lines prompt p (power_up cpu_code apu_code s)

  unfoldable pub with_cart : Result (Option Cart.Cart × Process) → Call (ℤ × Process)
  unfolding with_console
  with_cart (err e) = some (err e)
  with_cart (ok (none, p)) = some (ok (failed p))
  with_cart (ok (some cart, p)) = with_console (Console.init g raw cart p)

  unfoldable pub main : Process → Call (ℤ × Process)
  unfolding with_cart
  main p = with_cart (Cart.power_up g p)
