-- ===== src/CommandLine/Exit.antt =====
-- How the program ends.
use snesemu.Base.{◌≡◌, Option, none, some, List, Result, ok, err, arith}
use snesemu.System.{Process, Grants, ℤ}
use snesemu.Cart
use snesemu.Console
use snesemu.Apu.{Garbage}
use snesemu.Console.{Snes, Call, power_up, destroy}
use snesemu.Console.Balance.{destroy-undefined}
use snesemu.CommandLine.{
  Line, Prompt, Ending, handle_user_input, shut_down, operate, with_console, with_cart, main,
}

shut_down-ok : (end : Ending) (p : Process) {r : ℤ × Process} → shut_down end p ≡ some (ok r) → ⊥
unfolding shut_down
shut_down-ok (Ending.quitting s) p e = let never = destroy-undefined s p in ground arith
shut_down-ok Ending.waiting p e = cc
shut_down-ok (Ending.endless s) p e = cc

operate-ok :
    (lines : List Line) (prompt : Prompt) (p : Process) (up : Call (ℤ × Snes)) {r : ℤ × Process}
    → operate lines prompt p up ≡ some (ok r)
    → ⊥
unfolding operate
operate-ok lines prompt p none e = cc
operate-ok lines prompt p (some (err f)) e = cc
operate-ok lines prompt p (some (ok (code, s))) e =
    shut_down-ok (handle_user_input lines prompt s) p e

module _ (g : Grants) (raw : Garbage) (cpu_code apu_code : ℤ) (lines : List Line)
    (prompt : Prompt) where
  with_console-fails :
      (made : Result (Option Snes × Process)) {code : ℤ} {q : Process}
      → with_console g raw cpu_code apu_code lines prompt made ≡ some (ok (code, q))
      → code ≡ ℤ.negsuc 0
  unfolding with_console
  with_console-fails (err f) e = cc
  with_console-fails (ok (none, p)) e = ground arith
  with_console-fails (ok (some s, p)) e =
      absurd (operate-ok lines prompt p (power_up cpu_code apu_code s) e)

  with_cart-fails :
      (made : Result (Option Cart.Cart × Process)) {code : ℤ} {q : Process}
      → with_cart g raw cpu_code apu_code lines prompt made ≡ some (ok (code, q))
      → code ≡ ℤ.negsuc 0
  unfolding with_cart
  with_cart-fails (err f) e = cc
  with_cart-fails (ok (none, p)) e = cc
  with_cart-fails (ok (some cart, p)) e = with_console-fails (Console.init g raw cart p) e

-- However the requests are granted, the threads are created and the user types, the program never
-- exits with 0: it exits with -1 for want of a cartridge or a console, or it ends in a fault, as in
-- the joining of a thread twice when the console is destroyed, or it does not end.
pub main-fails :
    (g : Grants) (raw : Garbage) (cpu_code apu_code : ℤ) (lines : List Line) (prompt : Prompt)
    (p : Process) {code : ℤ} {q : Process}
    → main g raw cpu_code apu_code lines prompt p ≡ some (ok (code, q))
    → code ≡ ℤ.negsuc 0
unfolding main
main-fails g raw cpu_code apu_code lines prompt p e =
    with_cart-fails g raw cpu_code apu_code lines prompt (Cart.power_up g p) e
