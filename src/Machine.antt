-- ===== src/Machine.antt =====
-- The state that the code of the processor shares through pointers, and actions on it.
-- `snes_cpu.c`, `snes_cpu_stack.c` and `snes_cpu_mne.c` hold pointers to one set of registers and
-- one bus.
pub mod Keeps
use snesemu.Base.{ℕ, Result, ok, err, and_then}
use snesemu.Registers.{Registers}
use snesemu.Bus
use snesemu.Bus.{Bus}

pub record Machine : Type 0 where
  pub registers : Registers
  pub bus : Bus

-- An action may end in a fault; what it has changed by then is not observed.
abbrev pub M : Type 0 → Type 0
M A = Machine → Result (A × Machine)

abbrev pub pure : {A : Type 0} → A → M A
pure a m = ok (a, m)

module _ {A B : Type 0} where
  abbrev pub continue : Result (A × Machine) → (A → M B) → Result (B × Machine)
  continue (ok (a, m)) f = f a m
  continue (err e) f = err e

  infixl 5 ◌>>=◌ ◌>>◌
  abbrev pub ◌>>=◌ : M A → (A → M B) → M B
  ◌>>=◌ c f m = continue (c m) f

  abbrev pub ◌>>◌ : M A → M B → M B
  ◌>>◌ c d m = continue (c m) λ _. d

abbrev pub registers : M Registers
registers m = ok (m.registers, m)

abbrev pub modify : (Registers → Registers) → M (Unit {0})
modify f m = ok (tt, record m { registers = f m.registers })

-- What only reads the machine.
abbrev pub inspect : {A : Type 0} → (Machine → Result A) → M A
inspect f m = and_then (f m) λ a. ok (a, m)

abbrev pub bus_read : ℕ → M ℕ
bus_read addr = inspect λ m. Bus.read m.bus addr

abbrev pub bus_write : ℕ → ℕ → M (Unit {0})
bus_write addr v m = and_then (Bus.write m.bus addr v) λ bus. ok (tt, record m { bus = bus })
