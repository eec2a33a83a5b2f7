-- ===== src/Cpu/Power.antt =====
-- `snes_cpu_init` and `snes_cpu_destroy` of src/snes_cpu.c.
pub mod Reset
use snesemu.Base.{ℕ, zero, suc, List, [], ◌∷◌, Option, none, some, Result, ok}
use snesemu.System.{Act, ◌>>=◌, ◌>>◌, pure, lift, Grants, malloc, free, attempt}
use snesemu.Parts.{registers_init, registers_destroy, stack_init, stack_destroy}
use snesemu.Rom
use snesemu.Rom.{Rom}
use snesemu.Registers.{Registers, program_counter_set}
use snesemu.Bus.{Bus}
use snesemu.Machine.{Machine}
use snesemu.Cpu.Fetch.{Instruction, update_next_instruction}
use snesemu.Cpu.Thread.{Cpu, ExecutionMode}

-- Slots that are zero, as `memset` leaves them.
unfoldable pub free_slots : ℕ → List ℕ
free_slots zero = []
free_slots (suc n) = 0 ∷ free_slots n

abbrev pub max_breakpoints : ℕ
max_breakpoints = 512

-- The registers with the program counter at the reset vector of the emulation mode.
unfoldable pub at_reset : Registers → Bus → Machine
at_reset registers bus = record {
  registers = program_counter_set registers (Rom.get_emu_interrupt_vectors bus.rom).reset;
  bus = bus;
}

unfoldable pub ready : Instruction × Machine → Cpu
unfolding free_slots
ready (instruction, machine) = record {
  machine = machine;
  current_instruction = instruction;
  breakpoints = free_slots max_breakpoints;
  exec_mode = ExecutionMode.unknown;
}

unfoldable pub init : Grants → Bus → Act (Option Cpu)
init g bus = attempt (malloc g) (pure tt) λ self. attempt (registers_init g) free λ registers.
    attempt (stack_init g) (registers_destroy >> free) λ stack.
      lift (update_next_instruction (at_reset registers bus)) >>= λ fetched.
      pure (some (ready fetched))

unfoldable pub destroy : Act (Unit {0})
destroy = registers_destroy >> stack_destroy >> free
