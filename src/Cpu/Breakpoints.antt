-- ===== src/Cpu/Breakpoints.antt =====
-- Breakpoints of src/snes_cpu.c: 512 slots, where 0 is a free one.
pub mod Slots
use snesemu.Base.{
  ℕ, ◌+◌, ◌-◌, ◌*◌, ◌%◌, ◌^◌, Bool, true, false, List, [], ◌∷◌, ◌==◌, ◌||◌, ◌<<<◌, sub32,
  if◌then◌else◌,
}
use snesemu.Registers.{Registers, program_bank_get}

-- The slots after the search for the first free one, and whether there was one (the return of 0).
unfoldable pub set_breakpoint : List ℕ → ℕ → List ℕ × Bool
set_breakpoint [] addr = ([], false)
set_breakpoint (b ∷ breakpoints) addr =
    let (rest, done) = set_breakpoint breakpoints addr in
    if b == 0 then (addr ∷ breakpoints, true) else (b ∷ rest, done)

unfoldable pub find_breakpoint : List ℕ → ℕ → Bool
find_breakpoint [] addr = false
find_breakpoint (b ∷ breakpoints) addr = addr == b || find_breakpoint breakpoints addr

-- The address of the instruction that was fetched last.
unfoldable pub instruction_addr : Registers → ℕ → ℕ
instruction_addr r operand_size = sub32 (r.pc + program_bank_get r) (operand_size + 1)

unfoldable pub is_breakpoint : List ℕ → Registers → ℕ → Bool
is_breakpoint breakpoints r operand_size =
    find_breakpoint breakpoints (instruction_addr r operand_size)
