-- ===== src/Cpu/Stack.antt =====
-- src/snes_cpu_stack.c: a stack of bytes in bank 0 that grows downwards.
pub mod Laws
pub mod Words
use snesemu.Base.{ℕ, ◌+◌, ◌-◌, ◌%◌, u16, sub16}
use snesemu.Registers.{stack_pointer_set}
use snesemu.Machine.{M, ◌>>=◌, ◌>>◌, registers, modify, bus_read, bus_write}

unfoldable pub push : ℕ → M (Unit {0})
push value = do
  r ← registers
  bus_write r.stack_pointer.value16 value
  modify (λ s. stack_pointer_set s (sub16 r.stack_pointer.value16 1))

-- The pointer wraps at 16 bits, and the address that is read does not.
unfoldable pub pull : M ℕ
pull = do
  r ← registers
  modify (λ s. stack_pointer_set s (u16 (r.stack_pointer.value16 + 1)))
  bus_read (r.stack_pointer.value16 + 1)
