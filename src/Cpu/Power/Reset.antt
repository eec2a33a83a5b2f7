-- ===== src/Cpu/Power/Reset.antt =====
-- The state of a processor that has been initialised.
use snesemu.Base.{
  ℕ, ◌+◌, ◌≡◌, refl, ap, ◌∙◌, ◌<◌, ◌⊎◌, inl, inr, true, u16, u32, none, some, ok, arith,
}
use snesemu.System.{Process, release, Grants}
use snesemu.System.Acquires.{Acquires, more, malloc-Acquires}
use snesemu.Parts.{registers_init, registers_destroy, stack_init}
use snesemu.Rom
use snesemu.Registers
use snesemu.Registers.{
  Registers, RegisterLength, power_on, emulation_set, status_flag_reset, switch_by_flags,
  switch_reg_len, switch_mem_len, program_counter_set, program_bank_get,
}
use snesemu.Bus
use snesemu.Bus.{Bus}
use snesemu.Machine.{Machine}
use snesemu.Cpu.Fetch.{update_next_instruction}
use snesemu.Cpu.Fetch.Advance.{
  advanced, operand_length, fetched, little_endian, update_next_instruction_lem,
}
use snesemu.Cpu.Thread.{Cpu}
use snesemu.Cpu.Power.{init, at_reset, ready}

-- In emulation mode, with narrow registers, no flag set and the stack in page 1.
pub record IsCleared (r : Registers) : Type 0 where
  pub emulation : r.emulation ≡ true
  pub status : r.status ≡ 0
  pub stack_pointer : r.stack_pointer.value16 ≡ 0x0100
  pub accumulator : r.accumulator.len ≡ RegisterLength.bit8
  pub x : r.x.len ≡ RegisterLength.bit8
  pub y : r.y.len ≡ RegisterLength.bit8

power_on-IsCleared : IsCleared power_on
unfolding power_on emulation_set status_flag_reset switch_by_flags switch_reg_len switch_mem_len
power_on-IsCleared = record {
  emulation = refl;
  status = refl;
  stack_pointer = refl;
  accumulator = refl;
  x = refl;
  y = refl;
}

program_bank_get-at_reset : (bus : Bus) → program_bank_get (at_reset power_on bus).registers ≡ 0
unfolding power_on emulation_set status_flag_reset switch_by_flags switch_reg_len switch_mem_len
    at_reset program_counter_set
program_bank_get-at_reset bus = refl

-- The processor that has fetched `word` and its operand at the reset vector.
module _ (bus : Bus) (word : ℕ) (byte : ℕ → ℕ) where
  abbrev pub reset_machine : Machine
  reset_machine = at_reset power_on bus

  reset_fetch :
      let v = (Rom.get_emu_interrupt_vectors bus.rom).reset in
      v < 65536
      → Bus.read bus v ≡ ok word
      → ((k : ℕ)
          → k < operand_length reset_machine word
          → Bus.read bus (u16 (v + 1 + k)) ≡ ok (byte k))
      → update_next_instruction reset_machine
        ≡ ok (
          fetched reset_machine word (u32 (little_endian (operand_length reset_machine word) byte)),
          advanced reset_machine (1 + operand_length reset_machine word),
        )
  unfolding at_reset program_counter_set
  reset_fetch bound opcode reads =
      (update_next_instruction_lem reset_machine byte bound
        (ap (λ b. Bus.read bus ((Rom.get_emu_interrupt_vectors bus.rom).reset + b))
            (program_bank_get-at_reset bus)
          ∙ ap (λ a. Bus.read bus a) (omega arith)
          ∙ opcode)
        reads).0

  abbrev pub reset_cpu : Cpu
  reset_cpu = ready (
    fetched reset_machine word (u32 (little_endian (operand_length reset_machine word) byte)),
    advanced reset_machine (1 + operand_length reset_machine word),
  )

-- A processor that is initialised, when the bytes of the instruction at the reset vector of the
-- emulation mode can be read: it gives back what it has asked for if a request is refused, and else
-- keeps three blocks and has the registers of a power-up, in emulation mode with narrow registers, no
-- flag set and the stack at 0x0100, but for the program counter, which is past that instruction; the
-- instruction is fetched, and no mode is set.
pub init-reset :
    (g : Grants) (bus : Bus) (p : Process) {word : ℕ} (byte : ℕ → ℕ)
    → let v = (Rom.get_emu_interrupt_vectors bus.rom).reset in
      v < 65536
      → Bus.read bus v ≡ ok word
      → ((k : ℕ)
          → k < operand_length (reset_machine bus word byte) word
          → Bus.read bus (u16 (v + 1 + k)) ≡ ok (byte k))
      → IsCleared power_on
        × (n : ℕ) × ((init g bus p ≡ ok (none, more 0 0 0 p n))
            ⊎ (init g bus p ≡ ok (some (reset_cpu bus word byte), more 3 0 0 p n)))
unfolding init registers_init stack_init registers_destroy release Registers.init
init-reset g bus p {word} byte bound opcode reads =
    let ended : (n : ℕ) × ((init g bus p ≡ ok (none, more 0 0 0 p n))
          ⊎ (init g bus p ≡ ok (some (reset_cpu bus word byte), more 3 0 0 p n))) =
      elim (malloc-Acquires g p) [
        | Acquires.refused n e ↦ (n, inl (rw e refl))
        | Acquires.obtained self n e ↦ elim (malloc-Acquires g (more 1 0 0 p n)) [
          | Acquires.refused n1 e1 ↦ (n1, inl (rw e (rw e1 refl)))
          | Acquires.obtained registers n1 e1 ↦ elim (malloc-Acquires g (more 2 0 0 p n1)) [
            | Acquires.refused n2 e2 ↦ (n2, inl (rw e (rw e1 (rw e2 refl))))
            | Acquires.obtained stack n2 e2 ↦ (
              n2,
              inr (rw e (rw e1 (rw e2 (rw (reset_fetch bus word byte bound opcode reads) refl)))),
            )
          ]
        ]
      ] in
    (power_on-IsCleared, ended.0, ended.1)
