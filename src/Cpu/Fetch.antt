-- ===== src/Cpu/Fetch.antt =====
-- The instruction cycle of src/snes_cpu.c: fetching an instruction and executing it.
pub mod Advance
use snesemu.Base.{ℕ, zero, suc, ◌+◌, ◌*◌, ◌%◌, ◌^◌, u32, ◌<<<◌, Result}
use snesemu.Registers.{Registers, program_bank_get, program_counter_inc}
use snesemu.Machine.{Machine, M, pure, ◌>>=◌, ◌>>◌, registers, modify, inspect, bus_read}
use snesemu.Cpu.Defs.{Mnemonic, AddressingMode, EffectiveAddress}
use snesemu.Cpu.Opcodes.{Opcode, ops, get_opcode_size}
use snesemu.Cpu.AddressingMode.{decode}
use snesemu.Cpu.Execute.{execute}

pub record Instruction : Type 0 where
  pub word : ℕ
  pub opcode : Opcode
  pub operand_size : ℕ
  pub operand : ℕ

-- The loop over the bytes of the operand, with `left` bytes to go. They are read at the program
-- counter without the program bank.
unfoldable pub fetch_operand : ℕ → ℕ → ℕ → M ℕ
fetch_operand zero i operand = pure operand
fetch_operand (suc left) i operand = do
  r ← registers
  byte ← bus_read r.pc
  modify program_counter_inc
  fetch_operand left (i + 1) (u32 (operand + (byte <<< (i * 8))))

unfoldable pub update_next_instruction : M Instruction
update_next_instruction = do
  r ← registers
  word ← bus_read (r.pc + program_bank_get r)
  modify program_counter_inc
  s ← registers
  let opcode = ops word
  let operand_size = get_opcode_size s opcode
  operand ← fetch_operand operand_size 0 0
  pure (record { word = word; opcode = opcode; operand_size = operand_size; operand = operand })

-- `raw` is what the local of the address decoder holds before it is assigned.
unfoldable pub execute_instruction : EffectiveAddress → Instruction → M (Unit {0})
execute_instruction raw instruction = do
  eff_addr ← inspect (λ m.
      decode raw m.bus m.registers instruction.opcode.mne instruction.opcode.addr
        instruction.operand)
  execute instruction.opcode.mne eff_addr
