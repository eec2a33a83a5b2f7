-- ===== src/Cpu/Execute/Control/Branches.antt =====
-- The branches, from their operand to the program counter.
use snesemu.Base.{
  ℕ, ◌+◌, ◌<◌, ◌≡◌, ap, ◌∙◌, Bool, true, false, not, Option, none, some, u8, u16, u32, leb, ◌<<<◌,
  if◌then◌else◌, ok, arith,
}
use snesemu.Registers.{program_counter_set}
use snesemu.Registers.Flags.{flag, isset_laws}
use snesemu.Machine.{Machine}
use snesemu.Cpu.Defs.{Mnemonic, AddressingMode, EffectiveAddress}
use snesemu.Cpu.AddressingMode.{decode, resolve_program_counter_relative}
use snesemu.Cpu.Execute.{execute}
use snesemu.Cpu.Fetch.{Instruction, execute_instruction}
use snesemu.Cpu.Execute.Control.{
  branch_if, execute_bcc, execute_bcs, execute_beq, execute_bmi, execute_bne, execute_blp,
  execute_bra, execute_bvc, execute_bvs,
}

-- When a branch is taken, by the status; `none` for the other mnemonics.
unfoldable pub branch_condition : Mnemonic → ℕ → Option Bool
branch_condition Mnemonic.bcc s = some (not (flag 0 s))
branch_condition Mnemonic.bcs s = some (flag 0 s)
branch_condition Mnemonic.bne s = some (not (flag 1 s))
branch_condition Mnemonic.beq s = some (flag 1 s)
branch_condition Mnemonic.bvc s = some (not (flag 6 s))
branch_condition Mnemonic.bvs s = some (flag 6 s)
branch_condition Mnemonic.blp s = some (not (flag 7 s))
branch_condition Mnemonic.bmi s = some (flag 7 s)
branch_condition Mnemonic.bra s = some true
branch_condition _ s = none

-- The program counter moved by a signed byte, modulo 65536.
abbrev pub displaced : ℕ → ℕ → ℕ
displaced pc operand =
    if leb 128 (u8 operand) then u16 (pc + 65280 + u8 operand) else u16 (pc + u8 operand)

branch_target :
    (pc bank operand : ℕ)
    → pc < 65536
    → bank < 256
    → u16 (
        u32 (
          pc
          + (bank <<< 16)
          + (if leb 0x80 (u8 operand) then u8 operand + 0xffffff00 else u8 operand)))
      ≡ displaced pc operand
branch_target pc bank operand hp hb = ground arith

execute-branch :
    (mne : Mnemonic) (eff : EffectiveAddress) (m : Machine) {taken : Bool}
    → branch_condition mne m.registers.status ≡ some taken
    → execute mne eff m
      ≡ ok (
        tt,
        record m {
          registers =
              if taken
              then program_counter_set m.registers (u16 eff.simple_address)
              else m.registers;
        },
      )
unfolding execute branch_condition branch_if execute_bcc execute_bcs execute_beq execute_bmi
    execute_bne execute_blp execute_bra execute_bvc execute_bvs
execute-branch Mnemonic.bcc eff m e = simp isset_laws (ground arith)
execute-branch Mnemonic.bcs eff m e = simp isset_laws (ground arith)
execute-branch Mnemonic.bne eff m e = simp isset_laws (ground arith)
execute-branch Mnemonic.beq eff m e = simp isset_laws (ground arith)
execute-branch Mnemonic.bvc eff m e = simp isset_laws (ground arith)
execute-branch Mnemonic.bvs eff m e = simp isset_laws (ground arith)
execute-branch Mnemonic.blp eff m e = simp isset_laws (ground arith)
execute-branch Mnemonic.bmi eff m e = simp isset_laws (ground arith)
execute-branch Mnemonic.bra eff m e = ground arith
execute-branch _ eff m e = ground arith

-- Every branch with a one-byte operand, for a program counter of 16 bits and a bank of 8: it is
-- executed without a fault and changes at most the program counter, which moves by the signed
-- operand modulo 65536 when the flag of the branch asks for it, and stays otherwise.
pub execute_instruction-branch :
    (raw : EffectiveAddress) (instruction : Instruction) (m : Machine) {taken : Bool}
    → m.registers.pc < 65536
    → m.registers.program_bank < 256
    → instruction.opcode.addr ≡ AddressingMode.program_counter_relative
    → branch_condition instruction.opcode.mne m.registers.status ≡ some taken
    → execute_instruction raw instruction m
      ≡ ok (
        tt,
        record m {
          registers = record m.registers {
            pc = if taken then displaced m.registers.pc instruction.operand else m.registers.pc;
          };
        },
      )
unfolding execute_instruction decode resolve_program_counter_relative program_counter_set
execute_instruction-branch raw instruction m {taken = true} hp hb mode cond = simp mode (
    execute-branch instruction.opcode.mne _ m cond
    ∙ ap (λ k. ok (tt, record m { registers = record m.registers { pc = k } }))
        (branch_target m.registers.pc m.registers.program_bank instruction.operand hp hb))
execute_instruction-branch raw instruction m {taken = false} hp hb mode cond =
    simp mode (execute-branch instruction.opcode.mne _ m cond)
