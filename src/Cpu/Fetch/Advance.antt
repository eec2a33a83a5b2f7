-- ===== src/Cpu/Fetch/Advance.antt =====
-- The fetch of an instruction advances the program counter past it.
use snesemu.Base.{ℕ, zero, suc, ◌+◌, ◌*◌, ◌^◌, ◌<◌, ◌≤◌, ◌≡◌, ap, ◌∙◌, u16, u32, ok, Result, arith}
use native.Mathlib.Nat.{pow-suc}
use snesemu.Registers.{program_bank_get, program_counter_inc}
use snesemu.Bus
use snesemu.Machine.{Machine}
use snesemu.Cpu.Opcodes.{ops, get_opcode_size}
use snesemu.Cpu.Opcodes.Sizes.{get_opcode_size-le}
use snesemu.Cpu.Fetch.{Instruction, fetch_operand, update_next_instruction}

-- The machine with the program counter moved past `n` bytes.
abbrev pub advanced : Machine → ℕ → Machine
advanced m n = record m { registers = record m.registers { pc = u16 (m.registers.pc + n) } }

-- The number that `n` bytes are, the first the lowest.
unfoldable pub little_endian : ℕ → (ℕ → ℕ) → ℕ
little_endian zero byte = 0
little_endian (suc n) byte = byte 0 + 256 * little_endian n (λ k. byte (suc k))

shifted_sum :
    (operand p q b l : ℕ)
    → q ≡ p * 256
    → u32 (u32 (operand + b * p) + q * l) ≡ u32 (operand + p * (b + 256 * l))
shifted_sum operand p q b l e = rw e (omega arith)

pow_next : (i : ℕ) → 2 ^ ((i + 1) * 8) ≡ 2 ^ (i * 8) * 256
pow_next i = ap (λ k. 2 ^ k) eight ∙ simp pow-suc (omega arith)
  where
    eight : (i + 1) * 8 ≡ suc (suc (suc (suc (suc (suc (suc (suc (i * 8))))))))
    eight = omega arith

fetch_operand_lem :
    (left i operand : ℕ) (byte : ℕ → ℕ) {m : Machine}
    → m.registers.pc < 65536
    → operand < 4294967296
    → ((k : ℕ) → k < left → Bus.read m.bus (u16 (m.registers.pc + k)) ≡ ok (byte k))
    → fetch_operand left i operand m
      ≡ ok (u32 (operand + 2 ^ (i * 8) * little_endian left byte), advanced m left)
unfolding fetch_operand little_endian program_counter_inc
fetch_operand_lem zero i operand byte {m} h o reads =
    ap (λ v. ok (v, m)) (omega arith)
    ∙ ap
        (λ c.
          ok (
            u32 (operand + 2 ^ (i * 8) * 0),
            record m { registers = record m.registers { pc = c } },
          ))
        (omega arith)
fetch_operand_lem (suc left) i operand byte {m} h o reads = rw first (
    fetch_operand_lem left (i + 1) (u32 (operand + byte 0 * 2 ^ (i * 8))) (λ k. byte (suc k))
      {m = record m { registers = program_counter_inc m.registers }} (omega arith) (omega arith)
      later
    ∙ ap (λ v. ok (v, advanced (record m { registers = program_counter_inc m.registers }) left))
        (shifted_sum operand (2 ^ (i * 8)) (2 ^ ((i + 1) * 8)) (byte 0)
          (little_endian left (λ k. byte (suc k))) (pow_next i))
    ∙ ap
        (λ c. ok (
          u32 (operand + 2 ^ (i * 8) * little_endian (suc left) byte),
          record m { registers = record m.registers { pc = c } },
        ))
        (omega arith))
  where
    first : Bus.read m.bus m.registers.pc ≡ ok (byte 0)
    first = ap (λ a. Bus.read m.bus a) (omega arith) ∙ reads 0 (omega arith)

    later :
        (k : ℕ) → k < left → Bus.read m.bus (u16 (u16 (m.registers.pc + 1) + k)) ≡ ok (byte (suc k))
    later k l = ap (λ a. Bus.read m.bus a) (omega arith) ∙ reads (suc k) (omega arith)

module _ (m : Machine) (word : ℕ) where
  -- The length is asked for with the registers after the opcode has been read.
  abbrev pub operand_length : ℕ
  operand_length = get_opcode_size (advanced m 1).registers (ops word)

  abbrev pub fetched : ℕ → Instruction
  fetched operand = record {
    word = word;
    opcode = ops word;
    operand_size = operand_length;
    operand = operand;
  }

-- A fetch, when the byte at the program counter in the program bank can be read, and as many bytes
-- after the program counter in bank 0 as `get_opcode_size` says, at most three: the instruction is
-- the table's entry of the first byte, and its operand is the little-endian number that those bytes
-- of bank 0 are, whatever the program bank is; they follow the opcode in memory only where bank 0
-- reads the same, as in program bank 0. Nothing changes but the program counter, which moves past
-- the instruction modulo 65536.
pub update_next_instruction_lem :
    (m : Machine) {word : ℕ} (byte : ℕ → ℕ)
    → m.registers.pc < 65536
    → Bus.read m.bus (m.registers.pc + program_bank_get m.registers) ≡ ok word
    → ((k : ℕ)
        → k < operand_length m word
        → Bus.read m.bus (u16 (m.registers.pc + 1 + k)) ≡ ok (byte k))
    → (update_next_instruction m
        ≡ ok (
          fetched m word (u32 (little_endian (operand_length m word) byte)),
          advanced m (1 + operand_length m word),
        ))
      × (operand_length m word ≤ 3)
unfolding update_next_instruction program_counter_inc
update_next_instruction_lem m {word} byte h opcode reads =
    (rw opcode (rw operand_read sums), get_opcode_size-le (advanced m 1).registers (ops word))
  where
    operand_read :
        fetch_operand (operand_length m word) 0 0 (advanced m 1)
        ≡ ok (
          u32 (0 + 2 ^ (0 * 8) * little_endian (operand_length m word) byte),
          advanced (advanced m 1) (operand_length m word),
        )
    operand_read =
        fetch_operand_lem (operand_length m word) 0 0 byte (omega arith) (omega arith)
          (λ k l. ap (λ a. Bus.read m.bus a) (omega arith) ∙ reads k l)

    outcome : ℕ → ℕ → Result (Instruction × Machine)
    outcome v c = ok (fetched m word v, record m { registers = record m.registers { pc = c } })

    sums :
        outcome
          (u32 (0 + 2 ^ (0 * 8) * little_endian (operand_length m word) byte))
          (u16 (u16 (m.registers.pc + 1) + operand_length m word))
        ≡ outcome
            (u32 (little_endian (operand_length m word) byte))
            (u16 (m.registers.pc + (1 + operand_length m word)))
    sums =
        ap (λ v. outcome v (u16 (u16 (m.registers.pc + 1) + operand_length m word))) (omega arith)
        ∙ ap (λ c. outcome (u32 (little_endian (operand_length m word) byte)) c) (omega arith)
