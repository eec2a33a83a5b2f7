-- ===== src/Examples/Control.antt =====
-- Runs of the stack, of calls and branches, and of a fetch.
use snesemu.Base.{
  ℕ, ◌+◌, ◌≡◌, ◌<◌, ◌≤◌, refl, true, [], ◌∷◌, ok, some, arith, u16, if◌then◌else◌, ◌==◌, zero, suc,
}
use snesemu.Base.Bits.{testbit}
use snesemu.Rom
use snesemu.AddressDecoder.{decode, decode_parts, decode_system, trans_rom_addr}
use snesemu.Registers.{accumulator_set, status_flag_force, status_flag_isset, program_bank_get}
use snesemu.Registers.Flags.{flag}
use snesemu.Bus
use snesemu.Machine.{Machine}
use snesemu.Cpu.Defs.{Mnemonic, AddressingMode}
use snesemu.Cpu.Stack.Laws.{HasStack, at_sp, push_all, pull_all, pull_all-push_all}
use snesemu.Cpu.Execute.Control.{execute_jsr, execute_rts, execute_rtl}
use snesemu.Cpu.Execute.Control.Calls.{called, rts-jsr, rtl-jsr}
use snesemu.Cpu.Execute.Control.Branches.{branch_condition, execute_instruction-branch}
use snesemu.Cpu.Execute.PushPull.{execute_pha, execute_pla, execute_php, execute_plp}
use snesemu.Cpu.Execute.PushPull.RoundTrips.{PointsTo, pla-pha_word, plp-php}
use snesemu.Cpu.Opcodes.{ops, get_opcode_size, mode_size, immediate_size}
use snesemu.Cpu.Fetch.{Instruction, update_next_instruction, execute_instruction}
use snesemu.Cpu.Fetch.Advance.{
  advanced, fetched, little_endian, operand_length, update_next_instruction_lem,
}
use snesemu.Examples.{narrow, wide, bus, narrow_machine, wide_machine, simple}

stack_ready : HasStack wide_machine 0x1fff
stack_ready = record { pointer = refl; low = omega arith; fits = omega arith }

pull_all-push_all_example :
    (m' : Machine) × (push_all (1 ∷ 2 ∷ 0x103 ∷ []) wide_machine ≡ ok (tt, m'))
    × (m'.registers ≡ at_sp wide 0x1ffc)
    × (m'.bus.wram.cells 0x2000 ≡ 0)
    × (pull_all 3 m' ≡ ok (3 ∷ 2 ∷ 1 ∷ [], record m' { registers = at_sp wide 0x1fff }))
pull_all-push_all_example =
    pull_all-push_all (1 ∷ 2 ∷ 0x103 ∷ []) stack_ready (omega arith) 0x2000 (omega arith)

rts-jsr_example :
    (execute_jsr (simple 0x9000) wide_machine ≡ ok (tt, called wide_machine 0x1ffd 0x9000))
    × (execute_rts
          (simple 0)
          (record (called wide_machine 0x1ffd 0x9000) { registers = at_sp narrow 0x1ffd })
        ≡ ok (
          tt,
          record (called wide_machine 0x1ffd 0x9000) {
            registers = record (at_sp narrow 0x1fff) { pc = 0x8000 };
          },
        ))
rts-jsr_example =
    rts-jsr stack_ready (omega arith) (simple 0x9000) (simple 0) (at_sp narrow 0x1ffd) refl

-- The pointer at 0x0200, above which the counting memory has 1.
abbrev deep_machine : Machine
deep_machine = record wide_machine { registers = at_sp wide 0x0200 }

deep_stack : HasStack deep_machine 0x0200
deep_stack = record { pointer = refl; low = omega arith; fits = omega arith }

rtl-jsr_example :
    ((ops 0x22).mne ≡ Mnemonic.jsr)
    × ((ops 0x22).addr ≡ AddressingMode.absolute_long)
    × (execute_jsr (simple 0x029000) deep_machine ≡ ok (tt, called deep_machine 0x01fe 0x029000))
    × (execute_rtl
          (simple 0)
          (record (called deep_machine 0x01fe 0x029000) { registers = at_sp narrow 0x01fe })
        ≡ ok (
          tt,
          record (called deep_machine 0x01fe 0x029000) {
            registers = record (at_sp narrow 0x0201) { pc = 0x8000; program_bank = 1 };
          },
        ))
rtl-jsr_example =
    rtl-jsr deep_stack (omega arith) (omega arith) (simple 0x029000) (simple 0)
      (at_sp narrow 0x01fe) refl

pla-pha_word_example :
    (m' : Machine) × (execute_pha (simple 0) wide_machine ≡ ok (tt, m'))
    × PointsTo m'.registers 0x1ffd
    × (execute_pla (simple 0) (record m' { registers = at_sp wide 0x1ffd })
        ≡ ok (tt, record m' { registers = accumulator_set (at_sp wide 0x1fff) 0x1250 }))
pla-pha_word_example =
    pla-pha_word stack_ready refl (omega arith) (simple 0) (simple 0) (at_sp wide 0x1ffd) refl refl

plp-php_example :
    (m' : Machine) × (execute_php (simple 0) wide_machine ≡ ok (tt, m'))
    × PointsTo m'.registers 0x1ffe
    × (execute_plp (simple 0) (record m' { registers = at_sp narrow 0x1ffe })
        ≡ ok (tt, record m' { registers = status_flag_force (at_sp narrow 0x1fff) 1 }))
plp-php_example = plp-php stack_ready (omega arith) (simple 0) (simple 0) (at_sp narrow 0x1ffe) refl

-- BNE two bytes back.
abbrev bne_back : Instruction
bne_back = record {
  word = 0xd0;
  opcode = record {
    mne = Mnemonic.bne;
    addr = AddressingMode.program_counter_relative;
    cycles = 2;
  };
  operand_size = 1;
  operand = 0xfe;
}

taken : branch_condition Mnemonic.bne 0x30 ≡ some true
unfolding branch_condition flag testbit
taken = refl

execute_instruction-branch_example :
    execute_instruction (simple 0) bne_back narrow_machine
    ≡ ok (tt, record narrow_machine { registers = record narrow { pc = 0x7ffe } })
execute_instruction-branch_example =
    execute_instruction-branch (simple 0) bne_back narrow_machine (omega arith) (omega arith) refl
      taken

-- An image of two blocks of 32 KB, and a machine in program bank 1, where the second begins with an
-- ADC of its own that zeros follow.
abbrev far_machine : Machine
far_machine = record {
  registers = record wide { program_bank = 1 };
  bus = record bus {
    rom = record bus.rom {
      usefullrom = λ i. if i == 0x8000 then 0x69 else bus.rom.usefullrom i;
      usefull_size = 0x10000;
      usefull_mapped = 0x10000;
    };
  };
}

opcode_read : Bus.read far_machine.bus (0x8000 + program_bank_get far_machine.registers) ≡ ok 0x69
unfolding Bus.read Bus.read_device decode decode_parts decode_system Rom.read trans_rom_addr
opcode_read = refl

first_byte : Bus.read far_machine.bus 0x8001 ≡ ok 0x50
unfolding Bus.read Bus.read_device decode decode_parts decode_system Rom.read trans_rom_addr
first_byte = refl

second_byte : Bus.read far_machine.bus 0x8002 ≡ ok 3
unfolding Bus.read Bus.read_device decode decode_parts decode_system Rom.read trans_rom_addr
second_byte = refl

-- What follows the opcode in its own bank.
bytes_behind :
    (Bus.read far_machine.bus 0x018001 ≡ ok 0) × (Bus.read far_machine.bus 0x018002 ≡ ok 0)
unfolding Bus.read Bus.read_device decode decode_parts decode_system Rom.read trans_rom_addr
bytes_behind = (refl, refl)

two_bytes : operand_length far_machine 0x69 ≡ 2
unfolding get_opcode_size mode_size immediate_size ops status_flag_isset
two_bytes = refl

operand_reads :
    (k : ℕ)
    → k < operand_length far_machine 0x69
    → Bus.read far_machine.bus (u16 (0x8001 + k)) ≡ ok (if k == 0 then 0x50 else 3)
operand_reads zero l = first_byte
operand_reads (suc zero) l = second_byte
operand_reads (suc (suc k)) l = absurd (omega (arith, two_bytes))

update_next_instruction_lem_example :
    (update_next_instruction far_machine
      ≡ ok (fetched far_machine 0x69 0x350, advanced far_machine 3))
    × (operand_length far_machine 0x69 ≤ 3)
unfolding get_opcode_size mode_size immediate_size ops status_flag_isset little_endian
update_next_instruction_lem_example =
    update_next_instruction_lem far_machine (λ k. if k == 0 then 0x50 else 3) (omega arith)
      opcode_read operand_reads
