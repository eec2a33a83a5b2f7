-- ===== src/Examples/Modes.antt =====
-- Runs of the thread of the processor.
use snesemu.Base.{
  ℕ, zero, suc, ◌≡◌, refl, true, false, [], ◌∷◌, none, ok, arith, if◌then◌else◌, ◌<◌, ◌==◌,
}
use snesemu.Examples.Machines.{wide_machine, simple}
use snesemu.Registers.{program_counter_set, program_counter_inc, status_flag_isset}
use snesemu.Bus
use snesemu.Rom
use snesemu.AddressDecoder.{decode_parts, decode_system, trans_rom_addr}
use snesemu.AddressDecoder
use snesemu.Cpu.AddressingMode
use snesemu.Cpu.AddressingMode.{resolve_program_counter_relative}
use snesemu.Cpu.Execute.{execute}
use snesemu.Cpu.Execute.Control.{execute_bra}
use snesemu.Cpu.Breakpoints.{is_breakpoint, find_breakpoint, instruction_addr}
use snesemu.Cpu.Opcodes.{ops, get_opcode_size, mode_size, immediate_size}
use snesemu.Cpu.Fetch.{execute_instruction, update_next_instruction, fetch_operand}
use snesemu.Cpu.Thread.{Cpu, Place, ExecutionMode, execute_next, at_breakpoint, set_execution_mode}
use snesemu.Cpu.Thread.Devices.{SameDevices, advances-SameDevices}
use snesemu.Cpu.Thread.Modes.{advances, rounds, at_top, advances-step, rounds-run, advances-stop}

-- BRA with an offset of -2 has been fetched, at 0x8003 where the image has it.
abbrev pub branching : Cpu
branching = record {
  machine = record wide_machine { registers = record wide_machine.registers { pc = 0x8005 } };
  current_instruction = record { word = 0x80; opcode = ops 0x80; operand_size = 1; operand = 0xfe };
  breakpoints = 0 ∷ 0 ∷ [];
  exec_mode = ExecutionMode.unknown;
}

-- Executing it leads back to it.
branches : execute_next (simple 0) branching ≡ ok branching
unfolding execute_next execute_instruction AddressingMode.decode ops execute execute_bra
    update_next_instruction Bus.read Bus.read_device AddressDecoder.decode decode_parts
    decode_system Rom.read trans_rom_addr program_counter_set resolve_program_counter_relative
    fetch_operand get_opcode_size mode_size program_counter_inc
branches = refl

advances-step_example :
    advances 2 (simple 0) (at_top false true branching ExecutionMode.step)
    ≡ ok (at_top false false branching ExecutionMode.unknown)
advances-step_example = advances-step (simple 0) true branching branches

-- BRA to 0x8000, where there is a breakpoint.
abbrev to_start : Cpu
to_start = record branching {
  current_instruction = record { word = 0x80; opcode = ops 0x80; operand_size = 1; operand = 0xfb };
  breakpoints = 0x8000 ∷ 0 ∷ [];
}

-- ADC #0x0350 has been fetched at 0x8000.
abbrev at_start : Cpu
at_start = record to_start {
  machine = record wide_machine { registers = record wide_machine.registers { pc = 0x8003 } };
  current_instruction = record {
    word = 0x69;
    opcode = ops 0x69;
    operand_size = 2;
    operand = 0x0350;
  };
}

returns : execute_next (simple 0) to_start ≡ ok at_start
unfolding execute_next execute_instruction AddressingMode.decode ops execute execute_bra
    update_next_instruction Bus.read Bus.read_device AddressDecoder.decode decode_parts
    decode_system Rom.read trans_rom_addr program_counter_set resolve_program_counter_relative
    fetch_operand get_opcode_size mode_size program_counter_inc immediate_size status_flag_isset
returns = refl

-- The states of the run.
abbrev states : ℕ → Cpu
states k = if k == 0 then to_start else at_start

states-clear : (k : ℕ) → k < 1 → at_breakpoint (states k) ≡ false
unfolding is_breakpoint instruction_addr find_breakpoint
states-clear zero h = refl
states-clear (suc k) h = ground arith

states-next :
    (k : ℕ)
    → k < 1
    → execute_next (simple 0) (record (states k) { exec_mode = ExecutionMode.unknown })
      ≡ ok (states (suc k))
states-next zero h = returns
states-next (suc k) h = ground arith

states-reached : at_breakpoint (states 1) ≡ true
unfolding is_breakpoint instruction_addr find_breakpoint
states-reached = refl

rounds-run_example :
    rounds (suc 1) (simple 0) (at_top false false to_start ExecutionMode.run)
    ≡ ok (at_top false true at_start ExecutionMode.unknown)
rounds-run_example = rounds-run 1 (simple 0) states false states-clear states-next states-reached

-- STOP for a thread that waits.
advances-stop_example :
    (advances 5 (simple 0) (at_top false true branching ExecutionMode.stop)
      ≡ ok (record (at_top false true branching ExecutionMode.stop) {
        place = Place.ended;
        locked = true;
      }))
    × (advances 4
          (simple 0)
          (record (at_top false true branching ExecutionMode.stop) { place = Place.body })
        ≡ ok (record (at_top false true branching ExecutionMode.stop) { place = Place.ended }))
    × (set_execution_mode ExecutionMode.step
          (record (at_top false true branching ExecutionMode.stop) {
            place = Place.ended;
            locked = true;
          })
        ≡ none)
advances-stop_example = advances-stop (simple 0) 3 false true branching ExecutionMode.step

advances-SameDevices_example : SameDevices wide_machine.bus wide_machine.bus
advances-SameDevices_example =
    advances-SameDevices 2 (simple 0) (at_top false true branching ExecutionMode.step)
      (advances-step (simple 0) true branching branches)
