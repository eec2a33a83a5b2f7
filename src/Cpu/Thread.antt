-- ===== src/Cpu/Thread.antt =====
-- `snes_cpu_execute` of src/snes_cpu.c, the thread of the processor, and the calls by which the other
-- threads steer it. Its traces are left out.
pub mod Modes
pub mod Devices
use snesemu.Base.{
  ℕ, ◌≡◌, Bool, true, false, ◌&&◌, if◌then◌else◌, Option, none, some, List, Result, ok, and_then,
}
use snesemu.Rom
use snesemu.Registers.{Registers, program_counter_set}
use snesemu.Machine.{Machine, M, ◌>>◌}
use snesemu.Cpu.Defs.{EffectiveAddress}
use snesemu.Cpu.Fetch.{Instruction, execute_instruction, update_next_instruction}
use snesemu.Cpu.Breakpoints.{is_breakpoint, set_breakpoint}

pub data ExecutionMode : Type 0 where
  stop step run unknown : ExecutionMode

pub record Cpu : Type 0 where
  pub machine : Machine
  pub current_instruction : Instruction
  pub breakpoints : List ℕ
  pub exec_mode : ExecutionMode

-- Where the thread is: at the top of its loop, after the test of `should_continue`, or at the end.
pub data Place : Type 0 where
  top body ended : Place

-- The thread with its locals; `locked` when it keeps the mutex from one step to the next.
pub record Thread : Type 0 where
  pub cpu : Cpu
  pub place : Place
  pub should_continue : Bool
  pub run : Bool
  pub locked : Bool

abbrev pub with_mode : Thread → ExecutionMode → Thread
with_mode t mode = record t { cpu = record t.cpu { exec_mode = mode } }

-- What is done under the mutex. With UNKNOWN the thread waits for the condition, and the mutex is
-- free; STOP leaves by `goto` with the mutex held.
unfoldable pub receive : ExecutionMode → Thread → Thread
receive ExecutionMode.run t = record (with_mode t ExecutionMode.unknown) {
  place = Place.body;
  should_continue = true;
  run = true;
}
receive ExecutionMode.step t = record (with_mode t ExecutionMode.unknown) {
  place = Place.body;
  should_continue = false;
  run = false;
}
receive ExecutionMode.stop t = record t { place = Place.ended; locked = true }
receive ExecutionMode.unknown t = t

-- One instruction, and the fetch of the next. `raw` is an indeterminate local of the address decoder.
unfoldable pub execute_next : EffectiveAddress → Cpu → Result Cpu
execute_next raw cpu =
    and_then
      ((execute_instruction raw cpu.current_instruction >> update_next_instruction) cpu.machine)
      λ (instruction, machine).
        ok (record cpu { machine = machine; current_instruction = instruction })

abbrev pub is_stop : ExecutionMode → Bool
is_stop ExecutionMode.stop = true
is_stop _ = false

abbrev pub at_breakpoint : Cpu → Bool
at_breakpoint cpu =
    is_breakpoint cpu.breakpoints cpu.machine.registers cpu.current_instruction.operand_size

-- The rest of a round.
unfoldable pub run_body : EffectiveAddress → Thread → Result Thread
run_body raw t =
    if is_stop t.cpu.exec_mode
    then ok (record t { place = Place.ended })
    else if t.run && at_breakpoint t.cpu
    then ok (record t { place = Place.top; should_continue = false })
    else (and_then (execute_next raw t.cpu) λ cpu. ok (record t { cpu = cpu; place = Place.top }))

unfoldable pub run_place : EffectiveAddress → Place → Thread → Result Thread
run_place raw Place.top t =
    ok (if t.should_continue then record t { place = Place.body } else receive t.cpu.exec_mode t)
run_place raw Place.body t = run_body raw t
run_place raw Place.ended t = ok t

unfoldable pub advance : EffectiveAddress → Thread → Result Thread
unfolding run_place
advance raw t = run_place raw t.place t

-- `snes_cpu_set_execution_mode` waits for the mutex, for ever if the thread has kept it: `none`.
unfoldable pub set_execution_mode : ExecutionMode → Thread → Option Thread
set_execution_mode mode t = if t.locked then none else some (with_mode t mode)

-- `snes_cpu_nmi`: the program counter is set, and nothing is pushed.
unfoldable pub nmi : Machine → Machine
nmi m = record m {
  registers = program_counter_set m.registers (Rom.get_nat_interrupt_vectors m.bus.rom).nmi;
}
