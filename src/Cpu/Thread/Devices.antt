-- ===== src/Cpu/Thread/Devices.antt =====
-- What no instruction changes of the devices.
use snesemu.Base.{
  ℕ, zero, suc, Bool, true, false, ◌&&◌, if◌then◌else◌, ◌≡◌, refl, sym, ap, ◌∙◌, Result, ok, err,
  and_then, and_then-ok, arith,
}
use mathlib.Core.Path.{subst}
use snesemu.Ram
use snesemu.Apu.Port
use snesemu.AddressDecoder.{MemType, decode}
use snesemu.Bus
use snesemu.Bus.{Bus}
use snesemu.Machine.{◌>>◌}
use snesemu.Machine.Keeps.{Kept, Keeps, keeps, then-Keeps}
use snesemu.Cpu.Defs.{EffectiveAddress}
use snesemu.Cpu.Execute.Frame.{execute-Keeps}
use snesemu.Cpu.Fetch.{Instruction, fetch_operand, update_next_instruction, execute_instruction}
use snesemu.Cpu.Thread.{
  Cpu, Thread, Place, ExecutionMode, receive, execute_next, run_body, run_place, advance, is_stop,
  at_breakpoint,
}
use snesemu.Cpu.Thread.Modes.{advances}

-- The image and what the sound unit has written stay, and the memories keep their sizes.
pub record SameDevices (before after : Bus) : Type 0 where
  pub rom : after.rom ≡ before.rom
  pub sram : after.sram.size ≡ before.sram.size
  pub wram : after.wram.size ≡ before.wram.size
  pub output : after.apu_port.output_port ≡ before.apu_port.output_port
  pub input : after.apu_port.input_port.size ≡ before.apu_port.input_port.size

write_device-SameDevices :
    (before bus : Bus) (type : MemType) (a v : ℕ) {bus' : Bus}
    → Bus.write_device bus type a v ≡ ok bus'
    → SameDevices before bus
    → SameDevices before bus'
unfolding Bus.write_device Ram.write Port.write
write_device-SameDevices before bus MemType.sram a v e s = ground arith
write_device-SameDevices before bus MemType.wram a v e s = ground arith
write_device-SameDevices before bus MemType.ppu1_apu a v e s = ground arith
write_device-SameDevices before bus _ a v e s = ground arith

SameDevices-Kept : (before : Bus) → Kept (SameDevices before)
unfolding Bus.write
SameDevices-Kept before = record {
  written = λ bus addr v e s.
      write_device-SameDevices before bus (decode addr).type (decode addr).dec_addr v e s;
}

abbrev bus_after : Bus → Result Cpu → Bus
bus_after bus (ok cpu) = cpu.machine.bus
bus_after bus (err e) = bus

abbrev thread_bus : Bus → Result Thread → Bus
thread_bus bus (ok t) = t.cpu.machine.bus
thread_bus bus (err e) = bus

receive-bus :
    (mode : ExecutionMode) (t : Thread) → (receive mode t).cpu.machine.bus ≡ t.cpu.machine.bus
unfolding receive
receive-bus ExecutionMode.run t = refl
receive-bus ExecutionMode.step t = refl
receive-bus ExecutionMode.stop t = refl
receive-bus ExecutionMode.unknown t = refl

received_bus :
    (t : Thread) (should_continue : Bool)
    → (if should_continue
        then record t { place = Place.body }
        else receive t.cpu.exec_mode t).cpu.machine.bus
      ≡ t.cpu.machine.bus
received_bus t true = refl
received_bus t false = receive-bus t.cpu.exec_mode t

module _ {P : Bus → Type 0} (w : Kept P) where
  fetch_operand-Keeps : (left i operand : ℕ) → Keeps P (fetch_operand left i operand)
  unfolding fetch_operand
  fetch_operand-Keeps zero i operand = search (keeps)
  fetch_operand-Keeps (suc left) i operand = search (fetch_operand-Keeps left, keeps)

  update_next_instruction-Keeps : Keeps P update_next_instruction
  unfolding update_next_instruction
  update_next_instruction-Keeps = search (fetch_operand-Keeps, keeps) depth 9

  execute_instruction-Keeps :
      (raw : EffectiveAddress) (instruction : Instruction)
      → Keeps P (execute_instruction raw instruction)
  unfolding execute_instruction
  execute_instruction-Keeps raw instruction = search (execute-Keeps, keeps)

  execute_next-Kept :
      (raw : EffectiveAddress) (cpu : Cpu) {cpu' : Cpu}
      → execute_next raw cpu ≡ ok cpu'
      → P cpu.machine.bus
      → P cpu'.machine.bus
  unfolding execute_next
  execute_next-Kept raw cpu e p =
      let ((instruction, m), ran, done) =
        and_then-ok
          ((execute_instruction raw cpu.current_instruction >> update_next_instruction) cpu.machine)
          _ e in
      let both =
        then-Keeps (execute_instruction-Keeps raw cpu.current_instruction)
          update_next_instruction-Keeps in
      subst P (ap (bus_after cpu.machine.bus) done) (both.keep cpu.machine ran p)

  run_body-Kept :
      (raw : EffectiveAddress) (t : Thread) {u : Thread}
      → run_body raw t ≡ ok u
      → P t.cpu.machine.bus
      → P u.cpu.machine.bus
  unfolding run_body
  run_body-Kept raw t e p = branches (is_stop t.cpu.exec_mode) (t.run && at_breakpoint t.cpu) e
    where
      branches :
          (stopped reached : Bool) {u : Thread}
          → (if stopped
              then ok (record t { place = Place.ended })
              else if reached
              then ok (record t { place = Place.top; should_continue = false })
              else (and_then
                  (execute_next raw t.cpu)
                  λ cpu. ok (record t { cpu = cpu; place = Place.top })))
            ≡ ok u
          → P u.cpu.machine.bus
      branches true reached e = subst P (ap (thread_bus t.cpu.machine.bus) e) p
      branches false true e = subst P (ap (thread_bus t.cpu.machine.bus) e) p
      branches false false e =
          let (cpu, executed, done) = and_then-ok (execute_next raw t.cpu) _ e in
          subst P (ap (thread_bus t.cpu.machine.bus) done) (execute_next-Kept raw t.cpu executed p)

  run_place-Kept :
      (raw : EffectiveAddress) (place : Place) (t : Thread) {u : Thread}
      → run_place raw place t ≡ ok u
      → P t.cpu.machine.bus
      → P u.cpu.machine.bus
  unfolding run_place
  run_place-Kept raw Place.top t e p =
      subst P (sym (received_bus t t.should_continue) ∙ ap (thread_bus t.cpu.machine.bus) e) p
  run_place-Kept raw Place.body t e p = run_body-Kept raw t e p
  run_place-Kept raw Place.ended t e p = subst P (ap (thread_bus t.cpu.machine.bus) e) p

  advance-Kept :
      (raw : EffectiveAddress) (t : Thread) {u : Thread}
      → advance raw t ≡ ok u
      → P t.cpu.machine.bus
      → P u.cpu.machine.bus
  unfolding advance
  advance-Kept raw t e p = run_place-Kept raw t.place t e p

  advances-Kept :
      (n : ℕ) (raw : EffectiveAddress) (t : Thread) {u : Thread}
      → advances n raw t ≡ ok u
      → P t.cpu.machine.bus
      → P u.cpu.machine.bus
  unfolding advances
  advances-Kept zero raw t e p = subst P (ap (thread_bus t.cpu.machine.bus) e) p
  advances-Kept (suc n) raw t e p =
      let (t1, one, rest) = and_then-ok (advance raw t) _ e in
      advances-Kept n raw t1 rest (advance-Kept raw t one p)

-- However many steps the thread of the processor makes, whatever instructions it executes and
-- whatever modes it starts with, the image is unchanged, the sound unit's side of the ports is
-- unchanged, and the memories and the processor's side of the ports keep their sizes.
pub advances-SameDevices :
    (n : ℕ) (raw : EffectiveAddress) (t : Thread) {u : Thread}
    → advances n raw t ≡ ok u
    → SameDevices t.cpu.machine.bus u.cpu.machine.bus
advances-SameDevices n raw t e =
    advances-Kept (SameDevices-Kept t.cpu.machine.bus) n raw t e
      (record { rom = refl; sram = refl; wram = refl; output = refl; input = refl })
