-- ===== src/Console.antt =====
-- src/snes.c: the console. The processor's bus holds the devices; the sound unit's port stands there
-- and with the unit. The console keeps what became of the two threads.

pub mod Balance
use snesemu.Base.{
  ℕ, zero, Bool, true, false, Option, none, some, Result, ok, err, and_then, undefined,
  if◌then◌else◌, List,
}
use mathlib.Core.Option
use snesemu.System.{
  Process, ℤ, is_negative, Act, ◌>>=◌, ◌>>◌, pure, lift, Grants, malloc, free, attempt,
}
use snesemu.Ram.{Ram}
use snesemu.Apu
use snesemu.Apu.{Apu, ApuState, Garbage}
use snesemu.Parts.{ram_init, ram_destroy, apu_port_init, apu_port_destroy, bus_init, bus_destroy}
use snesemu.Bus.{Bus}
use snesemu.Cart.{Cart}
use snesemu.Cpu.Power
use snesemu.Cpu.Breakpoints.{set_breakpoint}
use snesemu.Cpu.Thread
use snesemu.Cpu.Thread.{Cpu, ExecutionMode, Place, with_mode, set_execution_mode}

-- What becomes of a `pthread_t`.
pub data Handle : Type 0 where
  unset created joined : Handle

-- `pthread_join`, for a thread that ends; without a thread that can be joined it is undefined.
abbrev pub join : Handle → Result Handle
join Handle.created = ok Handle.joined
join _ = err undefined

-- `snes_apu_destroy`: a power-down, and the port; the memory of the unit is not freed.
unfoldable pub apu_destroy : Handle → Act (Unit {0})
unfolding apu_port_destroy
apu_destroy thread = lift (join thread) >> apu_port_destroy >> free

unfoldable pub apu_init : Grants → Garbage → Act (Option Apu)
apu_init g raw = attempt (malloc g) (pure tt) λ self. attempt (apu_port_init g) free λ port.
    attempt (ram_init g 0x10000) (apu_port_destroy >> free)
      λ ram. pure (Apu.init true (some port) (some ram) raw)

pub record Snes : Type 0 where
  pub cpu : Thread.Thread
  pub apu : Apu
  pub cpu_thread : Handle
  pub apu_thread : Handle

abbrev pub with_devices : Cart → Ram → Apu → Bus
with_devices cart wram apu = record {
  rom = cart.rom;
  sram = cart.sram;
  wram = wram;
  apu_port = apu.port;
}

-- The threads before they are created.
abbrev pub assembled : Cpu → Apu → Snes
assembled cpu apu = record {
  cpu = record {
    cpu = cpu;
    place = Place.top;
    should_continue = false;
    run = false;
    locked = false;
  };
  apu = apu;
  cpu_thread = Handle.unset;
  apu_thread = Handle.unset;
}

-- The result of the first `malloc` is not tested, and the next line writes through it.
unfoldable pub init : Grants → Garbage → Cart → Act (Option Snes)
init g raw cart = attempt (malloc g) (lift (err undefined)) λ self.
    attempt (ram_init g 0x20000) free λ wram. attempt (apu_init g raw) (ram_destroy >> free) λ apu.
      attempt (bus_init g) (apu_destroy Handle.unset >> ram_destroy >> free) λ bus_a.
        attempt (Power.init g (with_devices cart wram apu))
          (bus_destroy >> apu_destroy Handle.unset >> ram_destroy >> free)
          λ cpu. pure (some (assembled cpu apu))

-- What one call comes to: it may wait for ever, which is `none`.
abbrev pub Call : Type 0 → Type 0
Call A = Option (Result A)

-- `snes_cpu_power_down`
unfoldable pub cpu_power_down : Snes → Call Snes
cpu_power_down s =
    Option.map
      (λ cpu.
        and_then (join s.cpu_thread) λ thread. ok (record s { cpu = cpu; cpu_thread = thread }))
      (set_execution_mode ExecutionMode.stop s.cpu)

-- `snes_apu_power_down`
unfoldable pub apu_power_down : Snes → Result Snes
apu_power_down s =
    and_then (join s.apu_thread) λ thread.
      ok (record s { apu = record s.apu { state = ApuState.stopped }; apu_thread = thread })

unfoldable pub power_down : Snes → Call Snes
unfolding cpu_power_down apu_power_down
power_down s = Option.map (λ r. and_then r apu_power_down) (cpu_power_down s)

unfoldable pub destroy : Snes → Process → Call (Unit {0} × Process)
unfolding power_down Power.destroy bus_destroy ram_destroy
destroy s p =
    Option.map
      (λ r. and_then r λ down.
        (Power.destroy >> apu_destroy down.apu_thread >> bus_destroy >> ram_destroy >> free) p)
      (power_down s)

-- `pthread_create` with its return code.
abbrev pub spawned : ℤ → Handle → Handle
spawned (ℤ.pos zero) thread = Handle.created
spawned _ thread = thread

unfoldable pub power_up : (cpu_code apu_code : ℤ) → Snes → Call (ℤ × Snes)
unfolding cpu_power_down
power_up cpu_code apu_code s =
    let s1 = record s { cpu_thread = spawned cpu_code s.cpu_thread } in
    let s2 = record s1 { apu_thread = spawned apu_code s.apu_thread } in
    if is_negative cpu_code
    then some (ok (cpu_code, s1))
    else if is_negative apu_code
    then Option.map (λ r. and_then r λ s3. ok (apu_code, s3)) (cpu_power_down s2)
    else some (ok (apu_code, s2))

-- The processor is the only type of breakpoint; that no slot was free is not reported.
unfoldable pub set_cpu_breakpoint : Snes → ℕ → Snes
set_cpu_breakpoint s addr =
    let breakpoints = (set_breakpoint s.cpu.cpu.breakpoints addr).0 in
    record s { cpu = record s.cpu { cpu = record s.cpu.cpu { breakpoints = breakpoints } } }

abbrev pub with_execution_mode : ExecutionMode → Snes → Option Snes
with_execution_mode mode s =
    Option.map (λ cpu. record s { cpu = cpu }) (set_execution_mode mode s.cpu)

unfoldable pub do_cpu_tick : Snes → Option Snes
do_cpu_tick = with_execution_mode ExecutionMode.step

unfoldable pub run_cpu : Snes → Option Snes
run_cpu = with_execution_mode ExecutionMode.run

unfoldable pub nmi : Snes → Snes
nmi s =
    let machine = Thread.nmi s.cpu.cpu.machine in
    record s { cpu = record s.cpu { cpu = record s.cpu.cpu { machine = machine } } }
