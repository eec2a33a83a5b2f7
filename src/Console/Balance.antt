-- ===== src/Console/Balance.antt =====
-- What initialising and destroying a console comes to.
use snesemu.Base.{
  ℕ, suc, ◌≡◌, ◌<◌, ◌≤◌, refl, inl, inr, none, some, ok, err, undefined, if◌then◌else◌, arith,
}
use snesemu.System.{Process, release, Grants}
use snesemu.System.Acquires.{more, raised, Option-cases}
use snesemu.System.Takes.{Takes, AllGranted, later, granted_join, malloc-Takes}
use snesemu.Parts.Balance.{ram_init-Takes, apu_port_init-Takes, bus_init-Takes}
use snesemu.Parts.{
  ram_init, ram_destroy, apu_port_destroy, bus_destroy, registers_init, registers_destroy,
  stack_destroy, stack_init,
}
use snesemu.Ram.{Ram}
use snesemu.Registers
use snesemu.Registers.{power_on}
use snesemu.Apu
use snesemu.Apu.{Apu, ApuState, Garbage}
use snesemu.Apu.Port.{ApuPort}
use snesemu.Bus.{Bus}
use snesemu.Cart.{Cart}
use snesemu.Machine.{Machine}
use snesemu.Cpu.Fetch.{Instruction, update_next_instruction}
use snesemu.Cpu.Thread.{Cpu, set_execution_mode}
use snesemu.Cpu.Power
use snesemu.Cpu.Power.{at_reset}
use snesemu.Console.{
  Snes, apu_init, apu_destroy, with_devices, assembled, init, destroy, power_down, cpu_power_down,
  apu_power_down,
}

-- A console that is destroyed: if the processor's thread has kept its mutex the call waits for ever,
-- and in every other state it comes to the undefined joining of a thread that is not there to be
-- joined, the one of the sound unit at the latest, which is joined twice.
pub destroy-undefined :
    (s : Snes) (p : Process) → destroy s p ≡ (if s.cpu.locked then none else some (err undefined))
unfolding destroy power_down cpu_power_down apu_power_down set_execution_mode apu_destroy
    Power.destroy registers_destroy stack_destroy release
destroy-undefined s p = ground arith

abbrev unit : Garbage → ApuPort → Ram → Apu
unit raw port ram = record {
  port = port;
  state = ApuState.stopped;
  ram = ram;
  last_data = raw.last_data;
  current_transfert_addr = raw.current_transfert_addr;
  transfered = raw.transfered;
  total_transfered = raw.total_transfered;
}

module _ (g : Grants) where
  apu_init-Takes : (raw : Garbage) (p : Process) → Takes g (apu_init g raw) p 8
  unfolding apu_init apu_port_destroy ram_destroy release Apu.init
  apu_init-Takes raw p = elim (malloc-Takes g p) [
    | Takes.refused k h all absent e ↦ Takes.refused k (omega arith) all absent (rw e refl)
    | Takes.obtained self all e ↦ elim (apu_port_init-Takes g (more 1 0 0 p (later 1 p.requests))) [
      | Takes.refused k h all1 absent e1 ↦
          Takes.refused (raised 1 k) (omega arith) (granted_join g 1 p.requests k all all1) absent
            (rw e (rw e1 refl))
      | Takes.obtained port all1 e1 ↦
          let all6 = granted_join g 1 p.requests 5 all all1 in
          elim (ram_init-Takes g 0x10000 (more 6 0 0 p (later 6 p.requests))) [
            | Takes.refused k h all2 absent e2 ↦
                Takes.refused (raised 6 k) (omega arith) (granted_join g 6 p.requests k all6 all2)
                  absent (rw e (rw e1 (rw e2 refl)))
            | Takes.obtained ram all2 e2 ↦
                Takes.obtained (unit raw port ram) (granted_join g 6 p.requests 2 all6 all2)
                  (rw e (rw e1 (rw e2 refl)))
          ]
    ]
  ]

  cpu_init-Takes :
      (bus : Bus) (p : Process) {r : Instruction × Machine}
      → update_next_instruction (at_reset power_on bus) ≡ ok r
      → Takes g (Power.init g bus) p 3
  unfolding Power.init registers_init stack_init registers_destroy release Registers.init
  cpu_init-Takes bus p {r} start = elim (malloc-Takes g p) [
    | Takes.refused k h all absent e ↦ Takes.refused k (omega arith) all absent (rw e refl)
    | Takes.obtained self all e ↦ elim (malloc-Takes g (more 1 0 0 p (later 1 p.requests))) [
      | Takes.refused k h all1 absent e1 ↦
          Takes.refused (raised 1 k) (omega arith) (granted_join g 1 p.requests k all all1) absent
            (rw e (rw e1 refl))
      | Takes.obtained registers all1 e1 ↦
          let all2 = granted_join g 1 p.requests 1 all all1 in
          elim (malloc-Takes g (more 2 0 0 p (later 2 p.requests))) [
            | Takes.refused k h all' absent e2 ↦
                Takes.refused (raised 2 k) (omega arith) (granted_join g 2 p.requests k all2 all')
                  absent (rw e (rw e1 (rw e2 refl)))
            | Takes.obtained stack all' e2 ↦
                Takes.obtained (Power.ready r) (granted_join g 2 p.requests 1 all2 all')
                  (rw e (rw e1 (rw e2 (rw start refl))))
          ]
    ]
  ]

-- How initialising a console ends, by the first of its fifteen requests that is refused, with those
-- before it granted. The first is not tested, and is written through. Those for the work memory and
-- the sound unit, the requests 1 to 10, have all that was obtained given back. Behind them, for the
-- bus and the processor, the thread of the sound unit is joined, which was not created. With all
-- fifteen granted there is a console, which holds as many blocks.
pub data Initialises (g : Grants) (raw : Garbage) (cart : Cart) (p : Process) : Type 0 where
  no_console :
      g.memory p.requests ≡ none → init g raw cart p ≡ err undefined → Initialises g raw cart p
  refused :
      (k : ℕ)
      → 0 < k
      → k < 11
      → AllGranted g p.requests k
      → g.memory (later k p.requests) ≡ none
      → init g raw cart p ≡ ok (none, more 0 0 0 p (suc (later k p.requests)))
      → Initialises g raw cart p
  after_unit :
      (k : ℕ)
      → 11 ≤ k
      → k < 15
      → AllGranted g p.requests k
      → g.memory (later k p.requests) ≡ none
      → init g raw cart p ≡ err undefined
      → Initialises g raw cart p
  built :
      (cpu : Cpu) (apu : Apu)
      → AllGranted g p.requests 15
      → init g raw cart p ≡ ok (some (assembled cpu apu), more 15 0 0 p (later 15 p.requests))
      → Initialises g raw cart p

after_memory :
    (g : Grants) (raw : Garbage) (cart : Cart) (p : Process) {self : ℕ → ℕ} (wram : Ram) (apu : Apu)
    {first : Instruction × Machine}
    → update_next_instruction (at_reset power_on (with_devices cart wram apu)) ≡ ok first
    → g.memory p.requests ≡ some self
    → ram_init g 0x20000 (more 1 0 0 p (later 1 p.requests))
      ≡ ok (some wram, more 3 0 0 p (later 3 p.requests))
    → apu_init g raw (more 3 0 0 p (later 3 p.requests))
      ≡ ok (some apu, more 11 0 0 p (later 11 p.requests))
    → AllGranted g p.requests 11
    → Initialises g raw cart p
unfolding init ram_destroy bus_destroy apu_destroy release
after_memory g raw cart p wram apu start e e1 e2 all =
    elim (bus_init-Takes g (more 11 0 0 p (later 11 p.requests))) [
      | Takes.refused k h all' absent e3 ↦
          Initialises.after_unit (raised 11 k) (omega arith) (omega arith)
            (granted_join g 11 p.requests k all all') absent (rw e (rw e1 (rw e2 (rw e3 refl))))
      | Takes.obtained bus all' e3 ↦
          let all12 = granted_join g 11 p.requests 1 all all' in
          elim (cpu_init-Takes g (with_devices cart wram apu) (more 12 0 0 p (later 12 p.requests))
            start) [
              | Takes.refused k h all'' absent e4 ↦
                  Initialises.after_unit (raised 12 k) (omega arith) (omega arith)
                    (granted_join g 12 p.requests k all12 all'') absent
                    (rw e (rw e1 (rw e2 (rw e3 (rw e4 refl)))))
              | Takes.obtained cpu all'' e4 ↦
                  Initialises.built cpu apu (granted_join g 12 p.requests 3 all12 all'')
                    (rw e (rw e1 (rw e2 (rw e3 (rw e4 refl)))))
            ]
    ]

-- Initialising a console, when an instruction can be fetched at the reset vector whatever the work
-- memory and the sound unit are, ends by the first of its fifteen requests that is refused, with
-- those before it granted. Request 0 is not tested, and is written through. With one of the requests
-- 1 to 10, for the work memory and the sound unit, all that was obtained is given back. With one of
-- 11 to 14, for the bus and the processor, the thread of the sound unit is joined, which was not
-- created. With all granted there is a console, which holds fifteen blocks.
pub init-Initialises :
    (g : Grants) (raw : Garbage) (cart : Cart) (p : Process)
    (first : Ram → Apu → Instruction × Machine)
    → ((wram : Ram) (apu : Apu)
        → update_next_instruction (at_reset power_on (with_devices cart wram apu))
          ≡ ok (first wram apu))
    → Initialises g raw cart p
unfolding init ram_destroy bus_destroy apu_destroy release
init-Initialises g raw cart p first starts = elim (Option-cases (g.memory p.requests)) [
  | inl absent ↦ Initialises.no_console absent (rw absent refl)
  | inr (self, e) ↦
      let all : AllGranted g p.requests 1 = ((self, e), tt) in
      elim (ram_init-Takes g 0x20000 (more 1 0 0 p (later 1 p.requests))) [
        | Takes.refused k h all' absent e1 ↦
            Initialises.refused (raised 1 k) (omega arith) (omega arith)
              (granted_join g 1 p.requests k all all') absent (rw e (rw e1 refl))
        | Takes.obtained wram all' e1 ↦
            let all3 = granted_join g 1 p.requests 2 all all' in
            elim (apu_init-Takes g raw (more 3 0 0 p (later 3 p.requests))) [
              | Takes.refused k h all'' absent e2 ↦
                  Initialises.refused (raised 3 k) (omega arith) (omega arith)
                    (granted_join g 3 p.requests k all3 all'') absent (rw e (rw e1 (rw e2 refl)))
              | Takes.obtained apu all'' e2 ↦
                  after_memory g raw cart p wram apu (starts wram apu) e e1 e2
                    (granted_join g 3 p.requests 8 all3 all'')
            ]
      ]
]
