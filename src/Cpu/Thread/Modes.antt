-- ===== src/Cpu/Thread/Modes.antt =====
-- What each execution mode makes the thread do.
use snesemu.Base.{
  ℕ, zero, suc, ◌≡◌, refl, ap, Bool, true, false, not, if◌then◌else◌, none, some, Result, ok,
  and_then, arith, ◌<◌,
}
use snesemu.Cpu.Defs.{EffectiveAddress}
use snesemu.Cpu.Thread.{
  Cpu, Thread, Place, ExecutionMode, with_mode, receive, execute_next, at_breakpoint, run_body,
  advance, set_execution_mode,
}

-- So many steps of the thread, with no other mode set meanwhile.
unfoldable pub advances : ℕ → EffectiveAddress → Thread → Result Thread
advances zero raw t = ok t
advances (suc n) raw t = and_then (advance raw t) λ u. advances n raw u

-- The thread at the top of its loop, with the mutex free and the mode as given.
abbrev pub at_top : Bool → Bool → Cpu → ExecutionMode → Thread
at_top should_continue run cpu mode = record {
  cpu = record cpu { exec_mode = mode };
  place = Place.top;
  should_continue = should_continue;
  run = run;
  locked = false;
}

execute_next-mode :
    (raw : EffectiveAddress) (cpu : Cpu) {cpu' : Cpu}
    → execute_next raw cpu ≡ ok cpu'
    → cpu'.exec_mode ≡ cpu.exec_mode
unfolding execute_next
execute_next-mode raw cpu e = ground arith

-- A waiting thread that is given STEP executes the current instruction, breakpoint or not, fetches
-- the next, and waits again.
pub advances-step :
    (raw : EffectiveAddress) (run : Bool) (cpu : Cpu) {cpu' : Cpu}
    → execute_next raw (record cpu { exec_mode = ExecutionMode.unknown }) ≡ ok cpu'
    → advances 2 raw (at_top false run cpu ExecutionMode.step)
      ≡ ok (at_top false false cpu' ExecutionMode.unknown)
unfolding advances advance receive run_body
advances-step raw run cpu {cpu'} done =
    let mode = execute_next-mode raw (record cpu { exec_mode = ExecutionMode.unknown }) done in
    rw done (ap (λ m. ok (at_top false false cpu' m)) mode)

-- A thread that has ended stays so.
ended :
    (n : ℕ) (raw : EffectiveAddress) (t : Thread) → t.place ≡ Place.ended → advances n raw t ≡ ok t
unfolding advances advance
ended zero raw t e = refl
ended (suc n) raw t e = simp e (ended n raw t e)

-- Rounds of the loop, of two steps each, with no other mode set meanwhile.
unfoldable pub rounds : ℕ → EffectiveAddress → Thread → Result Thread
rounds zero raw t = ok t
rounds (suc n) raw t = and_then (advances 2 raw t) λ u. rounds n raw u

module _ (raw : EffectiveAddress) (cpu : Cpu) where
  -- RUN goes on as a thread that runs already.
  round-received :
      (run : Bool)
      → advances 2 raw (at_top false run cpu ExecutionMode.run)
        ≡ advances 2 raw (at_top true true cpu ExecutionMode.unknown)
  unfolding advances advance receive
  round-received run = refl

  round-clear :
      {cpu' : Cpu}
      → at_breakpoint cpu ≡ false
      → execute_next raw (record cpu { exec_mode = ExecutionMode.unknown }) ≡ ok cpu'
      → advances 2 raw (at_top true true cpu ExecutionMode.unknown)
        ≡ ok (at_top true true cpu' ExecutionMode.unknown)
  unfolding advances advance run_body
  round-clear {cpu'} clear done =
      let mode = execute_next-mode raw (record cpu { exec_mode = ExecutionMode.unknown }) done in
      rw clear (rw done (ap (λ m. ok (at_top true true cpu' m)) mode))

  round-breakpoint :
      at_breakpoint cpu ≡ true
      → advances 2 raw (at_top true true cpu ExecutionMode.unknown)
        ≡ ok (at_top false true cpu ExecutionMode.unknown)
  unfolding advances advance run_body
  round-breakpoint reached = rw reached refl

rounds-running :
    (n : ℕ) (raw : EffectiveAddress) (cpus : ℕ → Cpu)
    → ((k : ℕ) → k < n → at_breakpoint (cpus k) ≡ false)
    → ((k : ℕ)
        → k < n
        → execute_next raw (record (cpus k) { exec_mode = ExecutionMode.unknown })
          ≡ ok (cpus (suc k)))
    → at_breakpoint (cpus n) ≡ true
    → rounds (suc n) raw (at_top true true (cpus 0) ExecutionMode.unknown)
      ≡ ok (at_top false true (cpus n) ExecutionMode.unknown)
unfolding rounds
rounds-running zero raw cpus clear done reached = rw (round-breakpoint raw (cpus 0) reached) refl
rounds-running (suc n) raw cpus clear done reached =
    rw (round-clear raw (cpus 0) (clear 0 (omega arith)) (done 0 (omega arith))) (
      rounds-running n raw (λ k. cpus (suc k)) (λ k h. clear (suc k) (omega arith))
        (λ k h. done (suc k) (omega arith)) reached)

-- A waiting thread that is given RUN, where the states `cpus` follow one another by the execution of
-- an instruction and the state `n` is the first at a breakpoint: it executes exactly `n`
-- instructions and waits again. At a breakpoint already, it executes nothing.
pub rounds-run :
    (n : ℕ) (raw : EffectiveAddress) (cpus : ℕ → Cpu) (run : Bool)
    → ((k : ℕ) → k < n → at_breakpoint (cpus k) ≡ false)
    → ((k : ℕ)
        → k < n
        → execute_next raw (record (cpus k) { exec_mode = ExecutionMode.unknown })
          ≡ ok (cpus (suc k)))
    → at_breakpoint (cpus n) ≡ true
    → rounds (suc n) raw (at_top false run (cpus 0) ExecutionMode.run)
      ≡ ok (at_top false true (cpus n) ExecutionMode.unknown)
unfolding rounds
rounds-run n raw cpus run clear done reached =
    rw (round-received raw (cpus 0) run) (rounds-running n raw cpus clear done reached)

-- STOP ends the thread without another instruction, at the top of its loop or before the rest of a
-- round; and the mutex stays locked, so that no later mode can be set, exactly when the thread was
-- at the top and waiting.
pub advances-stop :
    (raw : EffectiveAddress) (n : ℕ) (should_continue run : Bool) (cpu : Cpu) (mode : ExecutionMode)
    → let t = at_top should_continue run cpu ExecutionMode.stop in
      let at_end = record t { place = Place.ended; locked = not should_continue } in
      (advances (suc (suc n)) raw t ≡ ok at_end)
      × (advances (suc n) raw (record t { place = Place.body })
          ≡ ok (record t { place = Place.ended }))
      × (set_execution_mode mode at_end
          ≡ (if should_continue then some (with_mode at_end mode) else none))
unfolding advances advance receive run_body set_execution_mode
advances-stop raw n true run cpu mode = (ended n raw _ refl, ended n raw _ refl, refl)
advances-stop raw n false run cpu mode = (ended n raw _ refl, ended n raw _ refl, refl)
