-- ===== src/Apu/Thread.antt =====
-- `snes_apu_execute` of src/snes_apu.c, the thread of the sound unit, beside the writes of the
-- processor and `snes_apu_power_down`. One step of the thread is one round of its loop.
pub mod Invariant
pub mod Stop
use snesemu.Base.{ℕ, ◌≡◌, Result, ok, and_then}
use snesemu.Apu.Port
use snesemu.Apu.Port.{ApuPort}
use snesemu.Apu.{Apu, ApuState, Outcome, handle}

-- `waiting` is the loop inside `snes_apu_transfer_handle`.
pub data Phase : Type 0 where
  starting polling waiting finished : Phase

pub record Thread : Type 0 where
  pub phase : Phase
  pub apu : Apu

-- What the thread does before its loop.
unfoldable pub start : Apu → Result Apu
start apu = and_then (Port.internal_write apu.port 0 0xaa) λ port.
    and_then (Port.internal_write port 1 0xbb)
      λ port'. ok (record apu { port = port'; state = ApuState.not_init })

-- The test of STOPPED at the end of a round.
unfoldable pub next_phase : ApuState → Phase → Phase
next_phase ApuState.stopped phase = Phase.finished
next_phase _ phase = phase

-- A return from `snes_apu_transfer_handle`, which is always 0, leads to that test.
unfoldable pub after_handle : Outcome × Apu → Thread
unfolding next_phase
after_handle (Outcome.returned, apu) = record {
  phase = next_phase apu.state Phase.polling;
  apu = apu;
}
after_handle (Outcome.waiting, apu) = record { phase = Phase.waiting; apu = apu }

unfoldable pub run_phase : Phase → Apu → Result Thread
unfolding start after_handle next_phase
run_phase Phase.starting apu =
    and_then (start apu) λ apu'. ok (record { phase = Phase.polling; apu = apu' })
run_phase Phase.polling apu = and_then (handle apu) λ r. ok (after_handle r)
run_phase Phase.waiting apu = ok (record { phase = next_phase apu.state Phase.waiting; apu = apu })
run_phase Phase.finished apu = ok (record { phase = Phase.finished; apu = apu })

unfoldable pub run : Thread → Result Thread
unfolding run_phase
run t = run_phase t.phase t.apu

-- The assignment of `snes_apu_power_down`.
unfoldable pub power_down : Thread → Thread
power_down t = record t { apu = record t.apu { state = ApuState.stopped } }

-- A round of the thread, a byte that the processor writes, or a power-down.
pub data Step : Thread → Thread → Type 0 where
  round : {t u : Thread} → run t ≡ ok u → Step t u
  port_written :
      {t : Thread} (a v : ℕ) {port : ApuPort}
      → Port.write t.apu.port a v ≡ ok port
      → Step t (record t { apu = record t.apu { port = port } })
  powered_down : (t : Thread) → Step t (power_down t)

pub data Reach (s : Thread) : Thread → Type 0 where
  here : Reach s s
  next : {t u : Thread} → Reach s t → Step t u → Reach s u
