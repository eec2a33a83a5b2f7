-- ===== src/Apu/Thread/Invariant.antt =====
-- What holds of the sound unit in every reachable state.
use snesemu.Base.{◌≡◌, refl, ◌<◌, ◌⊎◌, inr, ok, and_then-ok, arith}
use mathlib.Core.Path.{subst}
use snesemu.Ram
use snesemu.Apu.Port
use snesemu.Apu.{
  Apu, ApuState, Outcome, DataType, TransferData, handle, handle_type, get_type, get_next_data,
}
use snesemu.Apu.Thread.{
  Thread, Phase, run, start, after_handle, next_phase, power_down, Step, Reach,
}

-- The blocks keep their sizes, and the address stays in the memory.
pub record IsFit (apu : Apu) : Type 0 where
  pub inputs : apu.port.input_port.size ≡ 4
  pub outputs : apu.port.output_port.size ≡ 4
  pub memory : apu.ram.size ≡ 0x10000
  pub address : apu.current_transfert_addr < 0x10000

-- A thread that waits has been told to execute or to stop, and one that has ended was told to stop.
abbrev pub PhaseFits : Phase → ApuState → Type 0
PhaseFits Phase.waiting state = (state ≡ ApuState.executing) ⊎ (state ≡ ApuState.stopped)
PhaseFits Phase.finished state = state ≡ ApuState.stopped
PhaseFits _ state = Unit

pub record IsSound (t : Thread) : Type 0 where
  pub fit : IsFit t.apu
  pub phase : PhaseFits t.phase t.apu.state

-- The unit keeps its sizes over a handler, and waits only when it executes.
record Keeps (o : Outcome) (apu : Apu) : Type 0 where
  fit : IsFit apu
  executes : o ≡ Outcome.waiting → apu.state ≡ ApuState.executing

handle_type-Keeps :
    (t : DataType) (d : TransferData) (apu : Apu) {o : Outcome} {apu' : Apu}
    → IsFit apu
    → handle_type t d apu ≡ ok (o, apu')
    → Keeps o apu'
unfolding handle_type Port.internal_write Ram.write
handle_type-Keeps DataType.transfer_init d apu f e = ground arith
handle_type-Keeps DataType.transfer_data d apu f e = ground arith
handle_type-Keeps DataType.transfer_new d apu f e = ground arith
handle_type-Keeps DataType.transfer_end d apu f e = ground arith
handle_type-Keeps DataType.transfer_invalid d apu f e = cc
handle_type-Keeps DataType.transfer_no_change d apu f e = ground arith

get_type-IsFit :
    (apu : Apu) (d : TransferData) {t : DataType} {apu' : Apu}
    → IsFit apu
    → get_type apu d ≡ ok (t, apu')
    → IsFit apu'
unfolding get_type
get_type-IsFit apu d f e = ground arith

handle-Keeps :
    (apu : Apu) {o : Outcome} {apu' : Apu} → IsFit apu → handle apu ≡ ok (o, apu') → Keeps o apu'
unfolding handle
handle-Keeps apu f e =
    let (d, read, rest) = and_then-ok (get_next_data apu.port) _ e in
    let ((t, apu1), typed, done) = and_then-ok (get_type apu d) _ rest in
    handle_type-Keeps t d apu1 (get_type-IsFit apu d f typed) done

after_handle-IsSound : (o : Outcome) (apu : Apu) → Keeps o apu → IsSound (after_handle (o, apu))
unfolding after_handle next_phase
after_handle-IsSound Outcome.returned apu k = ground arith
after_handle-IsSound Outcome.waiting apu k = ground arith

run-IsSound :
    (phase : Phase) (apu : Apu) {u : Thread}
    → run (record { phase = phase; apu = apu }) ≡ ok u
    → IsSound (record { phase = phase; apu = apu })
    → IsSound u
unfolding run start next_phase Port.internal_write Ram.write
run-IsSound Phase.starting apu e s = ground arith
run-IsSound Phase.polling apu {u} e s =
    let ((o, apu'), handled, done) = and_then-ok (handle apu) _ e in
    let k = after_handle-IsSound o apu' (handle-Keeps apu s.fit handled) in
    let same : after_handle (o, apu') ≡ u = cc in subst (λ t. IsSound t) same k
run-IsSound Phase.waiting apu e s = ground arith
run-IsSound Phase.finished apu e s = ground arith

stopped-PhaseFits : (phase : Phase) → PhaseFits phase ApuState.stopped
stopped-PhaseFits Phase.waiting = inr refl
stopped-PhaseFits Phase.finished = refl
stopped-PhaseFits _ = tt

Step-IsSound : {t u : Thread} → Step t u → IsSound t → IsSound u
unfolding power_down Port.write Ram.write
Step-IsSound (Step.round {t} e) s = run-IsSound t.phase t.apu e s
Step-IsSound (Step.port_written {t} a v e) s = record { fit = ground arith; phase = s.phase }
Step-IsSound (Step.powered_down t) s = record {
  fit = ground arith;
  phase = stopped-PhaseFits t.phase;
}

-- Every state that the thread reaches, beside any writes of the processor and any power-downs, keeps
-- the sizes of its blocks and the address within the memory; it waits only when it executes or has
-- been stopped, and it has ended only when it has been stopped.
pub Reach-IsSound : {t u : Thread} → Reach t u → IsSound t → IsSound u
Reach-IsSound Reach.here s = s
Reach-IsSound (Reach.next r st) s = Step-IsSound st (Reach-IsSound r s)
