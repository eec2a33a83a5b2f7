-- ===== src/Apu/Thread/Stop.antt =====
-- What becomes of a power-down that the thread has not seen yet.
use snesemu.Base.{
  inr, ℕ, zero, suc, ◌≡◌, refl, sym, ◌<◌, ap, ◌∙◌, ok, Result, and_then, and_then-ok, arith, ◌≢◌,
}
use snesemu.Ram
use snesemu.Apu.Port
use snesemu.Apu.{
  Apu, ApuState, Outcome, DataType, TransferData, handle, handle_type, get_type, get_next_data,
  next_cookie,
}
use snesemu.Apu.Messages.{inputs}
use snesemu.Apu.Handle.{ended, handle-end}
use snesemu.Apu.Thread.{Thread, Phase, run, after_handle, next_phase, power_down}
use snesemu.Apu.Thread.Invariant.{IsFit}

-- The rounds of the thread with nothing else going on.
pub rounds : ℕ → Thread → Result Thread
rounds zero t = ok t
rounds (suc n) t = and_then (run t) λ u. rounds n u

abbrev polling : Apu → Thread
polling apu = record { phase = Phase.polling; apu = apu }

-- The phase after a round that began stopped, by what the ports asked for in it.
abbrev pub after_stop : DataType → Phase
after_stop DataType.transfer_init = Phase.polling
after_stop DataType.transfer_end = Phase.waiting
after_stop _ = Phase.finished

handle_type-after_stop :
    (t : DataType) (d : TransferData) (apu : Apu) {o : Outcome} {apu' : Apu}
    → apu.state ≡ ApuState.stopped
    → handle_type t d apu ≡ ok (o, apu')
    → (after_handle (o, apu')).phase ≡ after_stop t
unfolding handle_type after_handle next_phase Port.internal_write Ram.write
handle_type-after_stop DataType.transfer_init d apu s e = ground arith
handle_type-after_stop DataType.transfer_data d apu s e = ground arith
handle_type-after_stop DataType.transfer_new d apu s e = ground arith
handle_type-after_stop DataType.transfer_end d apu s e = ground arith
handle_type-after_stop DataType.transfer_invalid d apu s e = cc
handle_type-after_stop DataType.transfer_no_change d apu s e = ground arith

get_type-state :
    (apu : Apu) (d : TransferData) {t : DataType} {apu' : Apu}
    → get_type apu d ≡ ok (t, apu')
    → apu'.state ≡ apu.state
unfolding get_type
get_type-state apu d e = ground arith

-- A thread that is powered down between two rounds, and whose next round comes to an end: it has
-- finished unless the ports asked for a first transfer, which takes the unit back to INITED, or for
-- the end of the transfers, which sends it to wait.
pub stop_phase :
    (apu : Apu) {d : TransferData} {t : DataType} {apu1 : Apu} {u : Thread}
    → get_next_data apu.port ≡ ok d
    → get_type (power_down (record { phase = Phase.polling; apu = apu })).apu d ≡ ok (t, apu1)
    → run (power_down (record { phase = Phase.polling; apu = apu })) ≡ ok u
    → u.phase ≡ after_stop t
unfolding run power_down handle
stop_phase apu {d} {t} {apu1} {u} read typed e =
    let stopped = record apu { state = ApuState.stopped } in
    let ((o, apu2), handled, done) = and_then-ok (handle stopped) _ e in
    let same_run : handle stopped ≡ handle_type t d apu1 = rw (read, typed) refl in
    let handled' : handle_type t d apu1 ≡ ok (o, apu2) = sym same_run ∙ handled in
    let same : after_handle (o, apu2) ≡ u = cc in
    ap (λ v. v.phase) (sym same)
    ∙ handle_type-after_stop t d apu1 (get_type-state stopped d typed) handled'

-- A thread that waits while the unit executes goes on waiting.
waiting_rounds :
    (n : ℕ) (apu : Apu)
    → apu.state ≡ ApuState.executing
    → rounds n (record { phase = Phase.waiting; apu = apu })
      ≡ ok (record { phase = Phase.waiting; apu = apu })
unfolding rounds run next_phase
waiting_rounds zero apu e = refl
waiting_rounds (suc n) apu e = simp e (waiting_rounds n apu e)

not_init_cookie : (last : ℕ) {k : ℕ} → last < 256 → last ≢ 0xc8 → k ≡ next_cookie last → k ≢ 0xcc
unfolding next_cookie
not_init_cookie last b ne e = ground arith

-- A power-down between two rounds is lost when the ports ask for the end of the transfers: the unit
-- executes, and however many rounds follow, its thread does not finish.
pub stop_lost :
    (apu : Apu) (n : ℕ)
    → IsFit apu
    → apu.last_data.port0 < 256
    → apu.last_data.port0 ≢ 0xc8
    → (inputs apu.port).port0 ≡ next_cookie apu.last_data.port0
    → (inputs apu.port).port1 ≡ 0
    → (u : Thread) × (rounds (suc n) (power_down (record { phase = Phase.polling; apu = apu }))
        ≡ ok u)
      × (u.phase ≡ Phase.waiting)
      × (u.apu.state ≡ ApuState.executing)
unfolding rounds run power_down
stop_lost apu n fit b ne cookie last =
    let stopped = record apu { state = ApuState.stopped } in
    let other : (inputs apu.port).port0 ≢ 0xcc = not_init_cookie apu.last_data.port0 b ne cookie in
    let round = handle-end stopped fit.inputs b (inr other) cookie last in
    (
      record { phase = Phase.waiting; apu = ended stopped },
      rw round (waiting_rounds n (ended stopped) refl),
      refl,
      refl,
    )
