-- ===== src/Apu/Link/Steps.antt =====
-- What one message of an upload leaves of the unit.
use snesemu.Base.{ℕ, ◌+◌, ◌/◌, ◌≡◌, refl, ap, sym, ◌∙◌, ◌<◌, ◌≢◌, ◌⊎◌, inl, u8, u16, ok, arith}
use snesemu.Ram.{update}
use snesemu.Apu.Port.{ApuPort}
use snesemu.Apu.{Apu, ApuState, Outcome, TransferData, handle, next_cookie, get_address}
use snesemu.Apu.Messages.{inputs, next_cookie_fresh}
use snesemu.Apu.Handle.{stored, moved, ended, echoed, handle-data, handle-new, handle-end}
use snesemu.Apu.Thread.{Phase, run, run_phase, after_handle, next_phase}
use snesemu.Apu.Link.Commands.{message, IsReceiving}
use snesemu.Apu.Link.{Link, put_message, post_lem, see_port_lem, exchange}

-- A message of four bytes is what the unit reads.
abbrev IsMessage : TransferData → Type 0
IsMessage d = (d.port0 < 256) × (d.port1 < 256) × (d.port2 < 256) × (d.port3 < 256)

inputs-put_message :
    (port : ApuPort) (d : TransferData) → IsMessage d → inputs (put_message port d) ≡ d
inputs-put_message port d h = ground arith

-- The unit that a message is handed to, and the link after the unit has dealt with it.
abbrev pub posted : Link → TransferData → Apu
posted l d = record l.thread.apu { port = put_message l.thread.apu.port d }

abbrev pub answered : Link → Apu → Link
answered l apu = record l {
  thread = record { phase = next_phase apu.state Phase.polling; apu = apu };
}

run_phase-polling :
    (phase : Phase) (apu : Apu) {r : Outcome × Apu}
    → phase ≡ Phase.polling
    → handle apu ≡ ok r
    → run_phase phase apu ≡ ok (after_handle r)
unfolding run_phase
run_phase-polling phase apu p h = rw p (rw h refl)

module _ (l : Link) (d : TransferData) (apu : Apu) (polling : l.thread.phase ≡ Phase.polling)
    (input : l.thread.apu.port.input_port.size ≡ 4) (output : apu.port.output_port.size ≡ 4) where
  pub exchange-after_handle :
      (o : Outcome)
      → handle (posted l d) ≡ ok (o, apu)
      → exchange d l
        ≡ ok (
          u8 (apu.port.output_port.cells 0),
          record l { thread = record { phase = (after_handle (o, apu)).phase; apu = apu } },
        )
  unfolding exchange run after_handle
  exchange-after_handle Outcome.returned h = rw (post_lem d l input) (
      rw (run_phase-polling l.thread.phase (posted l d) polling h)
        (rw (see_port_lem (answered l apu) output)))
  exchange-after_handle Outcome.waiting h = rw (post_lem d l input) (
      rw (run_phase-polling l.thread.phase (posted l d) polling h) (
        rw (
          see_port_lem (record l { thread = record { phase = Phase.waiting; apu = apu } }) output)))

-- The values on the ports that a number of a byte reads back as.
module _ {l : Link} {last a : ℕ} {cells : ℕ → ℕ} (r : IsReceiving l last a cells) where
  polls_on :
      (state : ApuState) → state ≡ ApuState.inited → next_phase state Phase.polling ≡ Phase.polling
  unfolding next_phase
  polls_on state e = rw e refl

  exchange-message :
      (k p1 p2 p3 : ℕ) (apu : Apu)
      → k < 256
      → apu.port ≡ echoed (put_message l.thread.apu.port (message k p1 p2 p3))
      → handle (posted l (message k p1 p2 p3)) ≡ ok (Outcome.returned, apu)
      → exchange (message k p1 p2 p3) l ≡ ok (k, answered l apu)
  unfolding after_handle
  exchange-message k p1 p2 p3 apu hk port h =
      exchange-after_handle l (message k p1 p2 p3) apu r.phase r.input
        (ap (λ p. p.output_port.size) port ∙ r.output) Outcome.returned h
      ∙ ap (λ v. ok (v, answered l apu)) (ap (λ p. u8 (p.output_port.cells 0)) port ∙ omega arith)

  pub byte_received :
      (k b : ℕ)
      → k < 256
      → ((k ≡ 0) × (last ≢ 0)) ⊎ (k ≡ last + 1)
      → (l' : Link) × (exchange (message k (u8 b) 0 0) l ≡ ok (k, l'))
        × IsReceiving l' k (u16 (a + 1)) (update cells a (u8 b))
  byte_received k b hk follows =
      let apu = posted l (message k (u8 b) 0 0) in
      (
        answered l (stored apu),
        exchange-message k (u8 b) 0 0 (stored apu) hk refl
            (handle-data apu r.input r.output (ground arith) (ground arith) (ground arith)),
        record {
          phase = polls_on l.thread.apu.state r.state;
          state = r.state;
          input = r.input;
          output = r.output;
          memory = r.memory;
          last_port0 = omega arith;
          last_byte = hk;
          echo = omega arith;
          address = omega arith;
          in_memory = omega arith;
          contents =
              ap (λ k. update l.thread.apu.ram.cells k (u8 (inputs apu.port).port1)) r.address
              ∙ ap (λ c. update c a (u8 (inputs apu.port).port1)) r.contents
              ∙ ap (λ v. update cells a v) (omega arith);
        },
      )

  pub address_received :
      (a' : ℕ)
      → (l' : Link) × (exchange (message (next_cookie last) 1 (u8 a') (u8 (a' / 256))) l
          ≡ ok (next_cookie last, l'))
        × IsReceiving l' (next_cookie last) (u16 a') cells
  unfolding get_address
  address_received a' =
      let m = message (next_cookie last) 1 (u8 a') (u8 (a' / 256)) in
      let apu = posted l m in
      let fresh = next_cookie_fresh last r.last_byte in
      (
        answered l (moved apu),
        exchange-message (next_cookie last) 1 (u8 a') (u8 (a' / 256)) (moved apu) fresh.3 refl (
            handle-new apu r.input r.output (omega arith ∙ ap next_cookie (sym r.last_port0))
              (omega arith) (omega arith) (ground arith)),
        record {
          phase = polls_on l.thread.apu.state r.state;
          state = r.state;
          input = r.input;
          output = r.output;
          memory = r.memory;
          last_port0 = omega arith;
          last_byte = fresh.3;
          echo = omega arith;
          address = omega arith;
          in_memory = omega arith;
          contents = r.contents;
        },
      )

  pub end_received :
      (l' : Link) × (exchange (message (next_cookie last) 0 0 0) l ≡ ok (last, l'))
      × (l'.thread.phase ≡ Phase.waiting)
      × (l'.thread.apu.state ≡ ApuState.executing)
      × (l'.thread.apu.ram.cells ≡ cells)
  unfolding after_handle
  end_received =
      let m = message (next_cookie last) 0 0 0 in
      let apu = posted l m in
      let fresh = next_cookie_fresh last r.last_byte in
      (
        record l { thread = record { phase = Phase.waiting; apu = ended apu } },
        exchange-after_handle l m (ended apu) r.phase r.input r.output Outcome.waiting (
              handle-end apu r.input (omega arith) (inl (ground arith))
                (omega arith ∙ ap next_cookie (sym r.last_port0)) (omega arith))
            ∙ ap
                (λ v.
                  ok (v, record l { thread = record { phase = Phase.waiting; apu = ended apu } }))
                r.echo,
        refl,
        refl,
        r.contents,
      )
