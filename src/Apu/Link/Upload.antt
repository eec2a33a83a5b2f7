-- ===== src/Apu/Link/Upload.antt =====
-- The upload of a program: what the messages of the protocol leave in the unit's memory.
use snesemu.Base.{ℕ, suc, ◌+◌, ◌/◌, ◌≡◌, refl, ◌≢◌, ◌⊎◌, inl, u8, u16, ok, List, [], ◌∷◌, arith}
use snesemu.Apu.{ApuState, Outcome, get_address}
use snesemu.Apu.Messages.{next_cookie_fresh}
use snesemu.Apu.Handle.{begun, handle-init}
use snesemu.Apu.Thread.{Phase, after_handle}
use snesemu.Apu.Thread.Invariant.{IsFit}
use snesemu.Apu.Link.Commands.{Command, message, encode, echoes, load, IsReceiving}
use snesemu.Apu.Link.{Link, exchange, exchange_all}
use snesemu.Apu.Link.Steps.{
  posted, answered, exchange-after_handle, byte_received, address_received, end_received,
}

-- The next byte counts on from the last message, or is the first.
abbrev Counts : ℕ → ℕ → Type 0
Counts last i = ((u8 i ≡ 0) × (last ≢ 0)) ⊎ (u8 i ≡ last + 1)

-- From the middle of an upload, the messages of the commands that are left.
upload_rest :
    (cs : List Command) (i : ℕ) {l : Link} {last a : ℕ} {cells : ℕ → ℕ}
    → IsReceiving l last a cells
    → Counts last i
    → (l' : Link) × (exchange_all (encode last i cs) l ≡ ok (echoes last i cs, l'))
      × (l'.thread.phase ≡ Phase.waiting)
      × (l'.thread.apu.state ≡ ApuState.executing)
      × (l'.thread.apu.ram.cells ≡ load cells a cs)
unfolding encode echoes load exchange_all
upload_rest [] i r c = let (l', e, p, s, m) = end_received r in (l', rw e refl, p, s, m)
upload_rest (Command.byte b ∷ cs) i r c =
    let (l1, e, r1) = byte_received r (u8 i) b (omega arith) c in
    let (l', es, p, s, m) = upload_rest cs (suc i) r1 (ground arith) in
    (l', rw e (rw es refl), p, s, m)
upload_rest (Command.jump a' ∷ cs) i {last = last} r c =
    let (l1, e, r1) = address_received r a' in
    let (l', es, p, s, m) =
      upload_rest cs 0 r1 (inl (omega arith, (next_cookie_fresh last r.last_byte).0)) in
    (l', rw e (rw es refl), p, s, m)

first_received :
    (l : Link) (a : ℕ)
    → l.thread.phase ≡ Phase.polling
    → l.thread.apu.state ≡ ApuState.not_init
    → IsFit l.thread.apu
    → l.thread.apu.last_data.port0 ≢ 0xcc
    → (l' : Link) × (exchange (message 0xcc 1 (u8 a) (u8 (a / 256))) l ≡ ok (0xcc, l'))
      × IsReceiving l' 0xcc (u16 a) l.thread.apu.ram.cells
unfolding after_handle get_address
first_received l a polling state fit ne =
    let m = message 0xcc 1 (u8 a) (u8 (a / 256)) in
    let apu = posted l m in
    (
      answered l (begun apu),
      exchange-after_handle l m (begun apu) polling fit.inputs fit.outputs Outcome.returned
          (handle-init apu fit.inputs fit.outputs (omega arith) ne (ground arith)),
      record {
        phase = refl;
        state = refl;
        input = fit.inputs;
        output = fit.outputs;
        memory = fit.memory;
        last_port0 = omega arith;
        last_byte = omega arith;
        echo = omega arith;
        address = omega arith;
        in_memory = omega arith;
        contents = refl;
      },
    )

-- The upload of any program to a unit that waits for its first transfer, over the bus: with the
-- sizes of the unit's blocks in order, and its last message not yet 0xcc, every message is taken
-- without a fault and echoed but the last, and in the end the unit executes, its thread waits for a
-- power-down, and its memory is what the program asks for.
pub exchange_all-encode :
    (cs : List Command) (l : Link) (a : ℕ)
    → l.thread.phase ≡ Phase.polling
    → l.thread.apu.state ≡ ApuState.not_init
    → IsFit l.thread.apu
    → l.thread.apu.last_data.port0 ≢ 0xcc
    → (l' : Link) × (exchange_all (message 0xcc 1 (u8 a) (u8 (a / 256)) ∷ encode 0xcc 0 cs) l
        ≡ ok (0xcc ∷ echoes 0xcc 0 cs, l'))
      × (l'.thread.phase ≡ Phase.waiting)
      × (l'.thread.apu.state ≡ ApuState.executing)
      × (l'.thread.apu.ram.cells ≡ load l.thread.apu.ram.cells (u16 a) cs)
unfolding exchange_all
exchange_all-encode cs l a polling state fit ne =
    let (l1, e, r) = first_received l a polling state fit ne in
    let (l', es, p, s, m) = upload_rest cs 0 r (inl (omega arith, omega arith)) in
    (l', rw e (rw es refl), p, s, m)
