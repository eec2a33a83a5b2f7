-- ===== src/Apu/Link.antt =====
-- The processor and the sound unit, joined at the ports: src/snes_bus.c holds a pointer to the unit,
-- and both sides act on one port.
pub mod Commands
pub mod Steps
pub mod Upload
use snesemu.Base.{
  ℕ, ◌+◌, ◌-◌, ◌%◌, ◌≡◌, refl, ap, ◌∙◌, ◌<◌, ◌≤◌, u8, ok, Result, and_then, List, [], ◌∷◌, arith,
}
use snesemu.Ram
use snesemu.Ram.{update}
use snesemu.Apu.Port
use snesemu.Apu.Port.{ApuPort}
use snesemu.AddressDecoder.{MemType, decode}
use snesemu.AddressDecoder.Regions.{decode_ports}
use snesemu.Bus
use snesemu.Bus.{Bus}
use snesemu.Apu.{Apu, TransferData}
use snesemu.Apu.Thread.{Thread, Phase, run}

-- The port stands with the unit; the bus is given it for each access.
pub record Link : Type 0 where
  pub bus : Bus
  pub thread : Thread

abbrev pub attached : Link → Bus
attached l = record l.bus { apu_port = l.thread.apu.port }

abbrev pub with_port : Link → ApuPort → Link
with_port l port = record l {
  thread = record l.thread { apu = record l.thread.apu { port = port } };
}

-- A write of the processor to one of the addresses from 0x2140 on.
unfoldable pub put_port : ℕ → ℕ → Link → Result Link
put_port i v l =
    and_then (Bus.write (attached l) (0x2140 + i) v) λ bus. ok (with_port l bus.apu_port)

unfoldable pub see_port : ℕ → Link → Result ℕ
see_port i l = Bus.read (attached l) (0x2140 + i)

-- The processor puts a message on the ports, port 0 last; the thread of the unit makes a round; and
-- the processor reads port 0.
unfoldable pub post : TransferData → Link → Result Link
post d l = and_then (put_port 1 d.port1 l) λ l1.
    and_then (put_port 2 d.port2 l1)
      λ l2. and_then (put_port 3 d.port3 l2) λ l3. put_port 0 d.port0 l3

unfoldable pub exchange : TransferData → Link → Result (ℕ × Link)
exchange d l = and_then (post d l) λ posted. and_then (run posted.thread) λ thread.
    let l' = record posted { thread = thread } in and_then (see_port 0 l') λ echo. ok (echo, l')

-- Messages in a row, with what is read after each.
unfoldable pub exchange_all : List TransferData → Link → Result (List ℕ × Link)
exchange_all [] l = ok ([], l)
exchange_all (d ∷ ds) l =
    and_then (exchange d l)
      λ (echo, l'). and_then (exchange_all ds l') λ (echoes, l''). ok (echo ∷ echoes, l'')

abbrev pub put_input : ApuPort → ℕ → ℕ → ApuPort
put_input port i v = record port {
  input_port = record port.input_port { cells = update port.input_port.cells i (u8 v) };
}

decode-port :
    (i : ℕ) → i < 4 → decode (0x2140 + i) ≡ record { type = MemType.ppu1_apu; dec_addr = i }
decode-port i h =
    ap decode (omega arith)
    ∙ decode_ports 0 (0x2140 + i) (omega arith) (omega arith) (omega arith) (omega arith)
        (omega arith)
    ∙ ap (λ k. record { type = MemType.ppu1_apu; dec_addr = k }) (omega arith)

pub put_port_lem :
    (i v : ℕ) (l : Link)
    → i < 4
    → l.thread.apu.port.input_port.size ≡ 4
    → put_port i v l ≡ ok (with_port l (put_input l.thread.apu.port i v))
unfolding put_port Bus.write Bus.write_device Port.write Ram.write
put_port_lem i v l h size = rw (decode-port i h) (ground arith)

pub see_port_lem :
    (l : Link)
    → l.thread.apu.port.output_port.size ≡ 4
    → see_port 0 l ≡ ok (u8 (l.thread.apu.port.output_port.cells 0))
unfolding see_port Bus.read Bus.read_device Port.read Ram.read
see_port_lem l size = rw (decode-port 0 (omega arith)) (ground arith)

abbrev pub put_message : ApuPort → TransferData → ApuPort
put_message port d =
    put_input (put_input (put_input (put_input port 1 d.port1) 2 d.port2) 3 d.port3) 0 d.port0

pub post_lem :
    (d : TransferData) (l : Link)
    → l.thread.apu.port.input_port.size ≡ 4
    → post d l ≡ ok (with_port l (put_message l.thread.apu.port d))
unfolding post
post_lem d l size =
    let p1 = put_input l.thread.apu.port 1 d.port1 in
    let p2 = put_input p1 2 d.port2 in
    let p3 = put_input p2 3 d.port3 in
    rw (put_port_lem 1 d.port1 l (omega arith) size) (
      rw (put_port_lem 2 d.port2 (with_port l p1) (omega arith) size) (
        rw (put_port_lem 3 d.port3 (with_port l p2) (omega arith) size)
          (put_port_lem 0 d.port0 (with_port l p3) (omega arith) size)))
