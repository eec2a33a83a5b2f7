-- ===== src/Apu/Link/Commands.antt =====
-- The protocol by which a program is uploaded, and what it asks for.
use snesemu.Base.{ℕ, suc, ◌+◌, ◌/◌, ◌≡◌, ◌<◌, u8, u16, List, [], ◌∷◌}
use snesemu.Ram.{update}
use snesemu.Apu.{ApuState, TransferData, next_cookie}
use snesemu.Apu.Thread.{Phase}
use snesemu.Apu.Link.{Link}

-- A program is a row of bytes and of addresses from which the next bytes go.
pub data Command : Type 0 where
  jump byte : ℕ → Command

abbrev pub message : ℕ → ℕ → ℕ → ℕ → TransferData
message port0 port1 port2 port3 = record {
  port0 = port0;
  port1 = port1;
  port2 = port2;
  port3 = port3;
}

-- The messages after one with `last` on port 0, where `i` bytes of the block have been sent: a byte
-- counts on, an address and the end have the cookie of `last`.
unfoldable pub encode : ℕ → ℕ → List Command → List TransferData
encode last i [] = message (next_cookie last) 0 0 0 ∷ []
encode last i (Command.byte b ∷ cs) = message (u8 i) (u8 b) 0 0 ∷ encode (u8 i) (suc i) cs
encode last i (Command.jump a ∷ cs) =
    message (next_cookie last) 1 (u8 a) (u8 (a / 256)) ∷ encode (next_cookie last) 0 cs

-- What the processor reads back: the echo of each message but the last, which is not answered.
unfoldable pub echoes : ℕ → ℕ → List Command → List ℕ
echoes last i [] = last ∷ []
echoes last i (Command.byte b ∷ cs) = u8 i ∷ echoes (u8 i) (suc i) cs
echoes last i (Command.jump a ∷ cs) = next_cookie last ∷ echoes (next_cookie last) 0 cs

-- The memory that the program asks for.
unfoldable pub load : (ℕ → ℕ) → ℕ → List Command → ℕ → ℕ
load cells a [] = cells
load cells a (Command.byte b ∷ cs) = load (update cells a (u8 b)) (u16 (a + 1)) cs
load cells a (Command.jump a' ∷ cs) = load cells (u16 a') cs

-- The unit in the middle of an upload: the message before had `last` on port 0, and the next byte
-- goes to `a`.
pub record IsReceiving (l : Link) (last a : ℕ) (cells : ℕ → ℕ) : Type 0 where
  pub phase : l.thread.phase ≡ Phase.polling
  pub state : l.thread.apu.state ≡ ApuState.inited
  pub input : l.thread.apu.port.input_port.size ≡ 4
  pub output : l.thread.apu.port.output_port.size ≡ 4
  pub memory : l.thread.apu.ram.size ≡ 0x10000
  pub last_port0 : l.thread.apu.last_data.port0 ≡ last
  pub last_byte : last < 256
  pub echo : u8 (l.thread.apu.port.output_port.cells 0) ≡ last
  pub address : l.thread.apu.current_transfert_addr ≡ a
  pub in_memory : a < 0x10000
  pub contents : l.thread.apu.ram.cells ≡ cells
