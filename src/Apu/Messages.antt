-- ===== src/Apu/Messages.antt =====
-- What the unit takes the bytes of its input ports for.
use snesemu.Base.{◌⊎◌, ℕ, ◌+◌, ◌≡◌, ◌<◌, ◌≤◌, ◌≢◌, u8, ok, arith, ◌==◌, if◌then◌else◌}
use snesemu.Ram
use snesemu.Apu.Port
use snesemu.Apu.Port.{ApuPort}
use snesemu.Apu.{Apu, DataType, TransferData, rank, get_type, get_next_data, next_cookie}

abbrev pub inputs : ApuPort → TransferData
inputs port = record {
  port0 = u8 (port.input_port.cells 0);
  port1 = u8 (port.input_port.cells 1);
  port2 = u8 (port.input_port.cells 2);
  port3 = u8 (port.input_port.cells 3);
}

pub get_next_data_lem :
    (port : ApuPort) → port.input_port.size ≡ 4 → get_next_data port ≡ ok (inputs port)
unfolding get_next_data Port.internal_read Ram.read
get_next_data_lem port h = ground arith

pub next_cookie_fresh :
    (last : ℕ)
    → last < 256
    → (next_cookie last ≢ 0)
      × (next_cookie last ≢ last)
      × (next_cookie last ≢ last + 1)
      × (next_cookie last < 256)
unfolding next_cookie
next_cookie_fresh last h = (ground arith, ground arith, ground arith, ground arith)

module _ (apu : Apu) (d : TransferData) where
  abbrev pub noted : Apu
  noted = record apu { last_data = d }

  -- Nothing new: port 0 has not changed.
  pub get_type-same :
      d.port0 ≡ apu.last_data.port0 → get_type apu d ≡ ok (DataType.transfer_no_change, apu)
  unfolding get_type
  get_type-same h = ground arith

  pub get_type-init :
      d.port0 ≡ 0xcc
      → apu.last_data.port0 ≢ 0xcc
      → rank apu.state < 2
      → get_type apu d ≡ ok (DataType.transfer_init, noted)
  unfolding get_type
  get_type-init h ne s = ground arith

  pub get_type-first :
      d.port0 ≡ 0 → apu.last_data.port0 ≢ 0 → get_type apu d ≡ ok (DataType.transfer_data, noted)
  unfolding get_type
  get_type-first h ne = ground arith

  pub get_type-following :
      d.port0 ≡ apu.last_data.port0 + 1
      → 2 ≤ rank apu.state
      → get_type apu d ≡ ok (DataType.transfer_data, noted)
  unfolding get_type
  get_type-following h s = ground arith

  pub get_type-cookie :
      d.port0 ≡ next_cookie apu.last_data.port0
      → apu.last_data.port0 < 256
      → (2 ≤ rank apu.state) ⊎ (d.port0 ≢ 0xcc)
      → get_type apu d
        ≡ ok (if d.port1 == 0 then DataType.transfer_end else DataType.transfer_new, noted)
  unfolding get_type
  get_type-cookie h b s = ground (arith, next_cookie_fresh apu.last_data.port0 b)
