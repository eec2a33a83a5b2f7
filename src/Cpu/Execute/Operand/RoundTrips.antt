-- ===== src/Cpu/Execute/Operand/RoundTrips.antt =====
-- A value that is stored is fetched again, within the first 8 KB of the work memory.
use snesemu.Base.{ℕ, ◌+◌, ◌%◌, ◌<◌, ◌≤◌, ◌≡◌, refl, ap, ◌∙◌, u8, u32, ◌>>>◌, ok, arith}
use snesemu.Registers.{update8, update16}
use snesemu.Bus
use snesemu.Bus.Memory.{poke, write_bank0, read_low}
use snesemu.Machine.{Machine}
use snesemu.Cpu.Defs.{AddressType, EffectiveAddress}
use snesemu.Cpu.Execute.Operand.{fetch_data, fetch_memory, store_data}

module _ (m : Machine) (a value : ℕ) (low : a + 1 < 0x2000) (fits : 0x2000 ≤ m.bus.wram.size) where
  abbrev stored_word : Machine
  stored_word = record m {
    registers = update16 (update8 m.registers (u8 value)) value;
    bus = poke (poke m.bus a (u8 value)) (a + 1) (u8 (value >>> 8));
  }

  next : u32 (a + 1) ≡ a + 1
  next = omega arith

  store_word :
      (raw : EffectiveAddress)
      → store_data (record raw { type = AddressType.simple; simple_address = a }) value 2 m
        ≡ ok (tt, stored_word)
  unfolding store_data
  store_word raw = rw (write_bank0 m.bus a (u8 value) (omega arith) fits) (
      rw next (rw (write_bank0 (poke m.bus a (u8 value)) (a + 1) (u8 (value >>> 8)) low fits) refl))

  low_cell : u8 (stored_word.bus.wram.cells (a % 65536)) ≡ u8 value
  low_cell = ground arith

  high_cell : u8 (stored_word.bus.wram.cells ((a + 1) % 65536)) ≡ u8 (value >>> 8)
  high_cell = ground arith

  read_first : Bus.read stored_word.bus a ≡ ok (u8 value)
  read_first = read_low stored_word.bus a (omega arith) (omega arith) fits ∙ ap (λ v. ok v) low_cell

  read_second : Bus.read stored_word.bus (u32 (a + 1)) ≡ ok (u8 (value >>> 8))
  read_second =
      ap (λ k. Bus.read stored_word.bus k) next
      ∙ read_low stored_word.bus (a + 1) (omega arith) (omega arith) fits
      ∙ ap (λ v. ok v) high_cell

  fetch_word :
      (raw : EffectiveAddress)
      → value < 65536
      → fetch_data (record raw { type = AddressType.simple; simple_address = a }) 2 stored_word
        ≡ ok value
  unfolding fetch_data fetch_memory
  fetch_word raw range = rw (read_first, read_second) (ap (λ v. ok v) (omega arith))

-- A word stored at an address of the first 8 KB of the work memory, all of it below 0x2000: the
-- store succeeds, sets N and Z, and changes no other register; and the word is fetched again.
pub fetch_data-store_data :
    (m : Machine) (a value : ℕ) (raw : EffectiveAddress)
    → a + 1 < 0x2000
    → 0x2000 ≤ m.bus.wram.size
    → value < 65536
    → let eff = record raw { type = AddressType.simple; simple_address = a } in
      (m' : Machine) × (store_data eff value 2 m ≡ ok (tt, m'))
      × (m'.registers ≡ update16 (update8 m.registers (u8 value)) value)
      × (fetch_data eff 2 m' ≡ ok value)
fetch_data-store_data m a value raw low fits range = (
  stored_word m a value low fits,
  store_word m a value low fits raw,
  refl,
  fetch_word m a value low fits raw range,
)
