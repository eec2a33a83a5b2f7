-- ===== src/Bus/Memory.antt =====
-- The memory laws of the bus: what a read returns after a write.
use snesemu.Base.{
  ◌+◌, ◌*◌, err, assert_failed, ℕ, ap, ◌∙◌, ◌≡◌, ◌≢◌, ◌<◌, ◌≤◌, ◌%◌, ◌⊎◌, u8, ok, arith,
}
use snesemu.Ram
use snesemu.Ram.{Ram, update}
use snesemu.Apu.Port
use snesemu.Apu.Port.{ApuPort}
use snesemu.AddressDecoder.{MemType, decode}
use snesemu.AddressDecoder.Regions.{long, decode_low_ram_mirror, decode_low}
use snesemu.Ram.Laws.{read_in_range, read_out_of_range, write_in_range}
use snesemu.Bus.{Bus, read_device, read, write_device, write}

-- The address is of a device that keeps what is written and hands it back.
abbrev pub IsMemory : ℕ → Type 0
IsMemory a = ((decode a).type ≡ MemType.wram) ⊎ ((decode a).type ≡ MemType.sram)

read_device-write_device :
    (bus : Bus) (t : MemType) (d v : ℕ) {bus' : Bus}
    → (t ≡ MemType.wram) ⊎ (t ≡ MemType.sram)
    → write_device bus t d v ≡ ok bus'
    → read_device bus' t d ≡ ok (u8 v)
unfolding read_device write_device Ram.write Ram.read
read_device-write_device bus MemType.wram d v m h = ground arith
read_device-write_device bus MemType.sram d v m h = ground arith
read_device-write_device bus _ d v m h = ground arith

-- A byte written to memory is read back.
pub read-write_self :
    (bus : Bus) (a v : ℕ) {bus' : Bus}
    → IsMemory a
    → write bus a v ≡ ok bus'
    → read bus' a ≡ ok (u8 v)
unfolding read write
read-write_self bus a v m h = read_device-write_device bus (decode a).type (decode a).dec_addr v m h

read_device-write_ne :
    (bus : Bus) (t u : MemType) (d e v : ℕ) {bus' : Bus}
    → (t ≢ u) ⊎ (d ≢ e)
    → write_device bus t d v ≡ ok bus'
    → read_device bus' u e ≡ read_device bus u e
unfolding read_device write_device Ram.write Ram.read Port.read Port.write
read_device-write_ne bus MemType.rom u d e v m h = ground arith
read_device-write_ne bus t MemType.rom d e v m h = ground arith
read_device-write_ne bus t u d e v m h = ground arith

-- A byte written to one cell leaves what is read at every address of another device, or of another
-- cell of the device.
pub read-write_ne :
    (bus : Bus) (a b v : ℕ) {bus' : Bus}
    → ((decode a).type ≢ (decode b).type) ⊎ ((decode a).dec_addr ≢ (decode b).dec_addr)
    → write bus a v ≡ ok bus'
    → read bus' b ≡ read bus b
unfolding read write
read-write_ne bus a b v ne h =
    read_device-write_ne bus (decode a).type (decode b).type (decode a).dec_addr (decode b).dec_addr
      v ne h

-- The devices that a write through the bus can change for the processor's reads.
read_device-write_inert :
    (bus : Bus) (t u : MemType) (d e v : ℕ) {bus' : Bus}
    → t ≢ MemType.wram
    → t ≢ MemType.sram
    → write_device bus t d v ≡ ok bus'
    → read_device bus' u e ≡ read_device bus u e
unfolding read_device write_device Port.read Port.write
read_device-write_inert bus MemType.rom u d e v w s h = ground arith
read_device-write_inert bus t MemType.rom d e v w s h = ground arith
read_device-write_inert bus t u d e v w s h = ground arith

-- A write outside the memories, to the ports of the sound unit included, changes no read.
pub read-write_inert :
    (bus : Bus) (a b v : ℕ) {bus' : Bus}
    → (decode a).type ≢ MemType.wram
    → (decode a).type ≢ MemType.sram
    → write bus a v ≡ ok bus'
    → read bus' b ≡ read bus b
unfolding read write
read-write_inert bus a b v w s h =
    read_device-write_inert bus (decode a).type (decode b).type (decode a).dec_addr
      (decode b).dec_addr v w s h

-- The work memory with one byte changed.
abbrev pub poke : Bus → ℕ → ℕ → Bus
poke bus a v = record bus { wram = record bus.wram { cells = update bus.wram.cells a (u8 v) } }

-- The addresses of the first 8 KB of the work memory in the banks below 0x40.
module _ (bus : Bus) (a : ℕ) (bank : a < 0x400000) (low : a % 65536 < 0x2000)
    (fits : 0x2000 ≤ bus.wram.size) where
  pub read_low : read bus a ≡ ok (u8 (bus.wram.cells (a % 65536)))
  unfolding read read_device
  read_low = rw (decode_low a bank low) (read_in_range bus.wram (a % 65536) (omega arith))

  pub write_low : (v : ℕ) → write bus a v ≡ ok (poke bus (a % 65536) v)
  unfolding write write_device
  write_low v =
      rw (decode_low a bank low) (rw (write_in_range bus.wram (a % 65536) v (omega arith)))

pub write_bank0 :
    (bus : Bus) (a v : ℕ) → a < 0x2000 → 0x2000 ≤ bus.wram.size → write bus a v ≡ ok (poke bus a v)
write_bank0 bus a v l f =
    write_low bus a (omega arith) (omega arith) f v ∙ ap (λ k. ok (poke bus k v)) same
  where
    same : a % 65536 ≡ a
    same = omega arith

-- With the work memory of 128 KB, a read of the low RAM mirror in the banks 0x80 to 0xbf fails the
-- assertion of the bounds.
pub read_low_ram_mirror :
    (bus : Bus) (bank offset : ℕ)
    → bus.wram.size ≡ 0x20000
    → 0x80 ≤ bank
    → bank < 0xc0
    → offset < 0x2000
    → read bus (long bank offset) ≡ err assert_failed
unfolding read read_device
read_low_ram_mirror bus bank offset size b c o =
    rw (decode_low_ram_mirror bank offset (omega arith) (omega arith) b c o)
      (read_out_of_range bus.wram ((bank % 128 + 2) * 0x10000 + offset) (omega arith))
