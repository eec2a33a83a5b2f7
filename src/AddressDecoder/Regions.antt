-- ===== src/AddressDecoder/Regions.antt =====
-- Where each kind of address goes, region by region.
use snesemu.Base.{
  sym, ap, ◌∙◌, ℕ, ◌/◌, ◌+◌, ◌-◌, ◌*◌, ◌%◌, ◌≤◌, ◌<◌, ◌≡◌, ◌⊎◌, arith, u8, u16, ◌<<<◌, ◌>>>◌,
}
use snesemu.Base.Bits.{bit_and_seven_bits}
use snesemu.AddressDecoder.{
  MemType, Address, trans_sram_addr, trans_wram_addr, trans_apu_addr, trans_rom_addr, decode_system,
  decode_save, decode_parts, decode,
}

-- The address of `offset` in `bank`.
abbrev pub long : ℕ → ℕ → ℕ
long bank offset = (bank <<< 16) + offset

abbrev pub at : MemType → ℕ → Address
at type dec_addr = record { type = type; dec_addr = dec_addr }

-- Both forms of the difference give sixteen blocks of 32 KB.
pub trans_sram_blocks :
    (bank offset : ℕ)
    → bank < 256
    → 0x70 ≤ bank % 128
    → (bank < 0x7e) ⊎ (0xf0 ≤ bank)
    → offset < 0x8000
    → trans_sram_addr bank offset ≡ bank % 16 * 0x8000 + offset
unfolding trans_sram_addr
trans_sram_blocks bank offset hb b e o = ground arith

decode_save-lower :
    (bank offset : ℕ)
    → offset < 0x8000
    → decode_save bank offset ≡ at MemType.sram (trans_sram_addr bank offset)
unfolding decode_save
decode_save-lower bank offset h = ground arith

module _ (bank offset : ℕ) (hb : bank < 256) (ho : offset < 65536) where
  pub u8-long : u8 (long bank offset >>> 16) ≡ bank
  u8-long = omega arith

  pub u16-long : u16 (long bank offset) ≡ offset
  u16-long = omega arith

  decode-long : decode (long bank offset) ≡ decode_parts bank offset (long bank offset)
  unfolding decode
  decode-long = rw (u8-long, u16-long)

  -- The first 8 KB of the banks below 0x40 are the first 8 KB of the work memory.
  pub decode_low_ram :
      bank < 0x40 → offset < 0x2000 → decode (long bank offset) ≡ at MemType.wram offset
  unfolding decode_parts decode_system decode_save trans_wram_addr trans_rom_addr trans_apu_addr
  decode_low_ram b o = rw decode-long (ground arith)

  -- The banks 0x7e and 0x7f are the 128 KB of the work memory.
  pub decode_work_ram :
      0x7e ≤ bank
      → bank < 0x80
      → decode (long bank offset) ≡ at MemType.wram (bank % 2 * 0x10000 + offset)
  unfolding decode_parts decode_system decode_save trans_wram_addr trans_rom_addr trans_apu_addr
  decode_work_ram b c = rw decode-long (ground arith)

  work_ram : offset < 0x2000 → decode (long 0x7e offset) ≡ at MemType.wram offset
  unfolding decode decode_parts decode_system decode_save trans_wram_addr trans_rom_addr
      trans_apu_addr
  work_ram o = ground arith

  -- The first 8 KB of each bank below 0x40 are the first 8 KB of bank 0x7e, which is the start of
  -- the work memory.
  pub decode_shared_ram :
      bank < 0x40
      → offset < 0x2000
      → (decode (long bank offset) ≡ decode (long 0x7e offset))
        × (decode (long 0x7e offset) ≡ at MemType.wram offset)
  decode_shared_ram b o = (decode_low_ram b o ∙ sym (work_ram o), work_ram o)

  -- In the banks 0x80 to 0xbf the same offsets go past the 128 KB of the work memory.
  pub decode_low_ram_mirror :
      0x80 ≤ bank
      → bank < 0xc0
      → offset < 0x2000
      → decode (long bank offset) ≡ at MemType.wram ((bank % 128 + 2) * 0x10000 + offset)
  unfolding decode_parts decode_system decode_save trans_wram_addr trans_rom_addr trans_apu_addr
  decode_low_ram_mirror b c o = rw decode-long (ground arith)

  -- The upper half of each bank but 0x7e and 0x7f is the block of 32 KB of the image that the bank
  -- modulo 128 says, so that a bank below 0x7e and the one 0x80 higher share it.
  pub decode_upper :
      0x8000 ≤ offset
      → (bank < 0x7e) ⊎ (0x80 ≤ bank)
      → decode (long bank offset) ≡ at MemType.rom (bank % 128 * 0x8000 + offset % 0x8000)
  unfolding decode_parts decode_system decode_save trans_wram_addr trans_rom_addr trans_apu_addr
  decode_upper o b = rw decode-long (ground (arith, bit_and_seven_bits bank))

  is_save_bank :
      0x70 ≤ bank % 128
      → (bank < 0x7e) ⊎ (0xf0 ≤ bank)
      → decode (long bank offset) ≡ decode_save bank offset
  unfolding decode_parts decode_system decode_save trans_wram_addr trans_rom_addr trans_apu_addr
  is_save_bank b e = rw decode-long (ground arith)

  -- Save memory is sixteen blocks of 32 KB, by the bank modulo 16, so that a bank below 0x7e and the
  -- one 0x80 higher share a block.
  pub decode_sram :
      0x70 ≤ bank % 128
      → (bank < 0x7e) ⊎ (0xf0 ≤ bank)
      → offset < 0x8000
      → decode (long bank offset) ≡ at MemType.sram (bank % 16 * 0x8000 + offset)
  decode_sram b e o =
      rw (is_save_bank b e, decode_save-lower bank offset o, trans_sram_blocks bank offset hb b e o)

  -- The 64 bytes from 0x2140 on are the ports of the sound unit.
  pub decode_ports :
      bank % 128 < 0x40
      → 0x2140 ≤ offset
      → offset < 0x2180
      → decode (long bank offset) ≡ at MemType.ppu1_apu (offset - 0x2140)
  unfolding decode_parts decode_system decode_save trans_wram_addr trans_rom_addr trans_apu_addr
  decode_ports b o p = rw decode-long (ground arith)

pub decode_low :
    (a : ℕ) → a < 0x400000 → a % 65536 < 0x2000 → decode a ≡ at MemType.wram (a % 65536)
decode_low a h o =
    ap decode split
    ∙ decode_low_ram (a / 65536) (a % 65536) (omega arith) (omega arith) (omega arith) o
  where
    split : a ≡ long (a / 65536) (a % 65536)
    split = omega arith
