-- ===== src/AddressDecoder/Spans.antt =====
-- How far the addresses go that the decoder hands to each device.
use snesemu.Base.{
  ℕ, Bool, true, false, refl, inl, inr, ◌==◌, ◌||◌, ◌/◌, within, if◌then◌else◌, ◌%◌, ◌≤◌, ◌<◌, ◌≡◌,
  ◌⊎◌, arith, u8, u16, ◌>>>◌,
}
use snesemu.Base.Bits.{bit_and_seven_bits}
use snesemu.AddressDecoder.{
  MemType, Address, trans_sram_addr, trans_wram_addr, trans_apu_addr, trans_rom_addr, decode_system,
  decode_save, decode_parts, decode,
}
use snesemu.AddressDecoder.Regions.{at, trans_sram_blocks}

-- The low RAM mirror of the banks 0x80 to 0xbf, which is translated past the work memory.
abbrev pub InMirror : ℕ → ℕ → Type 0
InMirror bank offset = (0x80 ≤ bank) × (bank < 0xc0) × (offset < 0x2000)

-- The addresses behind the four ports that are still translated as ports.
abbrev pub BehindPorts : ℕ → ℕ → Type 0
BehindPorts bank offset = (bank % 128 < 0x40) × (0x2144 ≤ offset) × (offset < 0x2180)

-- How far the decoder's addresses go outside the regions that leave their device: 128 blocks of
-- 32 KB of an image, sixteen of a save memory, the work memory, and the four ports.
abbrev pub span : MemType → ℕ
span MemType.rom = 0x400000
span MemType.sram = 0x80000
span MemType.wram = 0x20000
span MemType.ppu1_apu = 4
span _ = 0x1000000

pub record Fits (a : Address) : Type 0 where
  pub in_range : a.dec_addr < span a.type

Fits-if : (b : Bool) {x y : Address} → (b ≡ true → Fits x) → Fits y → Fits (if b then x else y)
Fits-if true p q = p refl
Fits-if false p q = q

module _ (bank offset addr : ℕ) (hb : bank < 256) (ho : offset < 65536)
    (ha : addr < 0x1000000) where
  Fits-rom :
      (0x8000 ≤ offset) ⊎ (0 < bank % 128) → Fits (at MemType.rom (trans_rom_addr bank offset))
  unfolding trans_rom_addr
  Fits-rom h = record { in_range = ground (arith, bit_and_seven_bits bank) }

  Fits-upper :
      within 0x8000 offset 0xffff ≡ true → Fits (at MemType.rom (trans_rom_addr bank offset))
  Fits-upper h = Fits-rom (inl (ground arith))

  Fits-system_wram :
      (bank < 0x40) ⊎ (0x2000 ≤ offset)
      → within 0x0000 offset 0x1fff ≡ true
      → Fits (at MemType.wram (trans_wram_addr bank offset))
  unfolding trans_wram_addr
  Fits-system_wram b h = record { in_range = ground arith }

  Fits-apu :
      (offset < 0x2144) ⊎ (0x2180 ≤ offset)
      → within 0x2140 offset 0x217f ≡ true
      → Fits (at MemType.ppu1_apu (trans_apu_addr bank offset))
  unfolding trans_apu_addr
  Fits-apu p h = record { in_range = ground arith }

  Fits-other : Fits (at MemType.other addr)
  Fits-other = record { in_range = ha }

  Fits-cart_specific : Fits (at MemType.cart_specific addr)
  Fits-cart_specific = record { in_range = ha }

  Fits-old_pad : Fits (at MemType.old_pad addr)
  Fits-old_pad = record { in_range = ha }

  Fits-ppu2_dma : Fits (at MemType.ppu2_dma addr)
  Fits-ppu2_dma = record { in_range = ha }

  ruleset fits_rules = (
    Fits-if, Fits-other, Fits-cart_specific, Fits-old_pad, Fits-ppu2_dma, Fits-upper, Fits-apu,
    Fits-system_wram,
  )

  decode_system-Fits :
      (bank < 0x40) ⊎ (0x2000 ≤ offset)
      → (offset < 0x2144) ⊎ (0x2180 ≤ offset)
      → Fits (decode_system bank offset addr)
  unfolding decode_system
  decode_system-Fits b p = search fits_rules depth 20

  Fits-sram :
      (0x70 ≤ bank % 128)
      → (bank < 0x7e) ⊎ (0xf0 ≤ bank)
      → within 0x0000 offset 0x7fff ≡ true
      → Fits (at MemType.sram (trans_sram_addr bank offset))
  Fits-sram b e h = record {
    in_range = rw (trans_sram_blocks bank offset hb b e (ground arith)) (ground arith);
  }

  decode_save-Fits :
      (0x70 ≤ bank % 128) → (bank < 0x7e) ⊎ (0xf0 ≤ bank) → Fits (decode_save bank offset)
  unfolding decode_save
  decode_save-Fits b e = Fits-if _ (Fits-sram b e) (Fits-rom (inr (omega arith)))

  Fits-work_ram :
      (bank == 0x7e || bank == 0x7f) ≡ true → Fits (at MemType.wram (trans_wram_addr bank offset))
  unfolding trans_wram_addr
  Fits-work_ram h = record { in_range = ground arith }

  is_system :
      ¬ (InMirror bank offset)
      → (within 0x00 bank 0x3f || within 0x80 bank 0xbf) ≡ true
      → (bank < 0x40) ⊎ (0x2000 ≤ offset)
  is_system b h = ground arith

  is_port :
      ¬ (BehindPorts bank offset)
      → (within 0x00 bank 0x3f || within 0x80 bank 0xbf) ≡ true
      → (offset < 0x2144) ⊎ (0x2180 ≤ offset)
  is_port b h = ground arith

  is_image :
      (within 0x40 bank 0x6f || within 0xc0 bank 0xef) ≡ true
      → Fits (at MemType.rom (trans_rom_addr bank offset))
  is_image h = Fits-rom (inr (ground arith))

  is_save : (within 0x70 bank 0x7d || within 0xf0 bank 0xfd) ≡ true → Fits (decode_save bank offset)
  is_save h = decode_save-Fits (ground arith) (ground arith)

  is_last : (bank == 0xfe || bank == 0xff) ≡ true → Fits (decode_save bank offset)
  is_last h = decode_save-Fits (ground arith) (ground arith)

  pub decode_parts-Fits :
      ¬ (InMirror bank offset) → ¬ (BehindPorts bank offset) → Fits (decode_parts bank offset addr)
  unfolding decode_parts
  decode_parts-Fits b p =
      Fits-if _ (λ h. decode_system-Fits (is_system b h) (is_port p h))
        (Fits-if _ is_image
          (Fits-if _ is_save (Fits-if _ Fits-work_ram (Fits-if _ is_last Fits-other))))

-- Outside both regions, the decoder's addresses stay within those spans.
pub decode-Fits :
    (addr : ℕ)
    → addr < 0x1000000
    → ¬ (InMirror (addr / 65536) (addr % 65536))
    → ¬ (BehindPorts (addr / 65536) (addr % 65536))
    → Fits (decode addr)
unfolding decode
decode-Fits addr h b p =
    decode_parts-Fits (u8 (addr >>> 16)) (u16 addr) addr (omega arith) (omega arith) h
      (λ m. b (ground arith)) (λ m. p (ground arith))
