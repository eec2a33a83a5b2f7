-- ===== src/AddressDecoder.antt =====
-- src/snes_addrdecoder.c: from the 24-bit addresses of the processor to a device and an address
-- within it, for a LoROM cartridge.
pub mod Regions
pub mod Spans
use snesemu.Base.{
  ℕ, ◌+◌, ◌-◌, ◌*◌, ◌/◌, ◌%◌, ◌^◌, Bool, false, true, Option, none, some, bit_and, ◌||◌, u8, u16,
  u32, sub32, leb, ◌==◌, within, ◌<<<◌, ◌>>>◌, if◌then◌else◌,
}
use snesemu.Rom
use snesemu.Rom.{Rom, RomType}

pub data MemType : Type 0 where
  rom sram wram ppu1_apu ppu2_dma old_pad cart_specific other : MemType

pub record Address : Type 0 where
  pub type : MemType
  pub dec_addr : ℕ

-- Only LoROM is supported.
pub supported : RomType → Bool
supported RomType.hirom = false
supported RomType.lorom = true
supported RomType.unknown = false

-- `snes_addrdecoder_init`; the flag is what `malloc` gives.
unfoldable pub init : Bool → Rom → Option RomType
unfolding supported
init false image = none
init true image = if supported (Rom.get_type image) then some (Rom.get_type image) else none

-- The differences are taken in `int` and may be below zero; the result is a uint32_t.
unfoldable pub trans_sram_addr : ℕ → ℕ → ℕ
trans_sram_addr bank offset =
    if within 0x70 bank 0x7d
    then (bank - 0x70) * 0x8000 + offset
    else sub32 (0x70000 + bank * 0x8000 + offset) (0xfe * 0x8000)

unfoldable pub trans_wram_addr : ℕ → ℕ → ℕ
trans_wram_addr bank offset =
    let addr = (bank <<< 16) + offset in
    if within 0x00 bank 0x3f then offset else sub32 addr 0x7e0000

unfoldable pub trans_rom_addr : ℕ → ℕ → ℕ
trans_rom_addr bank offset = sub32 (bit_and bank 0x7f * 0x8000 + offset) 0x8000

unfoldable pub trans_apu_addr : ℕ → ℕ → ℕ
trans_apu_addr bank offset = sub32 offset 0x2140

abbrev address : MemType → ℕ → Address
address type dec_addr = record { type = type; dec_addr = dec_addr }

-- The banks 0x00 to 0x3f and 0x80 to 0xbf. Empty branches leave `OTHER` and the address as it is.
unfoldable pub decode_system : ℕ → ℕ → ℕ → Address
decode_system bank offset addr =
    if within 0x0000 offset 0x1fff
    then address MemType.wram (trans_wram_addr bank offset)
    else if within 0x2000 offset 0x20ff
    then address MemType.other addr
    else if within 0x2100 offset 0x213f
    then address MemType.other addr
    else if within 0x2140 offset 0x217f
    then address MemType.ppu1_apu (trans_apu_addr bank offset)
    else if within 0x2180 offset 0x2fff
    then address MemType.other addr
    else if within 0x2200 offset 0x2fff
    then address MemType.other addr
    else if within 0x3000 offset 0x3fff
    then address MemType.cart_specific addr
    else if within 0x4000 offset 0x40ff
    then address MemType.old_pad addr
    else if within 0x4100 offset 0x41ff
    then address MemType.other addr
    else if within 0x4200 offset 0x44ff
    then address MemType.ppu2_dma addr
    else if within 0x4500 offset 0x5fff
    then address MemType.other addr
    else if within 0x6000 offset 0x7fff
    then address MemType.cart_specific addr
    else if within 0x8000 offset 0xffff
    then address MemType.rom (trans_rom_addr bank offset)
    else address MemType.other addr

-- A cartridge bank with save memory below 0x8000 and the image above.
unfoldable pub decode_save : ℕ → ℕ → Address
decode_save bank offset =
    if within 0x0000 offset 0x7fff
    then address MemType.sram (trans_sram_addr bank offset)
    else address MemType.rom (trans_rom_addr bank offset)

-- The regions, by the bank and the offset of `addr`.
unfoldable pub decode_parts : ℕ → ℕ → ℕ → Address
decode_parts bank offset addr =
    if within 0x00 bank 0x3f || within 0x80 bank 0xbf
    then decode_system bank offset addr
    else if within 0x40 bank 0x6f || within 0xc0 bank 0xef
    then address MemType.rom (trans_rom_addr bank offset)
    else if within 0x70 bank 0x7d || within 0xf0 bank 0xfd
    then decode_save bank offset
    else if bank == 0x7e || bank == 0x7f
    then address MemType.wram (trans_wram_addr bank offset)
    else if bank == 0xfe || bank == 0xff
    then decode_save bank offset
    else address MemType.other addr

unfoldable pub decode : ℕ → Address
decode addr = decode_parts (u8 (addr >>> 16)) (u16 addr) addr
