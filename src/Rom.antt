-- ===== src/Rom.antt =====
-- src/snes_rom.c: the image of a cartridge and its header.
pub mod Checksum
pub mod Header
use snesemu.Base.{
  ℕ, zero, suc, ◌+◌, ◌-◌, ◌*◌, ◌%◌, Bool, not, Option, none, some, List, [], ◌∷◌, u8, u16, ltb, leb,
  ◌==◌, ◌<<<◌, ◌||◌, if◌then◌else◌, Result, ok, err, and_then, undefined,
}

pub record InterruptVectors : Type 0 where
  pub cop : ℕ
  pub brk : ℕ
  pub abort : ℕ
  pub nmi : ℕ
  pub reset : ℕ
  pub irq : ℕ

pub record CartHeader : Type 0 where
  pub name : List ℕ
  pub rom_layout : ℕ
  pub cartridge_type : ℕ
  pub rom_size_byte : ℕ
  pub ram_size_byte : ℕ
  pub country_code : ℕ
  pub licensee_code : ℕ
  pub version_number : ℕ
  pub checksum_comp : ℕ
  pub checksum : ℕ
  pub native_vectors : InterruptVectors
  pub emulation_vectors : InterruptVectors

pub data RomType : Type 0 where
  hirom lorom unknown : RomType

-- What `open`, `fstat` and `mmap` give: the size of the file and the bytes that can be read through
-- the mapping, which are `mapped` many. They reach to the end of the last page, and behind the file
-- they are zeros.
pub record Image : Type 0 where
  pub size : ℕ
  pub mapped : ℕ
  pub bytes : ℕ → ℕ

-- `usefullrom` reads the mapped file behind the copier's header, if it has one, and
-- `usefull_mapped` is how far.
pub record Rom : Type 0 where
  pub header : CartHeader
  pub type : RomType
  pub usefullrom : ℕ → ℕ
  pub usefull_size : ℕ
  pub usefull_mapped : ℕ

-- The loop of `snes_rom_calc_checksum` with `left` rounds to go.
unfoldable checksum_loop : (ℕ → ℕ) → ℕ → ℕ → ℕ → ℕ
checksum_loop rom zero i checksum = checksum
checksum_loop rom (suc left) i checksum =
    checksum_loop rom left (i + 1) (u16 (checksum + u8 (rom i)))

unfoldable pub calc_checksum : (ℕ → ℕ) → ℕ → ℕ
unfolding checksum_loop
calc_checksum rom size = checksum_loop rom size 0 0

-- A little-endian `uint16_t` of the image.
abbrev word_at : (ℕ → ℕ) → ℕ → ℕ
word_at rom i = u8 (rom i) + u8 (rom (i + 1)) * 256

bytes_from : (ℕ → ℕ) → ℕ → ℕ → List ℕ
bytes_from rom zero i = []
bytes_from rom (suc n) i = u8 (rom i) ∷ bytes_from rom n (i + 1)

vectors_at : (ℕ → ℕ) → ℕ → InterruptVectors
vectors_at rom i = record {
  cop = word_at rom i;
  brk = word_at rom (i + 2);
  abort = word_at rom (i + 4);
  nmi = word_at rom (i + 6);
  reset = word_at rom (i + 8);
  irq = word_at rom (i + 10);
}

-- The 64 bytes of `struct snes_cart_header`, as they lie in the image.
unfoldable pub header_at : (ℕ → ℕ) → ℕ → CartHeader
unfolding bytes_from vectors_at
header_at rom i = record {
  name = bytes_from rom 21 i;
  rom_layout = u8 (rom (i + 21));
  cartridge_type = u8 (rom (i + 22));
  rom_size_byte = u8 (rom (i + 23));
  ram_size_byte = u8 (rom (i + 24));
  country_code = u8 (rom (i + 25));
  licensee_code = u8 (rom (i + 26));
  version_number = u8 (rom (i + 27));
  checksum_comp = word_at rom (i + 28);
  checksum = word_at rom (i + 30);
  native_vectors = vectors_at rom (i + 36);
  emulation_vectors = vectors_at rom (i + 52);
}

-- `memcpy` of the header; a copy that passes the end of the mapping is undefined.
unfoldable pub copy_header : (ℕ → ℕ) → ℕ → ℕ → Result CartHeader
unfolding header_at
copy_header rom mapped offset =
    if leb (offset + 64) mapped then ok (header_at rom offset) else err undefined

abbrev lorom_offset : ℕ
lorom_offset = 0x7fc0

abbrev hirom_offset : ℕ
hirom_offset = 0xffc0

abbrev detected : (ℕ → ℕ) → ℕ → ℕ → CartHeader → RomType → Rom
detected rom size mapped header type = record {
  header = header;
  type = type;
  usefullrom = rom;
  usefull_size = size;
  usefull_mapped = mapped;
}

-- The second attempt: the image is no HiROM.
unfoldable init_lorom : (ℕ → ℕ) → ℕ → ℕ → ℕ → Result (Option Rom)
unfolding copy_header
init_lorom rom size mapped checksum = and_then (copy_header rom mapped lorom_offset) λ header. ok (
    if not (checksum == header.checksum)
    then none
    else some (detected rom size mapped header RomType.lorom))

-- HiROM is tried first. `none` is the return of -1.
unfoldable pub init_header : (ℕ → ℕ) → ℕ → ℕ → Result (Option Rom)
unfolding calc_checksum copy_header init_lorom
init_header rom size mapped =
    let checksum = calc_checksum rom size in
    and_then (copy_header rom mapped hirom_offset) λ header.
      if not (checksum == header.checksum)
      then init_lorom rom size mapped checksum
      else ok (some (detected rom size mapped header RomType.hirom))

unfoldable pub is_headered : ℕ → Bool
is_headered size = not (size % 1024 == 0)

-- `snes_rom_init`; `none` is a failure of `open`, `mmap` or `malloc`. A headered file under 512 bytes
-- has a negative size, and the checksum reads outside the map.
unfoldable pub init : Option Image → Result (Option Rom)
unfolding is_headered init_header
init none = ok none
init (some image) =
    if is_headered image.size
    then if ltb image.size 512
      then err undefined
      else init_header (λ i. image.bytes (512 + i)) (image.size - 512) (image.mapped - 512)
    else init_header image.bytes image.size image.mapped

unfoldable pub get_type : Rom → RomType
get_type rom =
    if rom.header.rom_layout == 0x20 || rom.header.rom_layout == 0x30
    then RomType.lorom
    else if rom.header.rom_layout == 0x21 || rom.header.rom_layout == 0x31
    then RomType.hirom
    else RomType.unknown

-- `0x400 << n` in `int`; from 21 on the shift overflows, which is undefined.
abbrev pub kilobytes : ℕ → Result ℕ
kilobytes n = if ltb n 21 then ok (0x400 <<< n) else err undefined

unfoldable get_rom_size : Rom → Result ℕ
get_rom_size rom = kilobytes rom.header.rom_size_byte

unfoldable pub get_sram_size : Rom → Result ℕ
get_sram_size rom = kilobytes rom.header.ram_size_byte

-- A read past the mapping is undefined.
unfoldable pub read : Rom → ℕ → Result ℕ
read rom address =
    if ltb address rom.usefull_mapped then ok (u8 (rom.usefullrom address)) else err undefined

unfoldable pub get_emu_interrupt_vectors : Rom → InterruptVectors
get_emu_interrupt_vectors rom = rom.header.emulation_vectors

unfoldable pub get_nat_interrupt_vectors : Rom → InterruptVectors
get_nat_interrupt_vectors rom = rom.header.native_vectors
