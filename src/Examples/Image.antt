-- ===== src/Examples/Image.antt =====
-- Runs of the detection of a header and of breakpoints.
use snesemu.Base.{
  Option, ◌<◌, ◌≤◌, ◌≢◌, ap, ℕ, ◌+◌, ◌%◌, ◌≡◌, refl, true, [], ◌∷◌, ok, err, undefined, some, arith,
  ◌⊎◌, zero, suc,
}
use snesemu.Rom
use snesemu.Rom.{Rom, RomType, Image, init_header, copy_header, header_at}
use snesemu.Rom.Checksum.{byte_sum, calc_checksum_lem}
use snesemu.Rom.Header.{init_ends, init_header_checksum}
use snesemu.Cpu.Breakpoints.{set_breakpoint, find_breakpoint}
use snesemu.Cpu.Breakpoints.Slots.{free_slot, find-set_breakpoint}

-- A LoROM of 32 KB, mapped by eight pages.
abbrev small_image : Image
small_image = record { size = 0x8000; mapped = 0x8000; bytes = λ i. 0 }

init_ends_example :
    (((0x10000 < 0x8000) ⊎ ((0xf000 < 0x8000) × (0x8000 % 1024 ≡ 0)))
      × (result : Option Rom) × (Rom.init (some small_image) ≡ ok result))
    ⊎ (((0x8000 ≤ 0xf000) ⊎ ((0x8000 ≤ 0x10000) × (0x8000 % 1024 ≢ 0)))
        × (Rom.init (some small_image) ≡ err undefined))
init_ends_example = init_ends small_image (omega arith) refl

find-set_breakpoint_example :
    ((set_breakpoint (7 ∷ 0 ∷ 0 ∷ []) 9).1 ≡ true)
    × (find_breakpoint (set_breakpoint (7 ∷ 0 ∷ 0 ∷ []) 9).0 9 ≡ true)
unfolding free_slot find_breakpoint set_breakpoint
find-set_breakpoint_example = find-set_breakpoint (7 ∷ 0 ∷ 0 ∷ []) 9 9 (ground arith)

zeros : (n i : ℕ) → byte_sum (λ k. 0) n i ≡ 0
unfolding byte_sum
zeros zero i = refl
zeros (suc n) i = ap (λ s. 0 + s) (zeros n (i + 1))

-- 64 KB of zeros are taken for a HiROM.
abbrev pub blank_image : Rom
blank_image = record {
  header = header_at (λ k. 0) 0xffc0;
  type = RomType.hirom;
  usefullrom = λ k. 0;
  usefull_size = 0x10000;
  usefull_mapped = 0x10000;
}

pub accepted : init_header (λ k. 0) 0x10000 0x10000 ≡ ok (some blank_image)
unfolding init_header copy_header
accepted = rw (calc_checksum_lem (λ k. 0) 0x10000, zeros 0x10000 0) refl

init_header_checksum_example :
    (blank_image.header.checksum ≡ byte_sum (λ k. 0) 0x10000 0 % 65536)
    × (((RomType.hirom ≡ RomType.hirom) × (blank_image.header ≡ header_at (λ k. 0) 0xffc0))
        ⊎ ((RomType.hirom ≡ RomType.lorom) × (blank_image.header ≡ header_at (λ k. 0) 0x7fc0)))
init_header_checksum_example = init_header_checksum (λ k. 0) 0x10000 0x10000 accepted
