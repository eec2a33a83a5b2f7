-- ===== src/Rom/Header.antt =====
-- Which header an image is given.
use snesemu.Base.{
  ℕ, ◌+◌, ◌*◌, ◌/◌, ◌%◌, ◌<◌, ◌≤◌, ◌≡◌, ◌≢◌, refl, ◌⊎◌, inl, inr, Bool, true, false, Option, some,
  ok, err, undefined, arith, if◌then◌else◌, Bool-cases, ltb, ◌==◌, ◌-◌,
}
use snesemu.Rom.{
  Rom, RomType, Image, init, is_headered, init_header, init_lorom, copy_header, header_at,
}
use snesemu.Rom.Checksum.{byte_sum, calc_checksum_lem}

if-ok : {A : Type 0} (b : Bool) (x y : A) → (a : A) × ((if b then ok x else ok y) ≡ ok a)
if-ok true x y = (x, refl)
if-ok false x y = (y, refl)

init_header_short :
    (rom : ℕ → ℕ) (size mapped : ℕ) → mapped < 0x10000 → init_header rom size mapped ≡ err undefined
unfolding init_header copy_header
init_header_short rom size mapped h = ground arith

copy_header_lem :
    (rom : ℕ → ℕ) (mapped offset : ℕ)
    → offset + 64 ≤ mapped
    → copy_header rom mapped offset ≡ ok (header_at rom offset)
unfolding copy_header
copy_header_lem rom mapped offset h = ground arith

init_header_long :
    (rom : ℕ → ℕ) (size mapped : ℕ)
    → 0x10000 ≤ mapped
    → (result : Option Rom) × (init_header rom size mapped ≡ ok result)
unfolding init_header init_lorom
init_header_long rom size mapped h =
    rw (copy_header_lem rom mapped 0xffc0 (omega arith))
      (rw (copy_header_lem rom mapped 0x7fc0 (omega arith)) (if-ok _ _ _))

-- `snes_rom_init` of a file that can be opened, is not empty, and is mapped by pages of 4096 bytes: it
-- has a result, which may be that there is no header, exactly when the file is longer than 60 KB and
-- has no copier's header, or is longer than 64 KB. Every smaller file, such as a LoROM of 32 KB, is
-- read past its mapping, since a HiROM header is copied before the type is known.
pub init_ends :
    (image : Image)
    → 0 < image.size
    → image.mapped ≡ (image.size + 4095) / 4096 * 4096
    → (((0x10000 < image.size) ⊎ ((0xf000 < image.size) × (image.size % 1024 ≡ 0)))
        × (result : Option Rom) × (init (some image) ≡ ok result))
      ⊎ (((image.size ≤ 0xf000) ⊎ ((image.size ≤ 0x10000) × (image.size % 1024 ≢ 0)))
          × (init (some image) ≡ err undefined))
unfolding init is_headered
init_ends image some_bytes pages = elim (Bool-cases (image.size % 1024 == 0)) [
  | inl plain ↦ elim (Bool-cases (ltb 0xf000 image.size)) [
    | inl large ↦
        let (result, found) = init_header_long image.bytes image.size image.mapped (ground arith) in
        inl (inr (ground arith, ground arith), result, rw plain found)
    | inr small ↦ inr (
      inl (ground arith),
      rw plain (init_header_short image.bytes image.size image.mapped (ground arith)),
    )
  ]
  | inr headered ↦ elim (Bool-cases (ltb image.size 512)) [
    | inl tiny ↦ inr (inl (ground arith), rw headered (rw tiny refl))
    | inr behind ↦ elim (Bool-cases (ltb 0x10000 image.size)) [
      | inl large ↦
          let (result, found) =
            init_header_long (λ i. image.bytes (512 + i)) (image.size - 512) (image.mapped - 512)
              (ground arith) in
          inl (inl (ground arith), result, rw headered (rw behind found))
      | inr small ↦ inr (
        inr (ground arith, ground arith),
        rw headered (
            rw behind (
              init_header_short (λ i. image.bytes (512 + i)) (image.size - 512) (image.mapped - 512)
                (ground arith))),
      )
    ]
  ]
]

-- When an image is accepted, its header carries the sum of its bytes modulo 65536 as the checksum,
-- and is the one at 0xffc0 of a HiROM or the one at 0x7fc0 of a LoROM.
pub init_header_checksum :
    (rom : ℕ → ℕ) (size mapped : ℕ) {result : Rom}
    → init_header rom size mapped ≡ ok (some result)
    → (result.header.checksum ≡ byte_sum rom size 0 % 65536)
      × (((result.type ≡ RomType.hirom) × (result.header ≡ header_at rom 0xffc0))
          ⊎ ((result.type ≡ RomType.lorom) × (result.header ≡ header_at rom 0x7fc0)))
unfolding init_header init_lorom copy_header
init_header_checksum rom size mapped h =
    let e = calc_checksum_lem rom size in (ground arith, ground arith)
