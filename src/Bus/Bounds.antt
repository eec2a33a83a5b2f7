-- ===== src/Bus/Bounds.antt =====
-- Which reads of the processor stay within their devices.
use snesemu.Base.{
  ℕ, ◌-◌, ◌/◌, ◌%◌, ◌<◌, ◌≤◌, ◌≡◌, ◌⊎◌, inl, inr, ap, ◌∙◌, refl, ◌&&◌, Bool-cases, leb, ltb, u8, ok,
  err, undefined, assert_failed, arith,
}
use snesemu.Ram
use snesemu.Ram.Laws.{read_out_of_range}
use snesemu.Rom
use snesemu.Apu.Port
use snesemu.AddressDecoder.{MemType, decode}
use snesemu.AddressDecoder.Regions.{long, decode_ports}
use snesemu.AddressDecoder.Spans.{InMirror, BehindPorts, span, decode-Fits}
use snesemu.Bus.{Bus, read, read_device}
use snesemu.Bus.Memory.{read_low_ram_mirror}

-- How a read ends: with a byte, which needs an address outside the two regions that leave their
-- device; in one of these regions, with the assertion of the work memory or of a port; behind a save
-- memory that has fewer than sixteen blocks of 32 KB, with its assertion; or behind an image that is
-- mapped for less than 4 MB.
pub data ReadEnds (bus : Bus) (addr : ℕ) : Type 0 where
  value :
      (v : ℕ)
      → v < 256
      → ¬ (InMirror (addr / 65536) (addr % 65536))
      → ¬ (BehindPorts (addr / 65536) (addr % 65536))
      → read bus addr ≡ ok v
      → ReadEnds bus addr
  past_work_memory :
      InMirror (addr / 65536) (addr % 65536) → read bus addr ≡ err assert_failed → ReadEnds bus addr
  past_ports :
      BehindPorts (addr / 65536) (addr % 65536)
      → read bus addr ≡ err assert_failed
      → ReadEnds bus addr
  past_save_memory :
      (decode addr).type ≡ MemType.sram
      → bus.sram.size ≤ (decode addr).dec_addr
      → (decode addr).dec_addr < 0x80000
      → read bus addr ≡ err assert_failed
      → ReadEnds bus addr
  past_image :
      (decode addr).type ≡ MemType.rom
      → bus.rom.usefull_mapped ≤ (decode addr).dec_addr
      → (decode addr).dec_addr < 0x400000
      → read bus addr ≡ err undefined
      → ReadEnds bus addr

-- What a device gives within the decoder's spans.
data DeviceEnds (bus : Bus) (type : MemType) (d : ℕ) : Type 0 where
  found : (v : ℕ) → v < 256 → read_device bus type d ≡ ok v → DeviceEnds bus type d
  past_sram :
      type ≡ MemType.sram
      → bus.sram.size ≤ d
      → d < 0x80000
      → read_device bus type d ≡ err assert_failed
      → DeviceEnds bus type d
  past_rom :
      type ≡ MemType.rom
      → bus.rom.usefull_mapped ≤ d
      → d < 0x400000
      → read_device bus type d ≡ err undefined
      → DeviceEnds bus type d

module _ (bus : Bus) (work : bus.wram.size ≡ 0x20000)
    (ports : bus.apu_port.output_port.size ≡ 4) where
  device_ends : (type : MemType) (d : ℕ) → d < span type → DeviceEnds bus type d
  unfolding read_device Rom.read Ram.read Port.read
  device_ends MemType.rom d h = elim (Bool-cases (ltb d bus.rom.usefull_mapped)) [
    | inl within ↦ DeviceEnds.found (u8 (bus.rom.usefullrom d)) (omega arith) (rw within refl)
    | inr past ↦ DeviceEnds.past_rom refl (ground arith) h (rw past refl)
  ]
  device_ends MemType.sram d h = elim (Bool-cases (ltb d bus.sram.size)) [
    | inl within ↦ DeviceEnds.found (u8 (bus.sram.cells d)) (omega arith) (rw within refl)
    | inr past ↦ DeviceEnds.past_sram refl (ground arith) h (rw past refl)
  ]
  device_ends MemType.wram d h =
      DeviceEnds.found (u8 (bus.wram.cells d)) (omega arith) (ground arith)
  device_ends MemType.ppu1_apu d h =
      DeviceEnds.found (u8 (bus.apu_port.output_port.cells d)) (omega arith) (ground arith)
  device_ends MemType.ppu2_dma d h = DeviceEnds.found 0 (omega arith) refl
  device_ends MemType.old_pad d h = DeviceEnds.found 0 (omega arith) refl
  device_ends MemType.cart_specific d h = DeviceEnds.found 0 (omega arith) refl
  device_ends MemType.other d h = DeviceEnds.found 0 (omega arith) refl

  module _ (addr : ℕ) (h : addr < 0x1000000) where
    split : addr ≡ long (addr / 65536) (addr % 65536)
    split = omega arith

    read-InMirror : InMirror (addr / 65536) (addr % 65536) → read bus addr ≡ err assert_failed
    read-InMirror m =
        ap (λ a. read bus a) split
        ∙ read_low_ram_mirror bus (addr / 65536) (addr % 65536) work m.0 m.1 m.2

    read-BehindPorts : BehindPorts (addr / 65536) (addr % 65536) → read bus addr ≡ err assert_failed
    unfolding read read_device Port.read
    read-BehindPorts b =
        ap (λ a. read bus a) split
        ∙ rw
            (decode_ports (addr / 65536) (addr % 65536) (omega arith) (omega arith) b.0
              (omega arith) b.2)
            (read_out_of_range bus.apu_port.output_port (addr % 65536 - 0x2140) (omega arith))

InMirror-cases : (bank offset : ℕ) → InMirror bank offset ⊎ ¬ (InMirror bank offset)
InMirror-cases bank offset =
    elim (Bool-cases (leb 0x80 bank && ltb bank 0xc0 && ltb offset 0x2000)) [
      | inl e ↦ inl (ground arith)
      | inr e ↦ inr (λ m. ground arith)
    ]

BehindPorts-cases : (bank offset : ℕ) → BehindPorts bank offset ⊎ ¬ (BehindPorts bank offset)
BehindPorts-cases bank offset =
    elim (Bool-cases (ltb (bank % 128) 0x40 && leb 0x2144 offset && ltb offset 0x2180)) [
      | inl e ↦ inl (ground arith)
      | inr e ↦ inr (λ m. ground arith)
    ]

DeviceEnds-ReadEnds :
    {bus : Bus} {addr : ℕ}
    → ¬ (InMirror (addr / 65536) (addr % 65536))
    → ¬ (BehindPorts (addr / 65536) (addr % 65536))
    → DeviceEnds bus (decode addr).type (decode addr).dec_addr
    → ReadEnds bus addr
unfolding read
DeviceEnds-ReadEnds a b (DeviceEnds.found v l e) = ReadEnds.value v l a b e
DeviceEnds-ReadEnds a b (DeviceEnds.past_sram t l m e) = ReadEnds.past_save_memory t l m e
DeviceEnds-ReadEnds a b (DeviceEnds.past_rom t l m e) = ReadEnds.past_image t l m e

-- Every read of a 24-bit address, with a work memory of 128 KB and four ports as the program makes
-- them and any image and save memory: it gives a byte, which needs an address outside the low RAM
-- mirror of the banks 0x80 to 0xbf and outside 0x2144 to 0x217f of the banks with ports; in these two
-- regions it fails the assertion of the work memory or of a port; past a save memory of fewer than
-- sixteen blocks of 32 KB it fails the assertion of that memory; or it is past the mapping of an
-- image, which is then below 4 MB.
pub read-ReadEnds :
    (bus : Bus) (addr : ℕ)
    → addr < 0x1000000
    → bus.wram.size ≡ 0x20000
    → bus.apu_port.output_port.size ≡ 4
    → ReadEnds bus addr
read-ReadEnds bus addr h work ports = elim (InMirror-cases (addr / 65536) (addr % 65536)) [
  | inl m ↦ ReadEnds.past_work_memory m (read-InMirror bus work ports addr h m)
  | inr a ↦ elim (BehindPorts-cases (addr / 65536) (addr % 65536)) [
    | inl m ↦ ReadEnds.past_ports m (read-BehindPorts bus work ports addr h m)
    | inr b ↦ DeviceEnds-ReadEnds a b (
        device_ends bus work ports (decode addr).type (decode addr).dec_addr
          (decode-Fits addr h a b).in_range)
  ]
]
