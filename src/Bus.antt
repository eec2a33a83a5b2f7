-- ===== src/Bus.antt =====
-- src/snes_bus.c: one address space over the cartridge, the work memory and the ports of the sound
-- unit. The bus holds pointers to devices that have no other owner in this model, so their states
-- are its fields.
pub mod Memory
pub mod Bounds
use snesemu.Base.{ℕ, Result, ok, and_then}
use snesemu.Ram
use snesemu.Ram.{Ram}
use snesemu.Rom
use snesemu.Rom.{Rom}
use snesemu.Apu.Port
use snesemu.Apu.Port.{ApuPort}
use snesemu.AddressDecoder.{MemType, decode}

pub record Bus : Type 0 where
  pub rom : Rom
  pub sram : Ram
  pub wram : Ram
  pub apu_port : ApuPort

-- The `switch` of `snes_bus_read`. A type that is not handled is reported and reads 0.
unfoldable pub read_device : Bus → MemType → ℕ → Result ℕ
read_device bus MemType.rom translated_addr = Rom.read bus.rom translated_addr
read_device bus MemType.sram translated_addr = Ram.read bus.sram translated_addr
read_device bus MemType.wram translated_addr = Ram.read bus.wram translated_addr
read_device bus MemType.ppu1_apu translated_addr = Port.read bus.apu_port translated_addr
read_device bus _ translated_addr = ok 0

unfoldable pub read : Bus → ℕ → Result ℕ
read bus addr = let address = decode addr in read_device bus address.type address.dec_addr

-- The `switch` of `snes_bus_write`. A write to the image, or to a type that is not handled, is
-- reported and changes nothing.
unfoldable pub write_device : Bus → MemType → ℕ → ℕ → Result Bus
write_device bus MemType.sram translated_addr v =
    and_then (Ram.write bus.sram translated_addr v) λ ram. ok (record bus { sram = ram })
write_device bus MemType.wram translated_addr v =
    and_then (Ram.write bus.wram translated_addr v) λ ram. ok (record bus { wram = ram })
write_device bus MemType.ppu1_apu translated_addr v =
    and_then (Port.write bus.apu_port translated_addr v) λ port. ok (record bus { apu_port = port })
write_device bus _ translated_addr v = ok bus

unfoldable pub write : Bus → ℕ → ℕ → Result Bus
write bus addr v = let address = decode addr in write_device bus address.type address.dec_addr v
