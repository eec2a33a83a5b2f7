-- ===== src/Cart.antt =====
-- src/snes_cart.c: the cartridge, its image, save memory and address decoder.
pub mod Balance
use snesemu.Base.{ℕ, Option, none, some, Result, ok}
use snesemu.System.{Act, ◌>>=◌, ◌>>◌, pure, lift, Grants, malloc, free, attempt}
use snesemu.Ram.{Ram}
use snesemu.Rom
use snesemu.Rom.{Rom, RomType}
use snesemu.Parts.{
  ram_init, ram_destroy, rom_init, rom_destroy, addrdecoder_init, addrdecoder_destroy,
}

pub record Cart : Type 0 where
  pub rom : Rom
  pub sram : Ram
  pub decoder : RomType

unfoldable pub power_up : Grants → Act (Option Cart)
power_up g = attempt (malloc g) (pure tt) λ self. attempt (rom_init g) free λ rom.
    lift (Rom.get_sram_size rom) >>= λ size. attempt (ram_init g size) (rom_destroy >> free) λ sram.
      attempt (addrdecoder_init g rom) (ram_destroy >> rom_destroy >> free)
        λ decoder. pure (some (record { rom = rom; sram = sram; decoder = decoder }))

unfoldable pub power_down : Act (Unit {0})
power_down = addrdecoder_destroy >> ram_destroy >> rom_destroy >> free
