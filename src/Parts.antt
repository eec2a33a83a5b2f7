-- ===== src/Parts.antt =====
-- The initialisers of the parts and their counterparts that free them, by what they ask of the
-- process: src/snes_ram.c, src/snes_apu_port.c, src/snes_rom.c, src/snes_addrdecoder.c,
-- src/snes_bus.c, src/snes_cpu_registers.c, src/snes_cpu_stack.c.
pub mod Balance
use snesemu.Base.{ℕ, Bool, true, List, Option, none, some, Result, ok}
use snesemu.System.{
  Act, ◌>>=◌, ◌>>◌, pure, lift, Grants, malloc, open_image, map_image, free, close, munmap, attempt,
}
use snesemu.Ram
use snesemu.Ram.{Ram}
use snesemu.Rom
use snesemu.Rom.{Rom, RomType}
use snesemu.Apu.Port.{ApuPort}
use snesemu.AddressDecoder
use snesemu.Registers
use snesemu.Registers.{Registers}

unfoldable pub ram_destroy : Act (Unit {0})
ram_destroy = free >> free

unfoldable pub apu_port_destroy : Act (Unit {0})
unfolding ram_destroy
apu_port_destroy = ram_destroy >> ram_destroy >> free

-- The mapping of the image is not given up.
unfoldable pub rom_destroy : Act (Unit {0})
rom_destroy = close >> free

unfoldable pub addrdecoder_destroy : Act (Unit {0})
addrdecoder_destroy = free

unfoldable pub bus_destroy : Act (Unit {0})
bus_destroy = free

unfoldable pub registers_destroy : Act (Unit {0})
registers_destroy = free

unfoldable pub stack_destroy : Act (Unit {0})
stack_destroy = free

module _ (g : Grants) where
  unfoldable pub ram_init : ℕ → Act (Option Ram)
  ram_init size =
      attempt (malloc g) (pure tt)
        λ self. attempt (malloc g) free λ cells. pure (Ram.init true (some cells) size)

  unfoldable pub apu_port_init : Act (Option ApuPort)
  unfolding ram_init ram_destroy
  apu_port_init = attempt (malloc g) (pure tt) λ self. attempt (ram_init 4) free λ input.
      attempt (ram_init 4) (ram_destroy >> free)
        λ output. pure (some (record { input_port = input; output_port = output }))

  unfoldable pub rom_init : Act (Option Rom)
  rom_init = attempt (malloc g) (pure tt) λ self. attempt (open_image g) free λ image.
      attempt (map_image g) (close >> free) λ mapping.
        attempt (lift (Rom.init (some image))) (munmap >> close >> free) λ rom. pure (some rom)

  unfoldable pub addrdecoder_init : Rom → Act (Option RomType)
  addrdecoder_init rom =
      attempt (malloc g) (pure tt)
        λ self. attempt (pure (AddressDecoder.init true rom)) free λ rom_type. pure (some rom_type)

  -- The pointers that `snes_bus_init` and `snes_cpu_stack_init` test are those of parts that the
  -- callers have.
  unfoldable pub bus_init : Act (Option (Unit {0}))
  bus_init = attempt (malloc g) (pure tt) λ self. pure (some tt)

  unfoldable pub stack_init : Act (Option (Unit {0}))
  stack_init = attempt (malloc g) (pure tt) λ self. pure (some tt)

  unfoldable pub registers_init : Act (Option Registers)
  registers_init = attempt (malloc g) (pure tt) λ self. pure (Registers.init true)
