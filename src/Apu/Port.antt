-- ===== src/Apu/Port.antt =====
-- src/snes_apu_port.c: four bytes from the processor to the sound unit and four back. Each side
-- writes one block and reads the other.
pub mod Channels
use snesemu.Base.{ℕ, Bool, Option, none, some, Result, and_then, ok}
use snesemu.Ram
use snesemu.Ram.{Ram}

pub record ApuPort : Type 0 where
  pub input_port : Ram
  pub output_port : Ram

init_output : Ram → Option Ram → Option ApuPort
init_output input none = none
init_output input (some output) = some (record { input_port = input; output_port = output })

init_input : Option Ram → Option Ram → Option ApuPort
unfolding init_output
init_input none output = none
init_input (some input) output = init_output input output

-- The first flag is the `malloc` of the port itself.
unfoldable pub init : Bool → Bool → Option (ℕ → ℕ) → Bool → Option (ℕ → ℕ) → Option ApuPort
unfolding init_input
init Bool.false a1 b1 a2 b2 = none
init Bool.true a1 b1 a2 b2 = init_input (Ram.init a1 b1 4) (Ram.init a2 b2 4)

-- `snes_apu_port_read` and `snes_apu_port_write`: the processor's side.
unfoldable pub read : ApuPort → ℕ → Result ℕ
read port address = Ram.read port.output_port address

unfoldable pub write : ApuPort → ℕ → ℕ → Result ApuPort
write port address v =
    and_then (Ram.write port.input_port address v) λ ram. ok (record port { input_port = ram })

-- `snes_apu_port_internal_read` and `snes_apu_port_internal_write`: the sound unit's side.
unfoldable pub internal_read : ApuPort → ℕ → Result ℕ
internal_read port address = Ram.read port.input_port address

unfoldable pub internal_write : ApuPort → ℕ → ℕ → Result ApuPort
internal_write port address v =
    and_then (Ram.write port.output_port address v) λ ram. ok (record port { output_port = ram })
