-- ===== src/Cpu/AddressingMode/Index.antt =====
-- What the resolvers share.
use snesemu.Base.{ℕ, ◌+◌, u32, ◌<<<◌, Result, ok, ◌>>=◌}
use snesemu.Registers.{RegisterValue, value8_low, by_length}
use snesemu.Bus
use snesemu.Bus.{Bus}
use snesemu.Cpu.Defs.{AddressType, EffectiveAddress}

-- An index register at its width.
abbrev pub index_value : RegisterValue → ℕ
index_value v = by_length v.len (value8_low v) v.value16

abbrev pub at : EffectiveAddress → AddressType → ℕ → EffectiveAddress
at raw type simple_address = record raw { type = type; simple_address = simple_address }

-- A sum with the two or the three bytes of a pointer in memory, in uint32_t.
unfoldable pub add_pointer16 : Bus → ℕ → ℕ → ℕ → Result ℕ
add_pointer16 bus base lo hi = do
  low ← Bus.read bus lo
  high ← Bus.read bus hi
  ok (u32 (base + low + (high <<< 8)))

unfoldable pub add_pointer24 : Bus → ℕ → ℕ → ℕ → ℕ → Result ℕ
add_pointer24 bus base lo hi bank = do
  sum ← add_pointer16 bus base lo hi
  top ← Bus.read bus bank
  ok (u32 (sum + (top <<< 16)))
