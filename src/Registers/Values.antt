-- ===== src/Registers/Values.antt =====
-- The type of a register that can be read at two widths.
use snesemu.Base.{ℕ, ◌+◌, ◌*◌, ◌/◌, ◌%◌, u8}

pub data RegisterLength : Type 0 where
  bit8 bit16 : RegisterLength

pub record RegisterValue : Type 0 where
  pub len : RegisterLength
  pub value16 : ℕ

-- The two bytes of the union.
abbrev pub value8_low : RegisterValue → ℕ
value8_low v = v.value16 % 256

abbrev pub value8_high : RegisterValue → ℕ
value8_high v = v.value16 / 256

abbrev pub set_value8_low : RegisterValue → ℕ → RegisterValue
set_value8_low v b = record v { value16 = value8_high v * 256 + u8 b }

abbrev pub set_value8_high : RegisterValue → ℕ → RegisterValue
set_value8_high v b = record v { value16 = u8 b * 256 + value8_low v }

abbrev pub set_value16 : RegisterValue → ℕ → RegisterValue
set_value16 v w = record v { value16 = w }

-- `v.len == CPU_REGISTER_8_BIT ? a : b`
abbrev pub by_length {ℓ} : {A : Type ℓ} → RegisterLength → A → A → A
by_length RegisterLength.bit8 a b = a
by_length RegisterLength.bit16 a b = b
