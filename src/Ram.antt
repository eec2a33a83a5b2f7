-- ===== src/Ram.antt =====
-- src/snes_ram.c: a block of bytes that asserts its bounds. A cell holds the bit pattern of the
-- `int8_t`, which is what a read hands back as `uint8_t`.
pub mod Laws
use snesemu.Base.{
  ℕ, ◌%◌, Bool, false, true, Option, none, some, u8, ltb, ◌==◌, if◌then◌else◌, Result, ok, err,
  assert_failed,
}

pub record Ram : Type 0 where
  pub size : ℕ
  pub cells : ℕ → ℕ

-- `alloc` and `block` are what the two calls of `malloc` give: the second block comes with
-- contents that are not determined.
unfoldable pub init : (alloc : Bool) → (block : Option (ℕ → ℕ)) → ℕ → Option Ram
init false block size = none
init true none size = none
init true (some cells) size = some (record { size = size; cells = cells })

unfoldable pub read : Ram → ℕ → Result ℕ
read ram addr = if ltb addr ram.size then ok (u8 (ram.cells addr)) else err assert_failed

abbrev pub update : (ℕ → ℕ) → ℕ → ℕ → ℕ → ℕ
update cells addr v i = if i == addr then v else cells i

unfoldable pub write : Ram → ℕ → ℕ → Result Ram
write ram addr v =
    if ltb addr ram.size
    then ok (record ram { cells = update ram.cells addr (u8 v) })
    else err assert_failed
