-- ===== src/Base/Tops.antt =====
-- Tests of the top bit of a byte and of a word.
use Prim.Native.Nat.{ℕ, ◌<◌, bit_and}
use mathlib.Core.Path.{◌≡◌, ◌∙◌}
use mathlib.Core.Bool.{not}
use native.Mathlib.Omega.{arith}
use snesemu.Base.Words.{leb, ◌==◌}
use snesemu.Base.Bits.{testbit, masked-eq-testbit}

testbit_top8 : (a : ℕ) → a < 256 → testbit 7 a ≡ leb 0x80 a
unfolding testbit
testbit_top8 a h = ground arith

testbit_top16 : (a : ℕ) → a < 65536 → testbit 15 a ≡ leb 0x8000 a
unfolding testbit
testbit_top16 a h = ground arith

pub masked_top8 : (a : ℕ) → a < 256 → not (bit_and a 0x80 == 0) ≡ leb 0x80 a
masked_top8 a h = masked-eq-testbit 7 a ∙ testbit_top8 a h

pub masked_top16 : (a : ℕ) → a < 65536 → not (bit_and a 0x8000 == 0) ≡ leb 0x8000 a
masked_top16 a h = masked-eq-testbit 15 a ∙ testbit_top16 a h
