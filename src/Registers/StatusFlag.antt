-- ===== src/Registers/StatusFlag.antt =====
-- The masks STATUS_FLAG_C to STATUS_FLAG_N of src/snes_cpu_registers.h. STATUS_FLAG_B is the mask of
-- STATUS_FLAG_X, and only the dump reads it.
use snesemu.Base.{ℕ}

abbrev pub c : ℕ
c = 1

abbrev pub z : ℕ
z = 2

abbrev pub i : ℕ
i = 4

abbrev pub d : ℕ
d = 8

abbrev pub x : ℕ
x = 16

abbrev pub m : ℕ
m = 32

abbrev pub v : ℕ
v = 64

abbrev pub n : ℕ
n = 128
