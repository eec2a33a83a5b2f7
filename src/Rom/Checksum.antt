-- ===== src/Rom/Checksum.antt =====
-- The checksum, and which header an image is given.
use snesemu.Base.{ℕ, zero, suc, ◌+◌, ◌%◌, ◌<◌, ◌≡◌, ◌∙◌, u8, u16, arith}
use snesemu.Rom.{checksum_loop, calc_checksum}

-- The sum of the bytes from `i` on.
unfoldable pub byte_sum : (ℕ → ℕ) → ℕ → ℕ → ℕ
byte_sum rom zero i = 0
byte_sum rom (suc n) i = u8 (rom i) + byte_sum rom n (i + 1)

checksum_loop_lem :
    (rom : ℕ → ℕ) (left i checksum : ℕ)
    → checksum < 65536
    → checksum_loop rom left i checksum ≡ (checksum + byte_sum rom left i) % 65536
unfolding checksum_loop byte_sum
checksum_loop_lem rom zero i checksum h = omega arith
checksum_loop_lem rom (suc left) i checksum h =
    checksum_loop_lem rom left (i + 1) (u16 (checksum + u8 (rom i))) (omega arith) ∙ omega arith

-- The checksum of an image is the sum of its bytes modulo 65536.
pub calc_checksum_lem :
    (rom : ℕ → ℕ) (size : ℕ) → calc_checksum rom size ≡ byte_sum rom size 0 % 65536
unfolding calc_checksum
calc_checksum_lem rom size = checksum_loop_lem rom size 0 0 (omega arith) ∙ omega arith
