-- ===== src/Base/Bits.antt =====
-- The bits of a number, and what `&`, `|` and a complement do to each of them.
mod Step
use Step.{bit_or_step, bit_and_step}
use Prim.Native.Nat.{
  ℕ, zero, suc, ◌+◌, ◌-◌, ◌*◌, ◌/◌, ◌%◌, ◌^◌, ◌≤◌, ◌<◌, bit_and, bit_or, bit_and-bitwise,
}
use mathlib.Core.Path.{◌≡◌, refl, ap}
use mathlib.Core.Logic.{◌⊎◌, inl, inr}
use mathlib.Core.Bool.{Bool, true, false, not, ◌&&◌, ◌||◌}
use native.Mathlib.Nat.{pow-suc, one-le-pow}
use native.Mathlib.Omega.{arith}
use snesemu.Base.Words.{◌==◌, if◌then◌else◌, Bool-cases}

-- Bit `k` of `n`.
unfoldable pub testbit : ℕ → ℕ → Bool
testbit zero n = n % 2 == 1
testbit (suc k) n = testbit k (n / 2)

half-or : (a b : ℕ) → bit_or a b / 2 ≡ bit_or (a / 2) (b / 2)
half-or a b = omega (arith, bit_or_step a b)

half-and : (a b : ℕ) → bit_and a b / 2 ≡ bit_and (a / 2) (b / 2)
half-and a b = omega (arith, bit_and_step a b)

pub testbit-or : (k a b : ℕ) → testbit k (bit_or a b) ≡ (testbit k a || testbit k b)
unfolding testbit
testbit-or zero a b = ground (arith, bit_or_step a b)
testbit-or (suc k) a b = rw (half-or a b) (testbit-or k (a / 2) (b / 2))

pub testbit-and : (k a b : ℕ) → testbit k (bit_and a b) ≡ (testbit k a && testbit k b)
unfolding testbit
testbit-and zero a b = ground (arith, bit_and_step a b)
testbit-and (suc k) a b = rw (half-and a b) (testbit-and k (a / 2) (b / 2))

-- The complement of a `w`-bit number.
pub testbit-complement :
    (w k a : ℕ) → k < w → a < 2 ^ w → testbit k (2 ^ w - 1 - a) ≡ not (testbit k a)
unfolding testbit
testbit-complement zero k a hk ha = absurd (omega arith)
testbit-complement (suc w) zero a hk ha = ground (arith, pow-suc 2 w)
testbit-complement (suc w) (suc k) a hk ha =
    rw half (testbit-complement w k (a / 2) (omega arith) (omega (arith, pow-suc 2 w)))
  where
    half : (2 ^ suc w - 1 - a) / 2 ≡ 2 ^ w - 1 - a / 2
    half = omega (arith, pow-suc 2 w)

pub bit_or-lt : (w a b : ℕ) → a < 2 ^ w → b < 2 ^ w → bit_or a b < 2 ^ w
bit_or-lt zero zero zero ha hb = omega arith
bit_or-lt zero zero (suc b) ha hb = absurd (omega arith)
bit_or-lt zero (suc a) b ha hb = absurd (omega arith)
bit_or-lt (suc w) a b ha hb = omega (
  arith,
  pow-suc 2 w,
  bit_or_step a b,
  bit_or-lt w (a / 2) (b / 2) (omega (arith, pow-suc 2 w)) (omega (arith, pow-suc 2 w)),
)

pub bit_and-le : (n a b : ℕ) → a ≤ n → bit_and a b ≤ a
bit_and-le n zero b h = omega (arith, bit_and-bitwise 0 b)
bit_and-le zero (suc a) b h = absurd (omega arith)
bit_and-le (suc n) (suc a) b h =
    omega (arith, bit_and_step (suc a) b, bit_and-le n (suc a / 2) (b / 2) (omega arith))

-- No bits of the mask, none of the result; `bound` is what the recursion goes down on.
empty_mask : (bound x : ℕ) → x ≤ bound → bit_and x 0 ≡ 0
empty_mask zero x h = omega (arith, bit_and-le zero x 0 h)
empty_mask (suc bound) zero h = bit_and-bitwise 0 0
empty_mask (suc bound) (suc x) h =
    let half = empty_mask bound (suc x / 2) (omega arith) in
    omega (arith, half, bit_and_step (suc x) 0)

-- A mask of one bit.
pub bit_and_pow : (k a : ℕ) → bit_and a (2 ^ k) ≡ (if testbit k a then 2 ^ k else 0)
unfolding testbit
bit_and_pow zero a = ground (arith, bit_and_step a 1, empty_mask (a / 2) (a / 2) (omega arith))
bit_and_pow (suc k) a = elim (Bool-cases (testbit k (a / 2))) [
  | inl e ↦ rw e (omega (arith, step, rw e at (bit_and_pow k (a / 2)), pow-suc 2 k))
  | inr e ↦ rw e (omega (arith, step, rw e at (bit_and_pow k (a / 2))))
]
  where
    half : 2 ^ suc k / 2 ≡ 2 ^ k
    half = omega (arith, pow-suc 2 k)

    step : bit_and a (2 ^ suc k) ≡ bit_and (a / 2) (2 ^ k) * 2
    step = rw (bit_and_step a (2 ^ suc k), half) (omega (arith, pow-suc 2 k))

-- The test `a & mask` of a mask of one bit.
pub masked-eq-testbit : (k a : ℕ) → not (bit_and a (2 ^ k) == 0) ≡ testbit k a
masked-eq-testbit k a = elim (Bool-cases (testbit k a)) [
  | inl e ↦ rw (bit_and_pow k a, e) (ground (arith, one-le-pow k 2))
  | inr e ↦ rw (bit_and_pow k a, e) refl
]

bit_and_one_bit : (a : ℕ) → bit_and a 1 ≡ a % 2
bit_and_one_bit a = omega (arith, bit_and_step a 1, empty_mask (a / 2) (a / 2) (omega arith))

bit_and_two_bits : (a : ℕ) → bit_and a 3 ≡ a % 4
bit_and_two_bits a = omega (arith, bit_and_step a 3, bit_and_one_bit (a / 2))

bit_and_three_bits : (a : ℕ) → bit_and a 7 ≡ a % 8
bit_and_three_bits a = omega (arith, bit_and_step a 7, bit_and_two_bits (a / 2))

bit_and_four_bits : (a : ℕ) → bit_and a 15 ≡ a % 16
bit_and_four_bits a = omega (arith, bit_and_step a 15, bit_and_three_bits (a / 2))

bit_and_five_bits : (a : ℕ) → bit_and a 31 ≡ a % 32
bit_and_five_bits a = omega (arith, bit_and_step a 31, bit_and_four_bits (a / 2))

bit_and_six_bits : (a : ℕ) → bit_and a 63 ≡ a % 64
bit_and_six_bits a = omega (arith, bit_and_step a 63, bit_and_five_bits (a / 2))

-- The mask of the low seven bits.
pub bit_and_seven_bits : (a : ℕ) → bit_and a 127 ≡ a % 128
bit_and_seven_bits a = omega (arith, bit_and_step a 127, bit_and_six_bits (a / 2))
