-- ===== src/Base/Bits/Step.antt =====
-- The lowest digit of `&` and `|`. The native operations mean `bitwise`, which works on binary
-- digits and takes fuel.
use native.Mathlib.Omega.{arith}
use mathlib.Core.Path.{◌≡◌, refl, sym, ap, ◌∙◌}
use Prim.Native.Nat.{
  bit_and, bit_or, bit_or-bitwise, bit_and-bitwise, bitwise, digits, max, min, ◌≤◌, ◌%◌, ◌/◌, ◌*◌,
  ◌+◌, suc, zero, ℕ,
}

-- Fuel beyond the first number is not used; `bound` is what the recursion goes down on.
own_fuel :
    (rest : ℕ → ℕ) (digit : ℕ → ℕ → ℕ) (bound fuel x y : ℕ)
    → x ≤ bound
    → x ≤ fuel
    → digits rest digit fuel x y ≡ digits rest digit x x y
own_fuel rest digit bound zero zero y hb hf = refl
own_fuel rest digit bound (suc fuel) zero y hb hf = refl
own_fuel rest digit bound zero (suc x) y hb hf = absurd (omega arith)
own_fuel rest digit zero (suc fuel) (suc x) y hb hf = absurd (omega arith)
own_fuel rest digit (suc bound) (suc fuel) (suc x) y hb hf =
    let given = own_fuel rest digit bound fuel (suc x / 2) (y / 2) (omega arith) (omega arith) in
    let own = own_fuel rest digit bound x (suc x / 2) (y / 2) (omega arith) (omega arith) in
    ap (λ high. high * 2 + digit (suc x % 2) (y % 2)) (given ∙ sym own)

low_digit :
    (rest : ℕ → ℕ) (digit : ℕ → ℕ → ℕ) (x y : ℕ)
    → bitwise rest digit (suc x) y
      ≡ digit (suc x % 2) (y % 2) + 2 * bitwise rest digit (suc x / 2) (y / 2)
low_digit rest digit x y =
    omega (arith, own_fuel rest digit x x (suc x / 2) (y / 2) (omega arith) (omega arith))

pub bit_and_step : (x y : ℕ) → bit_and x y ≡ min (x % 2) (y % 2) + 2 * bit_and (x / 2) (y / 2)
bit_and_step (suc x) y = simp bit_and-bitwise (low_digit (λ k. 0) min x y)
bit_and_step zero y = simp bit_and-bitwise (omega arith)

pub bit_or_step : (x y : ℕ) → bit_or x y ≡ max (x % 2) (y % 2) + 2 * bit_or (x / 2) (y / 2)
bit_or_step (suc x) y = simp bit_or-bitwise (low_digit (λ k. k) max x y)
bit_or_step zero y = simp bit_or-bitwise (omega arith)
