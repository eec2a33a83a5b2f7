-- ===== src/Cpu/Execute/Arithmetic/Sums.antt =====
-- ADC: the sum, and the flags against the arithmetic of the true sum.
use snesemu.Base.{
  ℕ, ◌+◌, ◌-◌, ◌%◌, ◌⊎◌, true, false, ◌<◌, ◌≤◌, ◌≡◌, Bool, not, ◌&&◌, u8, u16, leb, ltb, within,
  if◌then◌else◌, ◌==◌, arith,
}
use snesemu.Base.Tops.{masked_top8, masked_top16}
use snesemu.Registers.{Registers, RegisterLength, value8_low, set_value8_low, set_value16}
use snesemu.Registers.Flags.{put, put_zn, assign_c, assign_v}
use snesemu.Registers.Widths.{accumulator_set_byte, accumulator_set_wide}
use snesemu.Cpu.Execute.Arithmetic.{
  overflows, carries, adc8, adc16, carry_in, update8_v, update8_c_add, update16_v, update16_c_add,
}

-- A byte read as a signed number, plus 128; and a word, plus 32768.
abbrev pub excess8 : ℕ → ℕ
excess8 a = if ltb a 128 then a + 128 else a - 128

abbrev pub excess16 : ℕ → ℕ
excess16 a = if ltb a 32768 then a + 32768 else a - 32768

-- The signed sum of two bytes and a carry is out of the range of a byte.
abbrev pub out_of_range8 : ℕ → ℕ → ℕ → Bool
out_of_range8 a b c = not (within 128 (excess8 a + excess8 b + c) 383)

abbrev pub out_of_range16 : ℕ → ℕ → ℕ → Bool
out_of_range16 a b c = not (within 32768 (excess16 a + excess16 b + c) 98303)

-- How a flag stands to the carry of the true sum: it is that carry, unless both operands and the
-- result have the top bit set; then the sum carries and the flag is clear.
abbrev pub IsCarry8 : ℕ → ℕ → ℕ → Bool → Type 0
IsCarry8 a b c flag =
    let high = leb 128 a && leb 128 b && leb 128 ((a + b + c) % 256) in
    ((high ≡ false) × (flag ≡ leb 256 (a + b + c)))
    ⊎ ((high ≡ true) × (256 ≤ a + b + c) × (flag ≡ false))

module _ (a b c : ℕ) (ha : a < 256) (hb : b < 256) (hc : c ≤ 1) where
  pub overflows-eq8 : overflows 0x80 a b ((a + b + c) % 256) ≡ out_of_range8 a b c
  unfolding overflows
  overflows-eq8 =
      rw (masked_top8 a ha, masked_top8 b hb, masked_top8 ((a + b + c) % 256) (omega arith))
        (ground arith)

  pub carries-IsCarry8 :
      {flag : Bool} → flag ≡ carries 0x80 a b ((a + b + c) % 256) → IsCarry8 a b c flag
  unfolding carries
  carries-IsCarry8 e =
      let ta = masked_top8 a ha in
      let tb = masked_top8 b hb in
      let ts = masked_top8 ((a + b + c) % 256) (omega arith) in ground arith

abbrev pub IsCarry16 : ℕ → ℕ → ℕ → Bool → Type 0
IsCarry16 a b c flag =
    let high = leb 32768 a && leb 32768 b && leb 32768 ((a + b + c) % 65536) in
    ((high ≡ false) × (flag ≡ leb 65536 (a + b + c)))
    ⊎ ((high ≡ true) × (65536 ≤ a + b + c) × (flag ≡ false))

module _ (a b c : ℕ) (ha : a < 65536) (hb : b < 65536) (hc : c ≤ 1) where
  pub overflows-eq16 : overflows 0x8000 a b ((a + b + c) % 65536) ≡ out_of_range16 a b c
  unfolding overflows
  overflows-eq16 =
      rw (masked_top16 a ha, masked_top16 b hb, masked_top16 ((a + b + c) % 65536) (omega arith))
        (ground arith)

  pub carries-IsCarry16 :
      {flag : Bool} → flag ≡ carries 0x8000 a b ((a + b + c) % 65536) → IsCarry16 a b c flag
  unfolding carries
  carries-IsCarry16 e =
      let ta = masked_top16 a ha in
      let tb = masked_top16 b hb in
      let ts = masked_top16 ((a + b + c) % 65536) (omega arith) in ground arith

module _ (r : Registers) (value : ℕ) (narrow : r.accumulator.len ≡ RegisterLength.bit8) where
  pub adc8_lem :
      let a = value8_low r.accumulator in
      let result = u8 (a + u8 value + carry_in r) in
      adc8 r value ≡ record r {
        accumulator = set_value8_low r.accumulator result;
        status = put_zn (result == 0) (leb 0x80 result) (
            put 64
              (overflows 0x80 a (u8 value) result)
              (put 1 (carries 0x80 a (u8 value) result) r.status));
      }
  unfolding adc8 update8_v update8_c_add
  adc8_lem = simp (assign_c, assign_v) (accumulator_set_byte _ _ narrow (omega arith))

module _ (r : Registers) (value : ℕ) (wide : r.accumulator.len ≡ RegisterLength.bit16) where
  pub adc16_lem :
      let a = r.accumulator.value16 in
      let result = u16 (a + value + carry_in r) in
      adc16 r value ≡ record r {
        accumulator = set_value16 r.accumulator result;
        status = put_zn (result == 0) (leb 0x8000 result) (
            put 64
              (overflows 0x8000 a value result)
              (put 1 (carries 0x8000 a value result) r.status));
      }
  unfolding adc16 update16_v update16_c_add
  adc16_lem = simp (assign_c, assign_v) (accumulator_set_wide _ _ wide)
