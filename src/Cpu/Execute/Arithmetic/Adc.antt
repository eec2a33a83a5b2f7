-- ===== src/Cpu/Execute/Arithmetic/Adc.antt =====
-- ADC as an instruction: the sum, the carry and the overflow, at both widths.
use snesemu.Base.{
  ℕ, ◌+◌, ◌%◌, ◌<◌, ◌≤◌, ◌≡◌, ap, ◌∙◌, ◌⊎◌, ◌&&◌, true, false, u8, leb, ◌==◌, ok, arith,
}
use snesemu.Registers.{Registers, RegisterLength, value8_low, value8_high, status_flag_isset}
use snesemu.Registers.StatusFlag
use snesemu.Registers.Flags.{flag, flag-put_nvzc}
use snesemu.Machine.{Machine}
use snesemu.Cpu.Defs.{EffectiveAddress}
use snesemu.Cpu.Execute.Operand.{fetch_data}
use snesemu.Cpu.Execute.Arithmetic.{overflows, carries, adc8, adc16, carry_in, execute_adc}
use snesemu.Cpu.Execute.Arithmetic.Sums.{
  out_of_range8, adc8_lem, overflows-eq8, carries-IsCarry8, out_of_range16, adc16_lem,
  overflows-eq16, carries-IsCarry16,
}

carry_in-le : (r : Registers) → carry_in r ≤ 1
carry_in-le r = ground arith

module _ (eff : EffectiveAddress) (m : Machine) {value : ℕ}
    (binary : status_flag_isset m.registers StatusFlag.d ≡ false) where
  adc_narrow :
      m.registers.accumulator.len ≡ RegisterLength.bit8
      → fetch_data eff 1 m ≡ ok value
      → execute_adc eff m ≡ ok (tt, record m { registers = adc8 m.registers value })
  unfolding execute_adc
  adc_narrow e f = simp (e, f, binary)

  adc_wide :
      m.registers.accumulator.len ≡ RegisterLength.bit16
      → fetch_data eff 2 m ≡ ok value
      → execute_adc eff m ≡ ok (tt, record m { registers = adc16 m.registers value })
  unfolding execute_adc
  adc_wide e f = simp (e, f, binary)

-- ADC in binary mode with an accumulator of 8 bits, for an operand that can be fetched: the
-- instruction succeeds and changes only the registers; the low byte of the accumulator is the sum
-- with the carry modulo 256 and the high byte stays; Z and N are those of the sum, and V says that the
-- signed sum leaves the range of a byte. C is the unsigned overflow that the source's comment names,
-- a sum of 256 or more, except where both operands and the result have the top bit set: there the
-- sum overflows and C is clear.
pub adc_byte :
    (eff : EffectiveAddress) (m : Machine) {value : ℕ}
    → m.registers.accumulator.len ≡ RegisterLength.bit8
    → status_flag_isset m.registers StatusFlag.d ≡ false
    → fetch_data eff 1 m ≡ ok value
    → let a = value8_low m.registers.accumulator in
      let b = u8 value in
      let c = carry_in m.registers in
      let sum = (a + b + c) % 256 in
      (r : Registers) × (execute_adc eff m ≡ ok (tt, record m { registers = r }))
      × (value8_low r.accumulator ≡ sum)
      × (value8_high r.accumulator ≡ value8_high m.registers.accumulator)
      × (((leb 128 a && leb 128 b && leb 128 sum) ≡ false) × (flag 0 r.status ≡ leb 256 (a + b + c))
          ⊎ (((leb 128 a && leb 128 b && leb 128 sum) ≡ true)
              × (256 ≤ a + b + c)
              × (flag 0 r.status ≡ false)))
      × (flag 1 r.status ≡ (sum == 0))
      × (flag 6 r.status ≡ out_of_range8 a b c)
      × (flag 7 r.status ≡ leb 128 sum)
adc_byte eff m {value} narrow binary fetched =
    let a = value8_low m.registers.accumulator in
    let c = carry_in m.registers in
    let sum = (a + u8 value + c) % 256 in
    let e = adc8_lem m.registers value narrow in
    let (fc, fz, fv, fn) =
      flag-put_nvzc (sum == 0) (leb 128 sum) (overflows 0x80 a (u8 value) sum)
        (carries 0x80 a (u8 value) sum) m.registers.status in
    (
      adc8 m.registers value,
      adc_narrow eff m binary narrow fetched,
      ap (λ r. value8_low r.accumulator) e ∙ omega arith,
      ap (λ r. value8_high r.accumulator) e ∙ omega arith,
      carries-IsCarry8 a (u8 value) c (omega arith) (omega arith) (carry_in-le m.registers)
          (ap (λ r. flag 0 r.status) e ∙ fc),
      ap (λ r. flag 1 r.status) e ∙ fz,
      ap (λ r. flag 6 r.status) e
          ∙ fv
          ∙ overflows-eq8 a (u8 value) c (omega arith) (omega arith) (carry_in-le m.registers),
      ap (λ r. flag 7 r.status) e ∙ fn,
    )

-- The same at 16 bits, for registers and operands of 16 bits: the accumulator is the sum with the
-- carry modulo 65536, and Z, N and V are those of 16 bits. C is a sum of 65536 or more, except where
-- both operands and the result have the top bit set: there the sum overflows and C is clear.
pub adc_word :
    (eff : EffectiveAddress) (m : Machine) {value : ℕ}
    → m.registers.accumulator.len ≡ RegisterLength.bit16
    → m.registers.accumulator.value16 < 65536
    → value < 65536
    → status_flag_isset m.registers StatusFlag.d ≡ false
    → fetch_data eff 2 m ≡ ok value
    → let a = m.registers.accumulator.value16 in
      let c = carry_in m.registers in
      let sum = (a + value + c) % 65536 in
      (r : Registers) × (execute_adc eff m ≡ ok (tt, record m { registers = r }))
      × (r.accumulator.value16 ≡ sum)
      × (((leb 32768 a && leb 32768 value && leb 32768 sum) ≡ false)
            × (flag 0 r.status ≡ leb 65536 (a + value + c))
          ⊎ (((leb 32768 a && leb 32768 value && leb 32768 sum) ≡ true)
              × (65536 ≤ a + value + c)
              × (flag 0 r.status ≡ false)))
      × (flag 1 r.status ≡ (sum == 0))
      × (flag 6 r.status ≡ out_of_range16 a value c)
      × (flag 7 r.status ≡ leb 32768 sum)
adc_word eff m {value} wide ha hv binary fetched =
    let a = m.registers.accumulator.value16 in
    let c = carry_in m.registers in
    let sum = (a + value + c) % 65536 in
    let e = adc16_lem m.registers value wide in
    let (fc, fz, fv, fn) =
      flag-put_nvzc (sum == 0) (leb 32768 sum) (overflows 0x8000 a value sum)
        (carries 0x8000 a value sum) m.registers.status in
    (
      adc16 m.registers value,
      adc_wide eff m binary wide fetched,
      ap (λ r. r.accumulator.value16) e,
      carries-IsCarry16 a value c ha hv (carry_in-le m.registers)
          (ap (λ r. flag 0 r.status) e ∙ fc),
      ap (λ r. flag 1 r.status) e ∙ fz,
      ap (λ r. flag 6 r.status) e ∙ fv ∙ overflows-eq16 a value c ha hv (carry_in-le m.registers),
      ap (λ r. flag 7 r.status) e ∙ fn,
    )
