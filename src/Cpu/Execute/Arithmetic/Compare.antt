-- ===== src/Cpu/Execute/Arithmetic/Compare.antt =====
-- CMP: the flags are those of the comparison of the accumulator with the operand.
use snesemu.Base.{ℕ, ◌+◌, ◌-◌, ◌%◌, ◌<◌, ◌≡◌, ap, sym, ◌∙◌, Bool, u8, sub16, leb, ◌==◌, ok, arith}
use snesemu.Registers.{Registers, RegisterLength, value8_low}
use snesemu.Base.Bits.{testbit}
use snesemu.Registers.Flags.{
  flag, put, put_zn, flag-put, assign_laws, update8_status, update16_status,
}
use snesemu.Machine.{Machine}
use snesemu.Cpu.Defs.{EffectiveAddress}
use snesemu.Cpu.Execute.Operand.{fetch_data}
use snesemu.Cpu.Execute.Arithmetic.{compare8, compare16, execute_cmp}

module _ (z n c : Bool) (s : ℕ) where
  abbrev put_compared : ℕ
  put_compared = put 1 c (put_zn z n s)

  flag-put_compared :
      (flag 0 put_compared ≡ c) × (flag 1 put_compared ≡ z) × (flag 7 put_compared ≡ n)
  unfolding testbit
  flag-put_compared =
      (simp flag-put (ground arith), simp flag-put (ground arith), simp flag-put (ground arith))

compare8_status :
    (r : Registers) (a value : ℕ)
    → compare8 r a value ≡ record r {
      status =
          put_compared
            ((a + 256 - u8 value) % 256 == 0)
            (leb 128 ((a + 256 - u8 value) % 256))
            (leb (u8 value) a)
            r.status;
    }
unfolding compare8
compare8_status r a value = simp (assign_laws, update8_status)

compare16_status :
    (r : Registers) (a value : ℕ)
    → compare16 r a value ≡ record r {
      status = put_compared (sub16 a value == 0) (leb 32768 (sub16 a value)) (leb value a) r.status;
    }
unfolding compare16
compare16_status r a value = simp (assign_laws, update16_status)

-- What a comparison leaves: the registers but for the status, C for `value ≤ a` and Z for equality.
pub record Compared (r : Registers) (a value : ℕ) (r' : Registers) : Type 0 where
  pub rest : r' ≡ record r { status = r'.status }
  pub carry : flag 0 r'.status ≡ leb value a
  pub zero : flag 1 r'.status ≡ (a == value)

compare8-Compared :
    (r : Registers) (a value : ℕ) → a < 256 → value < 256 → Compared r a value (compare8 r a value)
compare8-Compared r a value ha hv =
    let (fc, fz, fn) =
      flag-put_compared ((a + 256 - u8 value) % 256 == 0) (leb 128 ((a + 256 - u8 value) % 256))
        (leb (u8 value) a) r.status in
    record {
      rest =
          compare8_status r a value
          ∙ ap (λ s. record r { status = s })
              (sym (ap (λ q. q.status) (compare8_status r a value)));
      carry = ap (λ q. flag 0 q.status) (compare8_status r a value) ∙ fc ∙ ground arith;
      zero = ap (λ q. flag 1 q.status) (compare8_status r a value) ∙ fz ∙ ground arith;
    }

compare16-Compared :
    (r : Registers) (a value : ℕ)
    → a < 65536
    → value < 65536
    → Compared r a value (compare16 r a value)
compare16-Compared r a value ha hv =
    let (fc, fz, fn) =
      flag-put_compared (sub16 a value == 0) (leb 32768 (sub16 a value)) (leb value a) r.status in
    record {
      rest =
          compare16_status r a value
          ∙ ap (λ s. record r { status = s })
              (sym (ap (λ q. q.status) (compare16_status r a value)));
      carry = ap (λ q. flag 0 q.status) (compare16_status r a value) ∙ fc;
      zero = ap (λ q. flag 1 q.status) (compare16_status r a value) ∙ fz ∙ ground arith;
    }

-- CMP at 8 bits, for an operand of a byte that can be fetched: it succeeds and changes only the
-- status; C is set just when the low byte of the accumulator is at least the operand, Z just when
-- they are equal.
pub cmp_byte :
    (eff : EffectiveAddress) (m : Machine) {value : ℕ}
    → m.registers.accumulator.len ≡ RegisterLength.bit8
    → value < 256
    → fetch_data eff 1 m ≡ ok value
    → (r : Registers) × (execute_cmp eff m ≡ ok (tt, record m { registers = r }))
      × Compared m.registers (value8_low m.registers.accumulator) value r
unfolding execute_cmp
cmp_byte eff m {value} narrow hv f = (
  compare8 m.registers (value8_low m.registers.accumulator) value,
  simp (narrow, f),
  compare8-Compared m.registers (value8_low m.registers.accumulator) value (omega arith) hv,
)

-- CMP at 16 bits, for operands of 16 bits: the same, with the whole accumulator.
pub cmp_word :
    (eff : EffectiveAddress) (m : Machine) {value : ℕ}
    → m.registers.accumulator.len ≡ RegisterLength.bit16
    → m.registers.accumulator.value16 < 65536
    → value < 65536
    → fetch_data eff 2 m ≡ ok value
    → (r : Registers) × (execute_cmp eff m ≡ ok (tt, record m { registers = r }))
      × Compared m.registers m.registers.accumulator.value16 value r
unfolding execute_cmp
cmp_word eff m {value} wide ha hv f = (
  compare16 m.registers m.registers.accumulator.value16 value,
  simp (wide, f),
  compare16-Compared m.registers m.registers.accumulator.value16 value ha hv,
)
