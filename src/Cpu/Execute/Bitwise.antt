-- ===== src/Cpu/Execute/Bitwise.antt =====
-- Bitwise instructions, shifts and rotations: src/snes_cpu_mne.c.
use snesemu.Base.{
  ℕ, ◌+◌, ◌-◌, Bool, not, bit_and, bit_or, bit_xor, u8, u16, u32, ◌<<<◌, ◌>>>◌, if◌then◌else◌,
}
use snesemu.Registers.{
  Registers, RegisterLength, value8_low, by_length, masked, status_flag_isset, status_flag_assign,
  update8, update16, accumulator_set,
}
use snesemu.Registers.StatusFlag
use snesemu.Machine.{M, pure, ◌>>=◌, ◌>>◌, registers, modify, inspect, bus_read, bus_write}
use snesemu.Cpu.Defs.{EffectiveAddress}
use snesemu.Cpu.Execute.Operand.{fetch_data, store_data, acc_size}

unfoldable pub execute_and : EffectiveAddress → M (Unit {0})
execute_and eff_addr = do
  r ← registers
  value ← inspect (fetch_data eff_addr (acc_size r))
  modify (λ s. accumulator_set s (bit_and r.accumulator.value16 value))

unfoldable pub execute_eor : EffectiveAddress → M (Unit {0})
execute_eor eff_addr = do
  r ← registers
  value ← inspect (fetch_data eff_addr (acc_size r))
  modify (λ s. accumulator_set s (bit_xor value r.accumulator.value16))

unfoldable pub execute_ora : EffectiveAddress → M (Unit {0})
execute_ora eff_addr = do
  r ← registers
  value ← inspect (fetch_data eff_addr (acc_size r))
  modify (λ s. accumulator_set s (bit_or r.accumulator.value16 value))

-- Z is set if a bit is common to both.
unfoldable pub bit_flags : Registers → ℕ → Registers
bit_flags r value =
    by_length r.accumulator.len
      (status_flag_assign (update8 r (u8 value)) StatusFlag.z
        (masked (value8_low r.accumulator) value))
      (status_flag_assign (update16 r value) StatusFlag.z (masked r.accumulator.value16 value))

unfoldable pub execute_bit : EffectiveAddress → M (Unit {0})
execute_bit eff_addr = do
  r ← registers
  value ← inspect (fetch_data eff_addr (acc_size r))
  modify (λ s. bit_flags s value)

-- `value & 0x80 >> 7` is `value & (0x80 >> 7)`, and so at 16 bits.
unfoldable pub asl_carry : RegisterLength → ℕ → Bool
asl_carry RegisterLength.bit8 value = masked value (0x80 >>> 7)
asl_carry RegisterLength.bit16 value = masked value (0x8000 >>> 15)

unfoldable pub execute_asl : EffectiveAddress → M (Unit {0})
execute_asl eff_addr = do
  r ← registers
  value ← inspect (fetch_data eff_addr (acc_size r))
  store_data eff_addr (u16 (value <<< 1)) (acc_size r)
  modify (λ s. status_flag_assign s StatusFlag.c (asl_carry r.accumulator.len value))

unfoldable pub execute_lsr : EffectiveAddress → M (Unit {0})
execute_lsr eff_addr = do
  r ← registers
  value ← inspect (fetch_data eff_addr (acc_size r))
  store_data eff_addr (value >>> 1) (acc_size r)
  modify (λ s. status_flag_assign s StatusFlag.c (masked value 1))

-- The rotations at the two widths. Their results go to the accumulator.
unfoldable pub rol : Registers → ℕ → Registers
rol r value =
    let carry = if status_flag_isset r StatusFlag.c then 1 else 0 in
    by_length r.accumulator.len
      (accumulator_set (status_flag_assign r StatusFlag.c (masked value 0x80))
        (u8 (u8 (u8 value <<< 1) + carry)))
      (accumulator_set (status_flag_assign r StatusFlag.c (masked value 0x8000))
        (u16 (u16 (value <<< 1) + carry)))

unfoldable pub execute_rol : EffectiveAddress → M (Unit {0})
execute_rol eff_addr = do
  r ← registers
  value ← inspect (fetch_data eff_addr (acc_size r))
  modify (λ s. rol s value)

unfoldable pub ror : Registers → ℕ → Registers
ror r value =
    let c_wasset = status_flag_isset r StatusFlag.c in
    by_length r.accumulator.len
      (accumulator_set (status_flag_assign r StatusFlag.c (masked value 0x80))
        (u8 ((u8 value >>> 1) + (if c_wasset then 0x80 else 0))))
      (accumulator_set (status_flag_assign r StatusFlag.c (masked value 0x8000))
        (u16 ((value >>> 1) + (if c_wasset then 0x8000 else 0))))

unfoldable pub execute_ror : EffectiveAddress → M (Unit {0})
execute_ror eff_addr = do
  r ← registers
  value ← inspect (fetch_data eff_addr (acc_size r))
  modify (λ s. ror s value)

-- What `execute_TRB` and `execute_TSB` share: the read, the write of `result` and the flag Z.
unfoldable pub test_and_store : (ℕ → ℕ → ℕ) → EffectiveAddress → M (Unit {0})
test_and_store combine eff_addr = do
  r ← registers
  low ← bus_read eff_addr.simple_address
  value ←
      by_length r.accumulator.len (pure low)
        (do high ← bus_read (u32 (eff_addr.simple_address + 1)); pure (u16 (low + (high <<< 8))))
  bus_write eff_addr.simple_address (u8 (combine value r.accumulator.value16))
  by_length r.accumulator.len (pure tt) (
      bus_write (u32 (eff_addr.simple_address + 1))
        (u8 (combine value r.accumulator.value16 >>> 8)))
  modify (λ s. status_flag_assign s StatusFlag.z (
      not (
        by_length r.accumulator.len (masked value (value8_low r.accumulator))
          (masked value r.accumulator.value16))))

unfoldable pub execute_trb : EffectiveAddress → M (Unit {0})
unfolding test_and_store
execute_trb = test_and_store (λ value acc. bit_and value (65535 - acc))

unfoldable pub execute_tsb : EffectiveAddress → M (Unit {0})
unfolding test_and_store
execute_tsb = test_and_store (λ value acc. bit_or value acc)
