-- ===== src/Cpu/Execute/Arithmetic.antt =====
-- Addition, subtraction, comparison and counting: src/snes_cpu_mne.c.
pub mod Sums
pub mod Adc
pub mod Compare
use snesemu.Base.{
  ℕ, ◌+◌, ◌-◌, ◌*◌, ◌/◌, ◌%◌, ◌^◌, Bool, true, false, not, ◌&&◌, ◌||◌, bit_and, bit_or, bit_xor, u8,
  u16, u32, sub16, sub32, ltb, leb, ◌==◌, ◌<<<◌, ◌>>>◌, if◌then◌else◌, Result, ok, err, and_then,
  assert_failed, aborted,
}
use snesemu.Registers.{
  Registers, RegisterLength, RegisterValue, value8_low, value8_high, by_length, masked,
  status_flag_set, status_flag_reset, status_flag_force, status_flag_isset, status_flag_assign,
  update8, update16, accumulator_set, accumulator_set16, x_set, y_set, direct_page_set,
  stack_pointer_set, program_counter_set, program_bank_set, program_bank_get, data_bank_set,
  data_bank_get, emulation_set, emulation_reset,
}
use snesemu.Registers.StatusFlag
use snesemu.Bus
use snesemu.Machine.{Machine, M, pure, ◌>>=◌, ◌>>◌, registers, modify, inspect, bus_read, bus_write}
use snesemu.Cpu.Defs.{Mnemonic, AddressType, EffectiveAddress}
use snesemu.Cpu.Stack.{push, pull}
use snesemu.Cpu.Execute.Operand.{fetch_data, store_data, acc_size}

-- The sign rule of V and the rule of C for an addition, by the top bits.
unfoldable pub overflows : ℕ → ℕ → ℕ → ℕ → Bool
overflows top value1 value2 result =
    (masked value1 top && masked value2 top && not (masked result top))
    || (not (masked value1 top) && not (masked value2 top) && masked result top)

unfoldable pub carries : ℕ → ℕ → ℕ → ℕ → Bool
carries top value1 value2 result =
    (masked value1 top || masked value2 top) && not (masked result top)

unfoldable pub update16_v : Registers → ℕ → ℕ → ℕ → Registers
update16_v r value1 value2 result =
    status_flag_assign r StatusFlag.v (overflows 0x8000 value1 value2 result)

unfoldable pub update8_v : Registers → ℕ → ℕ → ℕ → Registers
update8_v r value1 value2 result =
    status_flag_assign r StatusFlag.v (overflows 0x80 value1 value2 result)

unfoldable pub update16_c_add : Registers → ℕ → ℕ → ℕ → Registers
update16_c_add r value1 value2 result =
    status_flag_assign r StatusFlag.c (carries 0x8000 value1 value2 result)

unfoldable pub update8_c_add : Registers → ℕ → ℕ → ℕ → Registers
update8_c_add r value1 value2 result =
    status_flag_assign r StatusFlag.c (carries 0x80 value1 value2 result)

abbrev pub carry_in : Registers → ℕ
carry_in r = if status_flag_isset r StatusFlag.c then 1 else 0

-- The binary additions of `execute_ADC` at the two widths.
unfoldable pub adc16 : Registers → ℕ → Registers
adc16 r value =
    let acc = r.accumulator.value16 in
    let result = u16 (acc + value + carry_in r) in
    accumulator_set (update16_v (update16_c_add r acc value result) acc value result) result

unfoldable pub adc8 : Registers → ℕ → Registers
adc8 r value =
    let acc = value8_low r.accumulator in
    let result = u8 (acc + u8 value + carry_in r) in
    accumulator_set (update8_v (update8_c_add r acc (u8 value) result) acc (u8 value) result) result

unfoldable pub execute_adc : EffectiveAddress → M (Unit {0})
execute_adc eff_addr = do
  r ← registers
  value ← inspect (fetch_data eff_addr (acc_size r))
  if not (status_flag_isset r StatusFlag.d)
      then modify (λ s. by_length r.accumulator.len (adc8 s value) (adc16 s value))
      else inspect (λ _. err assert_failed)

-- The two widths of `execute_SBC`. The difference is an `int`; as a bit pattern it is below zero
-- when it wraps.
unfoldable pub sbc16 : Registers → ℕ → Registers
sbc16 r value =
    let acc = r.accumulator.value16 in
    let result = (acc + carry_in r + 65535 - value) % 65536 in
    let r' = accumulator_set r result in
    let r'' = status_flag_assign r' StatusFlag.c (ltb value (acc + carry_in r)) in
    status_flag_assign r'' StatusFlag.v
      (masked (bit_and (bit_xor acc value) (bit_xor acc result)) 0x8000)

-- The result is not stored, and V is tested at bit 15.
unfoldable pub sbc8 : Registers → ℕ → Registers
sbc8 r value =
    let acc = value8_low r.accumulator in
    let result = (acc + carry_in r + 131071 - value) % 65536 in
    let r' = status_flag_assign r StatusFlag.c (ltb result 0x8000) in
    status_flag_assign r' StatusFlag.v
      (masked (bit_and (bit_xor acc value) (bit_xor acc result)) 0x8000)

unfoldable pub execute_sbc : EffectiveAddress → M (Unit {0})
execute_sbc eff_addr = do
  r ← registers
  value ← inspect (fetch_data eff_addr (acc_size r))
  modify (λ s. by_length r.accumulator.len (sbc8 s value) (sbc16 s value))

-- A comparison at 16 bits: the flags of the difference, and C for no borrow.
unfoldable pub compare16 : Registers → ℕ → ℕ → Registers
compare16 r a value = status_flag_assign (update16 r (sub16 a value)) StatusFlag.c (leb value a)

-- The one of `execute_CMP` at 8 bits.
unfoldable pub compare8 : Registers → ℕ → ℕ → Registers
compare8 r a value =
    status_flag_assign (update8 r ((a + 256 - u8 value) % 256)) StatusFlag.c (leb (u8 value) a)

-- The one of `execute_CPX` and `execute_CPY` at 8 bits: N and Z are those of the operand.
unfoldable pub compare8_index : Registers → ℕ → ℕ → Registers
compare8_index r a value = status_flag_assign (update8 r (u8 value)) StatusFlag.c (leb (u8 value) a)

unfoldable pub execute_cmp : EffectiveAddress → M (Unit {0})
execute_cmp eff_addr = do
  r ← registers
  value ← inspect (fetch_data eff_addr (acc_size r))
  modify (λ s.
      by_length r.accumulator.len (compare8 s (value8_low r.accumulator) value)
        (compare16 s r.accumulator.value16 value))

unfoldable pub execute_cpx : EffectiveAddress → M (Unit {0})
execute_cpx eff_addr = do
  r ← registers
  value ← inspect (fetch_data eff_addr (by_length r.x.len 1 2))
  modify (λ s.
      by_length r.x.len (compare8_index s (value8_low r.x) value) (compare16 s r.x.value16 value))

unfoldable pub execute_cpy : EffectiveAddress → M (Unit {0})
execute_cpy eff_addr = do
  r ← registers
  value ← inspect (fetch_data eff_addr (by_length r.y.len 1 2))
  modify (λ s.
      by_length r.y.len (compare8_index s (value8_low r.y) value) (compare16 s r.y.value16 value))

unfoldable pub execute_dec : EffectiveAddress → M (Unit {0})
execute_dec eff_addr = do
  r ← registers
  value ← inspect (fetch_data eff_addr (acc_size r))
  store_data eff_addr (sub16 value 1) (acc_size r)

unfoldable pub execute_inc : EffectiveAddress → M (Unit {0})
execute_inc eff_addr = do
  r ← registers
  value ← inspect (fetch_data eff_addr (acc_size r))
  store_data eff_addr (u16 (value + 1)) (acc_size r)

unfoldable pub execute_dex : EffectiveAddress → M (Unit {0})
execute_dex eff_addr = modify (λ r. x_set r (sub16 r.x.value16 1))

unfoldable pub execute_dey : EffectiveAddress → M (Unit {0})
execute_dey eff_addr = modify (λ r. y_set r (sub16 r.y.value16 1))

unfoldable pub execute_inx : EffectiveAddress → M (Unit {0})
execute_inx eff_addr = modify (λ r. x_set r (u16 (r.x.value16 + 1)))

unfoldable pub execute_iny : EffectiveAddress → M (Unit {0})
execute_iny eff_addr = modify (λ r. y_set r (u16 (r.y.value16 + 1)))
