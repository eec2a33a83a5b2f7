-- ===== src/Cpu/Execute/PushPull.antt =====
-- Instructions that push and pull registers: src/snes_cpu_mne.c.
pub mod RoundTrips
use snesemu.Base.{
  ℕ, ◌+◌, ◌-◌, ◌*◌, ◌/◌, ◌%◌, ◌^◌, Bool, true, false, not, ◌&&◌, ◌||◌, bit_and, bit_or, bit_xor, u8,
  u16, u32, sub16, sub32, ltb, leb, ◌==◌, ◌<<<◌, ◌>>>◌, if◌then◌else◌, Result, ok, err, and_then,
  assert_failed, aborted,
}
use snesemu.Registers.{
  Registers, RegisterLength, RegisterValue, value8_low, value8_high, by_length, masked,
  status_flag_set, status_flag_reset, status_flag_force, status_flag_isset, status_flag_assign,
  update8, update16, accumulator_set, accumulator_set16, x_set, y_set, direct_page_set,
  stack_pointer_set, program_counter_set, program_bank_set, program_bank_get, data_bank_set,
  data_bank_get, emulation_set, emulation_reset,
}
use snesemu.Registers.StatusFlag
use snesemu.Bus
use snesemu.Machine.{Machine, M, pure, ◌>>=◌, ◌>>◌, registers, modify, inspect, bus_read, bus_write}
use snesemu.Cpu.Defs.{Mnemonic, AddressType, EffectiveAddress}
use snesemu.Cpu.Stack.{push, pull}
use snesemu.Cpu.Execute.Operand.{fetch_data, store_data, acc_size}

unfoldable pub execute_pea : EffectiveAddress → M (Unit {0})
execute_pea eff_addr = do
  value ← inspect (fetch_data eff_addr 2)
  push (u8 (value >>> 8))
  push (u8 value)

unfoldable pub execute_pei : EffectiveAddress → M (Unit {0})
execute_pei eff_addr = do
  value ← inspect (fetch_data eff_addr 2)
  push (u8 (value >>> 8))
  push (u8 value)

unfoldable pub execute_per : EffectiveAddress → M (Unit {0})
execute_per eff_addr = do
  value ← inspect (fetch_data eff_addr 2)
  push (u8 (value >>> 8))
  push (u8 value)

unfoldable pub execute_pha : EffectiveAddress → M (Unit {0})
execute_pha eff_addr = do
  r ← registers
  by_length r.accumulator.len (pure tt) (push (value8_high r.accumulator))
  push (value8_low r.accumulator)

unfoldable pub execute_phx : EffectiveAddress → M (Unit {0})
execute_phx eff_addr = do
  r ← registers
  by_length r.x.len (pure tt) (push (value8_high r.x))
  push (value8_low r.x)

unfoldable pub execute_phy : EffectiveAddress → M (Unit {0})
execute_phy eff_addr = do
  r ← registers
  by_length r.y.len (pure tt) (push (value8_high r.y))
  push (value8_low r.y)

unfoldable pub execute_phb : EffectiveAddress → M (Unit {0})
execute_phb eff_addr = do r ← registers; push (u8 (data_bank_get r >>> 16))

unfoldable pub execute_phd : EffectiveAddress → M (Unit {0})
execute_phd eff_addr = do r ← registers; push (u8 (r.direct_page >>> 8)); push (u8 r.direct_page)

unfoldable pub execute_phk : EffectiveAddress → M (Unit {0})
execute_phk eff_addr = do r ← registers; push (u8 (program_bank_get r >>> 16))

unfoldable pub execute_php : EffectiveAddress → M (Unit {0})
execute_php eff_addr = do r ← registers; push r.status

-- One byte or two, low byte first.
unfoldable pub pull_by_length : RegisterLength → M ℕ
pull_by_length len = do
  low ← pull
  by_length len (pure low) (do high ← pull; pure (u16 (low + (high <<< 8))))

unfoldable pub execute_pla : EffectiveAddress → M (Unit {0})
execute_pla eff_addr = do
  r ← registers
  value ← pull_by_length r.accumulator.len
  modify (λ s. accumulator_set s value)

unfoldable pub execute_plx : EffectiveAddress → M (Unit {0})
execute_plx eff_addr = do r ← registers; value ← pull_by_length r.x.len; modify (λ s. x_set s value)

unfoldable pub execute_ply : EffectiveAddress → M (Unit {0})
execute_ply eff_addr = do r ← registers; value ← pull_by_length r.y.len; modify (λ s. y_set s value)

unfoldable pub execute_plb : EffectiveAddress → M (Unit {0})
execute_plb eff_addr = do value ← pull; modify (λ r. data_bank_set r value)

unfoldable pub execute_pld : EffectiveAddress → M (Unit {0})
execute_pld eff_addr = do
  low ← pull
  high ← pull
  modify (λ r. direct_page_set r (u16 (low + (high <<< 8))))

unfoldable pub execute_plp : EffectiveAddress → M (Unit {0})
execute_plp eff_addr = do value ← pull; modify (λ r. status_flag_force r value)
