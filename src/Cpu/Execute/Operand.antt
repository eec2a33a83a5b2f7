-- ===== src/Cpu/Execute/Operand.antt =====
-- The operand of an instruction: `fetch_data` and `store_data` of src/snes_cpu_mne.c.
pub mod RoundTrips
use snesemu.Base.{
  ℕ, ◌+◌, ◌-◌, ◌*◌, ◌/◌, ◌%◌, ◌^◌, Bool, true, false, not, ◌&&◌, ◌||◌, bit_and, bit_or, bit_xor, u8,
  u16, u32, sub16, sub32, ltb, leb, ◌==◌, ◌<<<◌, ◌>>>◌, if◌then◌else◌, Result, ok, err, and_then,
  assert_failed, aborted,
}
use snesemu.Registers.{
  Registers, RegisterLength, RegisterValue, value8_low, value8_high, by_length, masked,
  status_flag_set, status_flag_reset, status_flag_force, status_flag_isset, status_flag_assign,
  update8, update16, accumulator_set, accumulator_set16, x_set, y_set, direct_page_set,
  stack_pointer_set, program_counter_set, program_bank_set, program_bank_get, data_bank_set,
  data_bank_get, emulation_set, emulation_reset,
}
use snesemu.Registers.StatusFlag
use snesemu.Bus
use snesemu.Machine.{Machine, M, pure, ◌>>=◌, ◌>>◌, registers, modify, inspect, bus_read, bus_write}
use snesemu.Cpu.Defs.{Mnemonic, AddressType, EffectiveAddress}
use snesemu.Cpu.Stack.{push, pull}

unfoldable pub fetch_memory : ℕ → ℕ → Machine → Result ℕ
fetch_memory addr size m = and_then (Bus.read m.bus addr) λ low.
    if size == 2
    then (and_then (Bus.read m.bus (u32 (addr + 1))) λ high. ok (u16 (low + (high <<< 8))))
    else ok low

fetch_by_type : AddressType → ℕ → ℕ → Machine → Result ℕ
fetch_by_type AddressType.immediate_data addr size m = ok (u16 addr)
fetch_by_type AddressType.accumulator addr size m =
    let acc = m.registers.accumulator in ok (by_length acc.len (value8_low acc) acc.value16)
fetch_by_type _ addr size m = fetch_memory addr size m

unfoldable pub fetch_data : EffectiveAddress → ℕ → Machine → Result ℕ
unfolding fetch_memory fetch_by_type
fetch_data eff_addr size m = fetch_by_type eff_addr.type eff_addr.simple_address size m

unfoldable pub store_memory : ℕ → ℕ → ℕ → M (Unit {0})
store_memory addr value size = do
  bus_write addr (u8 value)
  modify (λ r. update8 r (u8 value))
  if size == 2
      then (do bus_write (u32 (addr + 1)) (u8 (value >>> 8)); modify (λ r. update16 r value))
      else pure tt

unfoldable pub store_by_type : AddressType → ℕ → ℕ → ℕ → M (Unit {0})
store_by_type AddressType.accumulator addr value size = modify (λ r. accumulator_set r value)
store_by_type _ addr value size = store_memory addr value size

unfoldable pub store_data : EffectiveAddress → ℕ → ℕ → M (Unit {0})
unfolding store_memory store_by_type
store_data eff_addr value size = store_by_type eff_addr.type eff_addr.simple_address value size

-- `acc.len == CPU_REGISTER_8_BIT? 1:2`
abbrev pub acc_size : Registers → ℕ
acc_size r = by_length r.accumulator.len 1 2
