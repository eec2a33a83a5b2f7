-- ===== src/Cpu/Execute/Status.antt =====
-- Instructions on the flags: src/snes_cpu_mne.c.
pub mod CarryExchange
use snesemu.Base.{
  ℕ, ◌+◌, ◌-◌, ◌*◌, ◌/◌, ◌%◌, ◌^◌, Bool, true, false, not, ◌&&◌, ◌||◌, bit_and, bit_or, bit_xor, u8,
  u16, u32, sub16, sub32, ltb, leb, ◌==◌, ◌<<<◌, ◌>>>◌, if◌then◌else◌, Result, ok, err, and_then,
  assert_failed, aborted,
}
use snesemu.Registers.{
  Registers, RegisterLength, RegisterValue, value8_low, value8_high, by_length, masked,
  status_flag_set, status_flag_reset, status_flag_force, status_flag_isset, status_flag_assign,
  update8, update16, accumulator_set, accumulator_set16, x_set, y_set, direct_page_set,
  stack_pointer_set, program_counter_set, program_bank_set, program_bank_get, data_bank_set,
  data_bank_get, emulation_set, emulation_reset,
}
use snesemu.Registers.StatusFlag
use snesemu.Bus
use snesemu.Machine.{Machine, M, pure, ◌>>=◌, ◌>>◌, registers, modify, inspect, bus_read, bus_write}
use snesemu.Cpu.Defs.{Mnemonic, AddressType, EffectiveAddress}
use snesemu.Cpu.Stack.{push, pull}

unfoldable pub execute_clc : EffectiveAddress → M (Unit {0})
execute_clc eff_addr = modify (λ r. status_flag_reset r StatusFlag.c)

unfoldable pub execute_cld : EffectiveAddress → M (Unit {0})
execute_cld eff_addr = modify (λ r. status_flag_reset r StatusFlag.d)

unfoldable pub execute_cli : EffectiveAddress → M (Unit {0})
execute_cli eff_addr = modify (λ r. status_flag_reset r StatusFlag.i)

unfoldable pub execute_clv : EffectiveAddress → M (Unit {0})
execute_clv eff_addr = modify (λ r. status_flag_reset r StatusFlag.v)

unfoldable pub execute_rep : EffectiveAddress → M (Unit {0})
execute_rep eff_addr = modify (λ r. status_flag_reset r (u8 eff_addr.simple_address))

unfoldable pub execute_sec : EffectiveAddress → M (Unit {0})
execute_sec eff_addr = modify (λ r. status_flag_set r StatusFlag.c)

unfoldable pub execute_sed : EffectiveAddress → M (Unit {0})
execute_sed eff_addr = modify (λ r. status_flag_set r StatusFlag.d)

unfoldable pub execute_sei : EffectiveAddress → M (Unit {0})
execute_sei eff_addr = modify (λ r. status_flag_set r StatusFlag.i)

unfoldable pub execute_sep : EffectiveAddress → M (Unit {0})
execute_sep eff_addr = modify (λ r. status_flag_set r (u8 eff_addr.simple_address))

-- `carry != emu`
abbrev differs : Bool → Bool → Bool
differs true b = not b
differs false b = b

-- The exchange of the carry flag and the emulation flag, on the registers alone.
unfoldable pub xce : Registers → Registers
xce r =
    let carry = status_flag_isset r StatusFlag.c in
    if differs carry r.emulation then if carry then emulation_set r else emulation_reset r else r

unfoldable pub execute_xce : EffectiveAddress → M (Unit {0})
execute_xce eff_addr = modify (λ r. xce r)
