-- ===== src/Cpu/Execute/Control.antt =====
-- Branches, jumps, calls and returns: src/snes_cpu_mne.c.
pub mod Calls
pub mod Branches
use snesemu.Base.{
  ℕ, ◌+◌, ◌-◌, ◌*◌, ◌/◌, ◌%◌, ◌^◌, Bool, true, false, not, ◌&&◌, ◌||◌, bit_and, bit_or, bit_xor, u8,
  u16, u32, sub16, sub32, ltb, leb, ◌==◌, ◌<<<◌, ◌>>>◌, if◌then◌else◌, Result, ok, err, and_then,
  assert_failed, aborted,
}
use snesemu.Registers.{
  Registers, RegisterLength, RegisterValue, value8_low, value8_high, by_length, masked,
  status_flag_set, status_flag_reset, status_flag_force, status_flag_isset, status_flag_assign,
  update8, update16, accumulator_set, accumulator_set16, x_set, y_set, direct_page_set,
  stack_pointer_set, program_counter_set, program_bank_set, program_bank_get, data_bank_set,
  data_bank_get, emulation_set, emulation_reset,
}
use snesemu.Registers.StatusFlag
use snesemu.Bus
use snesemu.Machine.{Machine, M, pure, ◌>>=◌, ◌>>◌, registers, modify, inspect, bus_read, bus_write}
use snesemu.Cpu.Defs.{Mnemonic, AddressType, EffectiveAddress}
use snesemu.Cpu.Stack.{push, pull}

-- A branch that is taken loads the low 16 bits of its target.
unfoldable pub branch_if : Bool → Registers → ℕ → Registers
branch_if taken r target = if taken then program_counter_set r (u16 target) else r

unfoldable pub execute_bcc : EffectiveAddress → M (Unit {0})
execute_bcc eff_addr =
    modify (λ r. branch_if (not (status_flag_isset r StatusFlag.c)) r eff_addr.simple_address)

unfoldable pub execute_bcs : EffectiveAddress → M (Unit {0})
execute_bcs eff_addr =
    modify (λ r. branch_if (status_flag_isset r StatusFlag.c) r eff_addr.simple_address)

unfoldable pub execute_beq : EffectiveAddress → M (Unit {0})
execute_beq eff_addr =
    modify (λ r. branch_if (status_flag_isset r StatusFlag.z) r eff_addr.simple_address)

unfoldable pub execute_bmi : EffectiveAddress → M (Unit {0})
execute_bmi eff_addr =
    modify (λ r. branch_if (status_flag_isset r StatusFlag.n) r eff_addr.simple_address)

unfoldable pub execute_bne : EffectiveAddress → M (Unit {0})
execute_bne eff_addr =
    modify (λ r. branch_if (not (status_flag_isset r StatusFlag.z)) r eff_addr.simple_address)

-- BPL
unfoldable pub execute_blp : EffectiveAddress → M (Unit {0})
execute_blp eff_addr =
    modify (λ r. branch_if (not (status_flag_isset r StatusFlag.n)) r eff_addr.simple_address)

unfoldable pub execute_bra : EffectiveAddress → M (Unit {0})
execute_bra eff_addr = modify (λ r. program_counter_set r (u16 eff_addr.simple_address))

-- "Call interrupt, do nothing for now"
unfoldable pub execute_brk : EffectiveAddress → M (Unit {0})
execute_brk eff_addr = pure tt

unfoldable pub execute_brl : EffectiveAddress → M (Unit {0})
execute_brl eff_addr = modify (λ r. program_counter_set r (u16 eff_addr.simple_address))

unfoldable pub execute_bvc : EffectiveAddress → M (Unit {0})
execute_bvc eff_addr =
    modify (λ r. branch_if (not (status_flag_isset r StatusFlag.v)) r eff_addr.simple_address)

unfoldable pub execute_bvs : EffectiveAddress → M (Unit {0})
execute_bvs eff_addr =
    modify (λ r. branch_if (status_flag_isset r StatusFlag.v) r eff_addr.simple_address)

unfoldable pub execute_jmp : EffectiveAddress → M (Unit {0})
execute_jmp eff_addr = modify (λ r.
    let r' = program_counter_set r (u16 eff_addr.simple_address) in
    if not (eff_addr.simple_address >>> 16 == 0)
    then program_bank_set r' (u8 (eff_addr.simple_address >>> 16))
    else r')

unfoldable pub execute_jsr : EffectiveAddress → M (Unit {0})
execute_jsr eff_addr = do
  r ← registers
  let pc = sub16 r.pc 1
  push (u8 (pc >>> 8))
  push (u8 pc)
  modify (λ s. program_counter_set s (u16 eff_addr.simple_address))

unfoldable pub execute_rti : EffectiveAddress → M (Unit {0})
execute_rti eff_addr = do
  low ← pull
  high ← pull
  pbr ← pull
  p ← pull
  modify (λ r.
      status_flag_force (program_bank_set (program_counter_set r (u16 (low + (high <<< 8)))) pbr) p)

unfoldable pub execute_rtl : EffectiveAddress → M (Unit {0})
execute_rtl eff_addr = do
  low ← pull
  high ← pull
  pbr ← pull
  modify (λ r. program_bank_set (program_counter_set r (u16 (low + (high <<< 8) + 1))) pbr)

unfoldable pub execute_rts : EffectiveAddress → M (Unit {0})
execute_rts eff_addr = do
  low ← pull
  high ← pull
  modify (λ r. program_counter_set r (u16 (low + (high <<< 8) + 1)))

-- "wait for interrupt, must assert"
unfoldable pub execute_wai : EffectiveAddress → M (Unit {0})
execute_wai eff_addr m = err aborted

-- Instructions that do nothing: COP, MVN, MVP, NOP and WDM.
unfoldable pub execute_cop : EffectiveAddress → M (Unit {0})
execute_cop eff_addr = pure tt

unfoldable pub execute_mvn : EffectiveAddress → M (Unit {0})
execute_mvn eff_addr = pure tt

unfoldable pub execute_mvp : EffectiveAddress → M (Unit {0})
execute_mvp eff_addr = pure tt

unfoldable pub execute_nop : EffectiveAddress → M (Unit {0})
execute_nop eff_addr = pure tt

unfoldable pub execute_wdm : EffectiveAddress → M (Unit {0})
execute_wdm eff_addr = pure tt
