-- ===== src/Cpu/Execute/Transfer.antt =====
-- Loads, stores and transfers between registers: src/snes_cpu_mne.c.
pub mod Exchange
use snesemu.Base.{
  ℕ, ◌+◌, ◌-◌, ◌*◌, ◌/◌, ◌%◌, ◌^◌, Bool, true, false, not, ◌&&◌, ◌||◌, bit_and, bit_or, bit_xor, u8,
  u16, u32, sub16, sub32, ltb, leb, ◌==◌, ◌<<<◌, ◌>>>◌, if◌then◌else◌, Result, ok, err, and_then,
  assert_failed, aborted,
}
use snesemu.Registers.{
  Registers, RegisterLength, RegisterValue, value8_low, value8_high, by_length, masked,
  status_flag_set, status_flag_reset, status_flag_force, status_flag_isset, status_flag_assign,
  update8, update16, accumulator_set, accumulator_set16, x_set, y_set, direct_page_set,
  stack_pointer_set, program_counter_set, program_bank_set, program_bank_get, data_bank_set,
  data_bank_get, emulation_set, emulation_reset,
}
use snesemu.Registers.StatusFlag
use snesemu.Bus
use snesemu.Machine.{Machine, M, pure, ◌>>=◌, ◌>>◌, registers, modify, inspect, bus_read, bus_write}
use snesemu.Cpu.Defs.{Mnemonic, AddressType, EffectiveAddress}
use snesemu.Cpu.Stack.{push, pull}
use snesemu.Cpu.Execute.Operand.{fetch_data, store_data, acc_size}

unfoldable pub execute_lda : EffectiveAddress → M (Unit {0})
execute_lda eff_addr = do
  r ← registers
  value ← inspect (fetch_data eff_addr (by_length r.accumulator.len 1 2))
  modify (λ s. accumulator_set s value)

unfoldable pub execute_ldx : EffectiveAddress → M (Unit {0})
execute_ldx eff_addr = do
  r ← registers
  value ← inspect (fetch_data eff_addr (by_length r.x.len 1 2))
  modify (λ s. x_set s value)

unfoldable pub execute_ldy : EffectiveAddress → M (Unit {0})
execute_ldy eff_addr = do
  r ← registers
  value ← inspect (fetch_data eff_addr (by_length r.y.len 1 2))
  modify (λ s. y_set s value)

unfoldable pub execute_sta : EffectiveAddress → M (Unit {0})
execute_sta eff_addr = do
  r ← registers
  bus_write eff_addr.simple_address (value8_low r.accumulator)
  by_length r.accumulator.len (pure tt)
      (bus_write (u32 (eff_addr.simple_address + 1)) (value8_high r.accumulator))

unfoldable pub execute_stx : EffectiveAddress → M (Unit {0})
execute_stx eff_addr = do
  r ← registers
  bus_write eff_addr.simple_address (value8_low r.x)
  by_length r.x.len (pure tt) (bus_write (u32 (eff_addr.simple_address + 1)) (value8_high r.x))

unfoldable pub execute_sty : EffectiveAddress → M (Unit {0})
execute_sty eff_addr = do
  r ← registers
  bus_write eff_addr.simple_address (value8_low r.y)
  by_length r.y.len (pure tt) (bus_write (u32 (eff_addr.simple_address + 1)) (value8_high r.y))

-- The status is written at the effective address, which is 0 for this instruction.
unfoldable pub execute_stp : EffectiveAddress → M (Unit {0})
execute_stp eff_addr = do r ← registers; bus_write eff_addr.simple_address r.status

unfoldable pub execute_stz : EffectiveAddress → M (Unit {0})
execute_stz eff_addr = do
  r ← registers
  bus_write eff_addr.simple_address 0
  if not r.emulation && not (status_flag_isset r StatusFlag.m)
      then bus_write (u32 (eff_addr.simple_address + 1)) 0
      else pure tt

unfoldable pub execute_tax : EffectiveAddress → M (Unit {0})
execute_tax eff_addr =
    modify (λ r. x_set r (by_length r.x.len (value8_low r.accumulator) r.accumulator.value16))

unfoldable pub execute_tay : EffectiveAddress → M (Unit {0})
execute_tay eff_addr =
    modify (λ r. y_set r (by_length r.y.len (value8_low r.accumulator) r.accumulator.value16))

unfoldable pub execute_tcd : EffectiveAddress → M (Unit {0})
execute_tcd eff_addr = modify (λ r. direct_page_set r r.accumulator.value16)

unfoldable pub execute_tcs : EffectiveAddress → M (Unit {0})
execute_tcs eff_addr = modify (λ r. stack_pointer_set r r.accumulator.value16)

unfoldable pub execute_tdc : EffectiveAddress → M (Unit {0})
execute_tdc eff_addr = modify (λ r. accumulator_set16 r r.direct_page)

unfoldable pub execute_tsc : EffectiveAddress → M (Unit {0})
execute_tsc eff_addr = modify (λ r. accumulator_set16 r r.stack_pointer.value16)

unfoldable pub execute_tsx : EffectiveAddress → M (Unit {0})
execute_tsx eff_addr = modify (λ r. x_set r r.stack_pointer.value16)

unfoldable pub execute_txa : EffectiveAddress → M (Unit {0})
execute_txa eff_addr = modify (λ r. accumulator_set r r.x.value16)

unfoldable pub execute_txs : EffectiveAddress → M (Unit {0})
execute_txs eff_addr = modify (λ r. stack_pointer_set r r.x.value16)

unfoldable pub execute_txy : EffectiveAddress → M (Unit {0})
execute_txy eff_addr = modify (λ r. y_set r r.x.value16)

unfoldable pub execute_tya : EffectiveAddress → M (Unit {0})
execute_tya eff_addr = modify (λ r. accumulator_set r r.y.value16)

unfoldable pub execute_tyx : EffectiveAddress → M (Unit {0})
execute_tyx eff_addr = modify (λ r. x_set r r.y.value16)

-- The exchange of the two bytes of the accumulator, on the registers alone.
unfoldable pub xba : Registers → Registers
xba r =
    let acc = r.accumulator in
    update8 (accumulator_set16 r (value8_high acc + (value8_low acc <<< 8))) (value8_high acc)

unfoldable pub execute_xba : EffectiveAddress → M (Unit {0})
execute_xba eff_addr = modify (λ r. xba r)
