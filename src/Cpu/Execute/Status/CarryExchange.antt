-- ===== src/Cpu/Execute/Status/CarryExchange.antt =====
-- XCE exchanges the carry flag with the emulation flag.
use snesemu.Base.{◌≡◌, refl, ◌∙◌, true, false, ok, arith}
use snesemu.Base.Bits.{testbit}
use snesemu.Registers.{
  Registers, emulation_set, emulation_reset, status_flag_set, status_flag_reset, switch_reg_len,
  switch_by_flags, switch_mem_len,
}
use snesemu.Registers.Flags.{flag, flag-set, flag-reset, isset_c}
use snesemu.Machine.{Machine}
use snesemu.Cpu.Defs.{EffectiveAddress}
use snesemu.Cpu.Execute.Status.{xce, execute_xce}

emulation_set_carry : (r : Registers) → flag 0 (emulation_set r).status ≡ false
unfolding emulation_set switch_reg_len switch_mem_len flag testbit
emulation_set_carry r =
    flag-reset 0 (record r { emulation = true }) 1 (omega arith) (omega arith) ∙ ground arith

emulation_reset_carry : (r : Registers) → flag 0 (emulation_reset r).status ≡ true
unfolding emulation_reset flag testbit
emulation_reset_carry r = flag-set 0 (record r { emulation = false }) 49 ∙ ground arith

emulation_set_mode : (r : Registers) → (emulation_set r).emulation ≡ true
unfolding emulation_set switch_reg_len switch_mem_len status_flag_reset switch_by_flags
emulation_set_mode r = refl

emulation_reset_mode : (r : Registers) → (emulation_reset r).emulation ≡ false
unfolding emulation_reset status_flag_set switch_reg_len switch_by_flags switch_mem_len
emulation_reset_mode r = refl

xce_exchange :
    (r : Registers) → (flag 0 (xce r).status ≡ r.emulation) × ((xce r).emulation ≡ flag 0 r.status)
unfolding xce
xce_exchange r =
    let c = isset_c r in
    let s = emulation_set_carry r in
    let sm = emulation_set_mode r in
    let t = emulation_reset_carry r in
    let tm = emulation_reset_mode r in (ground arith, ground arith)

-- XCE succeeds, and exchanges the carry flag with the emulation flag; twice it gives both back.
pub xce_swap :
    (eff : EffectiveAddress) (m : Machine)
    → (r : Registers) × (execute_xce eff m ≡ ok (tt, record m { registers = r }))
      × (flag 0 r.status ≡ m.registers.emulation)
      × (r.emulation ≡ flag 0 m.registers.status)
      × (flag 0 (xce r).status ≡ flag 0 m.registers.status)
      × ((xce r).emulation ≡ m.registers.emulation)
unfolding execute_xce
xce_swap eff m =
    let (c, e) = xce_exchange m.registers in
    let (c', e') = xce_exchange (xce m.registers) in (xce m.registers, refl, c, e, c' ∙ e, e' ∙ c)
