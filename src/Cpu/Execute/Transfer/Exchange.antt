-- ===== src/Cpu/Execute/Transfer/Exchange.antt =====
-- XBA exchanges the bytes of the accumulator.
use snesemu.Base.{◌+◌, ◌<◌, ◌≡◌, refl, ap, ◌∙◌, ◌<<<◌, ok, arith}
use snesemu.Registers.{Registers, value8_low, value8_high, set_value16, accumulator_set16}
use snesemu.Registers.Flags.{update8_status, update16_status}
use snesemu.Machine.{Machine}
use snesemu.Cpu.Defs.{EffectiveAddress}
use snesemu.Cpu.Execute.Transfer.{xba, execute_xba}

xba_accumulator :
    (r : Registers)
    → (xba r).accumulator
      ≡ set_value16 r.accumulator (value8_high r.accumulator + (value8_low r.accumulator <<< 8))
unfolding xba accumulator_set16
xba_accumulator r = simp (update8_status, update16_status)

-- XBA, with an accumulator of 16 bits: it succeeds, exchanges the two bytes whatever the width is,
-- and twice gives the accumulator back.
pub xba_swap :
    (eff : EffectiveAddress) (m : Machine)
    → m.registers.accumulator.value16 < 65536
    → (r : Registers) × (execute_xba eff m ≡ ok (tt, record m { registers = r }))
      × (value8_low r.accumulator ≡ value8_high m.registers.accumulator)
      × (value8_high r.accumulator ≡ value8_low m.registers.accumulator)
      × ((xba r).accumulator ≡ m.registers.accumulator)
unfolding execute_xba
xba_swap eff m h = (
  xba m.registers,
  refl,
  ap (λ v. value8_low v) (xba_accumulator m.registers) ∙ omega arith,
  ap (λ v. value8_high v) (xba_accumulator m.registers) ∙ omega arith,
  xba_accumulator (xba m.registers)
      ∙ ap (λ v. set_value16 v (value8_high v + (value8_low v <<< 8))) (xba_accumulator m.registers)
      ∙ ap (λ k. set_value16 m.registers.accumulator k) (omega arith),
)
