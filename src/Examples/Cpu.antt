-- ===== src/Examples/Cpu.antt =====
-- Runs of instructions on data.
use snesemu.Base.{◌≡◌, ◌≤◌, refl, true, false, ok, arith, ◌⊎◌, ◌↔◌}
use snesemu.Base.Bits.{testbit}
use snesemu.Registers.{
  Registers, RegisterLength, value8_low, value8_high, status_flag_isset, status_flag_set,
  status_flag_reset, status_flag_force, emulation_reset, update8, update16,
}
use snesemu.Registers.Flags.{flag}
use snesemu.Registers.Coherence.{
  Coherent, status_flag_set-reset-Coherent, status_flag_force-Coherent, emulation_reset-Coherent,
}
use snesemu.Machine.{Machine}
use snesemu.Cpu.Execute.Operand.{fetch_data, store_data}
use snesemu.Cpu.Execute.Operand.RoundTrips.{fetch_data-store_data}
use snesemu.Cpu.Execute.Arithmetic.{execute_adc, execute_cmp}
use snesemu.Cpu.Execute.Arithmetic.Adc.{adc_byte, adc_word}
use snesemu.Cpu.Execute.Arithmetic.Compare.{Compared, cmp_byte, cmp_word}
use snesemu.Cpu.Execute.Transfer.{xba, execute_xba}
use snesemu.Cpu.Execute.Transfer.Exchange.{xba_swap}
use snesemu.Cpu.Execute.Status.{xce, execute_xce}
use snesemu.Cpu.Execute.Status.CarryExchange.{xce_swap}
use snesemu.Examples.{narrow, wide, narrow_machine, wide_machine, immediate, simple, at_length}

binary_narrow : status_flag_isset narrow 8 ≡ false
unfolding status_flag_isset
binary_narrow = refl

binary_wide : status_flag_isset wide 8 ≡ false
unfolding status_flag_isset
binary_wide = refl

operand_narrow : fetch_data (immediate 0x50) 1 narrow_machine ≡ ok 0x50
unfolding fetch_data
operand_narrow = refl

operand_wide : fetch_data (immediate 0x7000) 2 wide_machine ≡ ok 0x7000
unfolding fetch_data
operand_wide = refl

-- 0xff and 0xff, whose sum 0xfe leaves the carry clear.
abbrev high_machine : Machine
high_machine = record narrow_machine {
  registers = record narrow { accumulator = at_length RegisterLength.bit8 0x12ff };
}

operand_high : fetch_data (immediate 0xff) 1 high_machine ≡ ok 0xff
unfolding fetch_data
operand_high = refl

adc_byte_example :
    (r : Registers) × (execute_adc (immediate 0xff) high_machine
      ≡ ok (tt, record high_machine { registers = r }))
    × (value8_low r.accumulator ≡ 0xfe)
    × (value8_high r.accumulator ≡ 0x12)
    × (((true ≡ false) × (flag 0 r.status ≡ true))
        ⊎ ((true ≡ true) × (256 ≤ 510) × (flag 0 r.status ≡ false)))
    × (flag 1 r.status ≡ false)
    × (flag 6 r.status ≡ false)
    × (flag 7 r.status ≡ true)
unfolding status_flag_isset
adc_byte_example = adc_byte (immediate 0xff) high_machine refl binary_narrow operand_high

-- 0x1250 + 0x7000 and the carry.
adc_word_example :
    (r : Registers) × (execute_adc (immediate 0x7000) wide_machine
      ≡ ok (tt, record wide_machine { registers = r }))
    × (r.accumulator.value16 ≡ 0x8251)
    × (((false ≡ false) × (flag 0 r.status ≡ false))
        ⊎ ((false ≡ true) × (65536 ≤ 0x8251) × (flag 0 r.status ≡ false)))
    × (flag 1 r.status ≡ false)
    × (flag 6 r.status ≡ true)
    × (flag 7 r.status ≡ true)
unfolding status_flag_isset
adc_word_example =
    adc_word (immediate 0x7000) wide_machine refl (omega arith) (omega arith) binary_wide
      operand_wide

cmp_byte_example :
    (r : Registers) × (execute_cmp (immediate 0x50) narrow_machine
      ≡ ok (tt, record narrow_machine { registers = r }))
    × Compared narrow 0x50 0x50 r
cmp_byte_example = cmp_byte (immediate 0x50) narrow_machine refl (omega arith) operand_narrow

cmp_word_example :
    (r : Registers) × (execute_cmp (immediate 0x7000) wide_machine
      ≡ ok (tt, record wide_machine { registers = r }))
    × Compared wide 0x1250 0x7000 r
cmp_word_example =
    cmp_word (immediate 0x7000) wide_machine refl (omega arith) (omega arith) operand_wide

fetch_data-store_data_example :
    (m' : Machine) × (store_data (simple 0x100) 0xbeef 2 wide_machine ≡ ok (tt, m'))
    × (m'.registers ≡ update16 (update8 wide 0xef) 0xbeef)
    × (fetch_data (simple 0x100) 2 m' ≡ ok 0xbeef)
fetch_data-store_data_example =
    fetch_data-store_data wide_machine 0x100 0xbeef (immediate 0) (omega arith) (omega arith)
      (omega arith)

xba_swap_example :
    (r : Registers) × (execute_xba (immediate 0) narrow_machine
      ≡ ok (tt, record narrow_machine { registers = r }))
    × (value8_low r.accumulator ≡ 0x12)
    × (value8_high r.accumulator ≡ 0x50)
    × ((xba r).accumulator ≡ narrow.accumulator)
xba_swap_example = xba_swap (immediate 0) narrow_machine (omega arith)

xce_swap_example :
    (r : Registers) × (execute_xce (immediate 0) wide_machine
      ≡ ok (tt, record wide_machine { registers = r }))
    × (flag 0 r.status ≡ false)
    × (r.emulation ≡ flag 0 1)
    × (flag 0 (xce r).status ≡ flag 0 1)
    × ((xce r).emulation ≡ false)
xce_swap_example = xce_swap (immediate 0) wide_machine

narrow-Coherent : Coherent narrow
unfolding flag testbit
narrow-Coherent = record { accumulator = refl; x = refl; y = refl }

status_flag_set-reset-Coherent_example :
    Coherent (status_flag_set narrow 0x20) × Coherent (status_flag_reset narrow 0x20)
status_flag_set-reset-Coherent_example =
    status_flag_set-reset-Coherent 0x20 (omega arith) narrow-Coherent

emulation_reset-Coherent_example : Coherent (emulation_reset wide)
emulation_reset-Coherent_example = emulation_reset-Coherent wide

status_flag_force-Coherent_example :
    Coherent (status_flag_force narrow 0x10)
    ↔ ((flag 5 0x10 ≡ true) ⊎ (narrow.accumulator.len ≡ RegisterLength.bit16))
      × ((flag 4 0x10 ≡ true) ⊎ (narrow.x.len ≡ RegisterLength.bit16))
      × ((flag 4 0x10 ≡ true) ⊎ (narrow.y.len ≡ RegisterLength.bit16))
status_flag_force-Coherent_example = status_flag_force-Coherent narrow 0x10
