-- ===== src/Registers.antt =====
-- src/snes_cpu_registers.h and src/snes_cpu_registers.c: the registers of the processor. The host is
-- little-endian: `value8_low` is the low byte of `value16`. What the code prints is left out.
mod Values
pub mod StatusFlag
pub mod Flags
pub mod Widths
pub mod Coherence
pub use Values.*
use snesemu.Base.{
  ℕ, ◌+◌, ◌-◌, ◌*◌, ◌%◌, ◌^◌, Bool, true, false, not, Option, none, some, bit_and, bit_or, u8, u16,
  leb, ◌==◌, ◌<<<◌, if◌then◌else◌,
}

pub record Registers : Type 0 where
  pub accumulator : RegisterValue
  pub data_bank : ℕ
  pub x : RegisterValue
  pub y : RegisterValue
  pub direct_page : ℕ
  pub stack_pointer : RegisterValue
  pub program_bank : ℕ
  pub pc : ℕ
  pub status : ℕ
  pub emulation : Bool

-- The truth of `word & mask`.
abbrev pub masked : ℕ → ℕ → Bool
masked word mask = not (bit_and word mask == 0)

unfoldable pub switch_reg_len : Registers → RegisterLength → Registers
switch_reg_len r RegisterLength.bit8 = record r {
  x = set_value8_high (record r.x { len = RegisterLength.bit8 }) 0;
  y = set_value8_high (record r.y { len = RegisterLength.bit8 }) 0;
}
switch_reg_len r RegisterLength.bit16 = record r {
  x = record r.x { len = RegisterLength.bit16 };
  y = record r.y { len = RegisterLength.bit16 };
}

unfoldable pub switch_mem_len : Registers → RegisterLength → Registers
switch_mem_len r len = record r { accumulator = record r.accumulator { len = len } }

-- The two `if` statements on X and M that the three writers of the status share.
unfoldable pub switch_by_flags : Registers → ℕ → RegisterLength → Registers
unfolding switch_reg_len switch_mem_len
switch_by_flags r flags len =
    let r' = if masked flags StatusFlag.x then switch_reg_len r len else r in
    if masked flags StatusFlag.m then switch_mem_len r' len else r'

unfoldable pub status_flag_force : Registers → ℕ → Registers
status_flag_force r flags = switch_by_flags (record r { status = flags }) flags RegisterLength.bit8

unfoldable pub status_flag_set : Registers → ℕ → Registers
status_flag_set r flags =
    switch_by_flags (record r { status = bit_or r.status flags }) flags RegisterLength.bit8

unfoldable pub status_flag_reset : Registers → ℕ → Registers
status_flag_reset r flags =
    switch_by_flags (record r { status = bit_and r.status (255 - flags) }) flags
      RegisterLength.bit16

unfoldable pub status_flag_isset : Registers → ℕ → Bool
status_flag_isset r flag = masked r.status flag

-- `if(test) set else reset`, which most updates of a flag are.
unfoldable pub status_flag_assign : Registers → ℕ → Bool → Registers
status_flag_assign r flags test =
    if test then status_flag_set r flags else status_flag_reset r flags

-- `(int8_t)value < 0` and `(int16_t)value < 0` are tests of the top bit.
unfoldable pub update8 : Registers → ℕ → Registers
update8 r value =
    status_flag_assign (status_flag_assign r StatusFlag.z (value == 0)) StatusFlag.n
      (leb 0x80 value)

unfoldable pub update16 : Registers → ℕ → Registers
update16 r value =
    status_flag_assign (status_flag_assign r StatusFlag.z (value == 0)) StatusFlag.n
      (leb 0x8000 value)

unfoldable pub accumulator_set : Registers → ℕ → Registers
accumulator_set r value =
    by_length r.accumulator.len
      (update8 (record r { accumulator = set_value8_low r.accumulator value }) (u8 value))
      (update16 (record r { accumulator = set_value16 r.accumulator value }) value)

unfoldable pub accumulator_set16 : Registers → ℕ → Registers
accumulator_set16 r value =
    update16 (record r { accumulator = set_value16 r.accumulator value }) value

unfoldable pub x_set : Registers → ℕ → Registers
x_set r value =
    let r' = record r { x = set_value16 r.x value } in
    by_length r.x.len (update8 r' (value % 256)) (update16 r' value)

unfoldable pub y_set : Registers → ℕ → Registers
y_set r value =
    let r' = record r { y = set_value16 r.y value } in
    by_length r.y.len (update8 r' (value % 256)) (update16 r' value)

unfoldable pub direct_page_set : Registers → ℕ → Registers
direct_page_set r value = update16 (record r { direct_page = value }) value

unfoldable pub stack_pointer_set : Registers → ℕ → Registers
stack_pointer_set r value =
    by_length r.stack_pointer.len
      (record r { stack_pointer = set_value8_low r.stack_pointer value })
      (record r { stack_pointer = set_value16 r.stack_pointer value })

unfoldable pub program_counter_set : Registers → ℕ → Registers
program_counter_set r value = record r { pc = value }

unfoldable pub program_counter_inc : Registers → Registers
program_counter_inc r = record r { pc = u16 (r.pc + 1) }

unfoldable pub program_bank_set : Registers → ℕ → Registers
program_bank_set r value = record r { program_bank = value }

abbrev pub program_bank_get : Registers → ℕ
program_bank_get r = r.program_bank <<< 16

unfoldable pub data_bank_set : Registers → ℕ → Registers
data_bank_set r value = update8 (record r { data_bank = value }) value

abbrev pub data_bank_get : Registers → ℕ
data_bank_get r = r.data_bank <<< 16

unfoldable pub emulation_set : Registers → Registers
unfolding status_flag_reset switch_by_flags
emulation_set r =
    let r' = status_flag_reset (record r { emulation = true }) StatusFlag.c in
    let r'' = record r' { stack_pointer = set_value8_high r'.stack_pointer 0x01 } in
    switch_mem_len (switch_reg_len r'' RegisterLength.bit8) RegisterLength.bit8

unfoldable pub emulation_reset : Registers → Registers
unfolding status_flag_set switch_by_flags
emulation_reset r =
    status_flag_set (record r { emulation = false })
      (bit_or (bit_or StatusFlag.c StatusFlag.x) StatusFlag.m)

abbrev cleared : RegisterLength → RegisterValue
cleared len = record { len = len; value16 = 0 }

-- What `memset` and the length of the stack pointer give.
abbrev blank : Registers
blank = record {
  accumulator = cleared RegisterLength.bit8;
  data_bank = 0;
  x = cleared RegisterLength.bit8;
  y = cleared RegisterLength.bit8;
  direct_page = 0;
  stack_pointer = cleared RegisterLength.bit16;
  program_bank = 0;
  pc = 0;
  status = 0;
  emulation = false;
}

-- The registers as they are handed out.
unfoldable pub power_on : Registers
unfolding emulation_set
power_on = status_flag_reset (emulation_set blank) 0xf

-- The flag is what `malloc` gives.
unfoldable pub init : Bool → Option Registers
unfolding power_on
init false = none
init true = some power_on
