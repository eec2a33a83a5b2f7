-- ===== src/Cpu/Opcodes.antt =====
-- The table `ops` of src/snes_cpu.c, and the sizes of operands.
mod Entry
mod Low
mod Mid
mod High
mod Top
pub mod Sizes
pub use Entry.{Opcode}
use Entry.{op}
use Low.{row_0, row_1, row_2, row_3}
use Mid.{row_4, row_5, row_6, row_7}
use High.{row_8, row_9, row_a, row_b}
use Top.{row_c, row_d, row_e, row_f}
use snesemu.Base.{
  ℕ, zero, suc, ◌/◌, ◌%◌, ◌&&◌, Bool, true, false, List, [], ◌∷◌, get_or, if◌then◌else◌,
}
use snesemu.Cpu.Defs.{Mnemonic, AddressingMode}
use snesemu.Registers.{Registers, status_flag_isset, masked}
use snesemu.Registers.StatusFlag

table : List (List Opcode)
unfolding row_0 row_1 row_2 row_3 row_4 row_5 row_6 row_7 row_8 row_9 row_a row_b row_c row_d row_e
    row_f
table =
    row_0 ∷ row_1 ∷ row_2 ∷ row_3 ∷ row_4 ∷ row_5 ∷ row_6 ∷ row_7 ∷ row_8 ∷ row_9 ∷ row_a ∷ row_b
    ∷ row_c ∷ row_d ∷ row_e ∷ row_f ∷ []

-- `ops[word]`, by row and column; `word` is a uint8_t, so the last default is never met.
unfoldable pub ops : ℕ → Opcode
unfolding table
ops word =
    get_or (get_or table (word / 16) []) (word % 16)
      (op Mnemonic.brk AddressingMode.stack_interrupt 7)

unfoldable pub mne_is_m_sensitive : Mnemonic → Bool
mne_is_m_sensitive Mnemonic.ora = true
mne_is_m_sensitive Mnemonic.and = true
mne_is_m_sensitive Mnemonic.eor = true
mne_is_m_sensitive Mnemonic.adc = true
mne_is_m_sensitive Mnemonic.bit = true
mne_is_m_sensitive Mnemonic.lda = true
mne_is_m_sensitive Mnemonic.cmp = true
mne_is_m_sensitive Mnemonic.sbc = true
mne_is_m_sensitive _ = false

unfoldable pub mne_is_x_sensitive : Mnemonic → Bool
mne_is_x_sensitive Mnemonic.ldy = true
mne_is_x_sensitive Mnemonic.ldx = true
mne_is_x_sensitive Mnemonic.cpy = true
mne_is_x_sensitive Mnemonic.cpx = true
mne_is_x_sensitive _ = false

unfoldable pub mne_is_always_one : Mnemonic → Bool
mne_is_always_one Mnemonic.sep = true
mne_is_always_one Mnemonic.rep = true
mne_is_always_one _ = false

unfoldable pub immediate_size : Registers → Mnemonic → ℕ
unfolding mne_is_m_sensitive mne_is_x_sensitive mne_is_always_one
immediate_size r mne =
    if r.emulation
    then 1
    else if mne_is_m_sensitive mne && status_flag_isset r StatusFlag.m
    then 1
    else if mne_is_x_sensitive mne && status_flag_isset r StatusFlag.x
    then 1
    else if mne_is_always_one mne
    then 1
    else 2

-- `snes_cpu_get_opcode_size`, by the addressing mode.
unfoldable pub mode_size : Registers → Mnemonic → AddressingMode → ℕ
mode_size r mne AddressingMode.direct_page = 1
mode_size r mne AddressingMode.direct_page_indexed_x = 1
mode_size r mne AddressingMode.direct_page_indexed_y = 1
mode_size r mne AddressingMode.direct_page_indexed_indirect_x = 1
mode_size r mne AddressingMode.direct_page_indirect = 1
mode_size r mne AddressingMode.direct_page_indirect_long = 1
mode_size r mne AddressingMode.direct_page_indirect_indexed_y = 1
mode_size r mne AddressingMode.direct_page_indirect_long_indexed_y = 1
mode_size r mne AddressingMode.program_counter_relative = 1
mode_size r mne AddressingMode.stack_direct_page_indirect = 1
mode_size r mne AddressingMode.stack_interrupt = 1
mode_size r mne AddressingMode.stack_relative = 1
mode_size r mne AddressingMode.stack_relative_indirect_indexed_y = 1
mode_size r mne AddressingMode.absolute = 2
mode_size r mne AddressingMode.absolute_indexed_x = 2
mode_size r mne AddressingMode.absolute_indexed_y = 2
mode_size r mne AddressingMode.absolute_indexed_indirect = 2
mode_size r mne AddressingMode.absolute_indirect = 2
mode_size r mne AddressingMode.absolute_indirect_long = 2
mode_size r mne AddressingMode.block_move = 2
mode_size r mne AddressingMode.program_counter_relative_long = 2
mode_size r mne AddressingMode.stack_absolute = 2
mode_size r mne AddressingMode.stack_program_counter_relative_long = 2
mode_size r mne AddressingMode.absolute_long = 3
mode_size r mne AddressingMode.absolute_long_indexed_x = 3
mode_size r mne AddressingMode.immediate = immediate_size r mne
mode_size r mne _ = 0

unfoldable pub get_opcode_size : Registers → Opcode → ℕ
get_opcode_size r opcode = mode_size r opcode.mne opcode.addr
