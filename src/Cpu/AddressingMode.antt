-- ===== src/Cpu/AddressingMode.antt =====
-- src/snes_cpu_addressing_mode.c: from an operand to an effective address.
mod Index
mod Absolute
mod DirectPage
mod Relative
unfoldable pub use Index.*
unfoldable pub use Absolute.*
unfoldable pub use DirectPage.*
unfoldable pub use Relative.*
use snesemu.Base.{ℕ, ◌%◌, Result, ok, u8, u16}
use snesemu.Registers.{Registers}
use snesemu.Bus.{Bus}
use snesemu.Cpu.Defs.{Mnemonic, AddressingMode, EffectiveAddress, AddressType}

-- `snes_cpu_addressing_mode_decode`. `raw` is what a local `eff_addr` holds before it is assigned.
unfoldable pub decode :
    EffectiveAddress → Bus → Registers → Mnemonic → AddressingMode → ℕ → Result EffectiveAddress
decode raw bus r mne AddressingMode.absolute addr = ok (resolve_absolute raw r mne (u16 addr))
decode raw bus r mne AddressingMode.absolute_indexed_x addr =
    ok (resolve_absolute_idx_x raw r (u16 addr))
decode raw bus r mne AddressingMode.absolute_indexed_y addr =
    ok (resolve_absolute_idx_y raw r (u16 addr))
decode raw bus r mne AddressingMode.absolute_indexed_indirect addr =
    resolve_absolute_idx_ind raw bus r (u16 addr)
decode raw bus r mne AddressingMode.absolute_indirect addr =
    resolve_absolute_ind raw bus r (u16 addr)
decode raw bus r mne AddressingMode.absolute_indirect_long addr =
    resolve_absolute_ind_long raw bus (u16 addr)
decode raw bus r mne AddressingMode.absolute_long addr = ok (resolve_absolute_long raw addr)
decode raw bus r mne AddressingMode.absolute_long_indexed_x addr =
    ok (resolve_absolute_long_idx_x raw r addr)
decode raw bus r mne AddressingMode.accumulator addr = ok (resolve_acc raw)
decode raw bus r mne AddressingMode.block_move addr = ok (resolve_block_move raw r)
decode raw bus r mne AddressingMode.direct_page addr = ok (resolve_direct_page raw r (u8 addr))
decode raw bus r mne AddressingMode.direct_page_indexed_x addr =
    ok (resolve_direct_page_idx_x raw r (u8 addr))
decode raw bus r mne AddressingMode.direct_page_indexed_y addr =
    ok (resolve_direct_page_idx_y raw r (u8 addr))
decode raw bus r mne AddressingMode.direct_page_indexed_indirect_x addr =
    resolve_direct_page_idx_ind_x raw bus r (u8 addr)
decode raw bus r mne AddressingMode.direct_page_indirect addr =
    resolve_direct_page_ind raw bus r (u8 addr)
decode raw bus r mne AddressingMode.direct_page_indirect_long addr =
    resolve_direct_page_ind_long raw bus r (u8 addr)
decode raw bus r mne AddressingMode.direct_page_indirect_indexed_y addr =
    resolve_direct_page_ind_idx_y raw bus r (u8 addr)
decode raw bus r mne AddressingMode.direct_page_indirect_long_indexed_y addr =
    resolve_direct_page_ind_long_idx_y raw bus r (u8 addr)
decode raw bus r mne AddressingMode.immediate addr = ok (resolve_immediate raw (u16 addr))
decode raw bus r mne AddressingMode.program_counter_relative addr =
    ok (resolve_program_counter_relative raw r (u8 addr))
decode raw bus r mne AddressingMode.program_counter_relative_long addr =
    ok (resolve_program_counter_relative_long raw r (u16 addr))
decode raw bus r mne AddressingMode.stack_absolute addr =
    ok (resolve_stack_relative_absolute raw (u16 addr))
decode raw bus r mne AddressingMode.stack_direct_page_indirect addr =
    resolve_stack_relative_direct_page_ind raw bus r (u8 addr)
decode raw bus r mne AddressingMode.stack_program_counter_relative_long addr =
    ok (resolve_stack_relative_program_counter_relative_long raw r addr)
decode raw bus r mne AddressingMode.stack_relative addr =
    ok (resolve_stack_relative raw r (u8 addr))
decode raw bus r mne AddressingMode.stack_relative_indirect_indexed_y addr =
    resolve_stack_relative_ind_idx_y raw bus r (u8 addr)
decode raw bus r mne _ addr =
    ok (record { type = AddressType.simple; simple_address = 0; src = 0; count = 0 })
