-- ===== src/Cpu/Opcodes/Sizes.antt =====
-- The sizes of operands.
use snesemu.Base.{◌≤◌, arith}
use snesemu.Cpu.Defs.{Mnemonic, AddressingMode}
use snesemu.Registers.{Registers}
use snesemu.Cpu.Opcodes.{Opcode, immediate_size, mode_size, get_opcode_size}

immediate_size-le : (r : Registers) (mne : Mnemonic) → immediate_size r mne ≤ 2
unfolding immediate_size
immediate_size-le r mne = ground arith

mode_size-le : (r : Registers) (mne : Mnemonic) (mode : AddressingMode) → mode_size r mne mode ≤ 3
unfolding mode_size
mode_size-le r mne AddressingMode.immediate = omega (arith, immediate_size-le r mne)
mode_size-le r mne AddressingMode.absolute = omega arith
mode_size-le r mne _ = omega arith

-- No operand is longer than three bytes.
pub get_opcode_size-le : (r : Registers) (opcode : Opcode) → get_opcode_size r opcode ≤ 3
unfolding get_opcode_size
get_opcode_size-le r opcode = mode_size-le r opcode.mne opcode.addr
