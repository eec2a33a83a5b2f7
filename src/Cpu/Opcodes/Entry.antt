-- ===== src/Cpu/Opcodes/Entry.antt =====
-- An entry of the table of opcodes.
use snesemu.Base.{ℕ}
use snesemu.Cpu.Defs.{Mnemonic, AddressingMode}

pub record Opcode : Type 0 where
  pub mne : Mnemonic
  pub addr : AddressingMode
  pub cycles : ℕ

abbrev pub op : Mnemonic → AddressingMode → ℕ → Opcode
op mne addr cycles = record { mne = mne; addr = addr; cycles = cycles }
