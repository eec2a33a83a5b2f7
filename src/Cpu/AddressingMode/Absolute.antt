-- ===== src/Cpu/AddressingMode/Absolute.antt =====
-- The absolute, accumulator, block move and immediate modes.
use snesemu.Base.{ℕ, ◌+◌, u16, u32, Result, ok, ◌>>=◌}
use snesemu.Registers.{Registers, program_bank_get, data_bank_get}
use snesemu.Bus.{Bus}
use snesemu.Cpu.Defs.{Mnemonic, AddressType, EffectiveAddress}
use snesemu.Cpu.AddressingMode.Index.{index_value, at, add_pointer16, add_pointer24}

pub data MnemonicType : Type 0 where
  locates_data transfer_control : MnemonicType

unfoldable pub mnemonic_get_type : Mnemonic → MnemonicType
mnemonic_get_type Mnemonic.jmp = MnemonicType.transfer_control
mnemonic_get_type Mnemonic.jsr = MnemonicType.transfer_control
mnemonic_get_type _ = MnemonicType.locates_data

absolute_bank : Registers → MnemonicType → ℕ
absolute_bank r MnemonicType.transfer_control = program_bank_get r
absolute_bank r MnemonicType.locates_data = data_bank_get r

module _ (raw : EffectiveAddress) where
  unfoldable pub resolve_absolute : Registers → Mnemonic → ℕ → EffectiveAddress
  unfolding absolute_bank mnemonic_get_type
  resolve_absolute r mne addr =
      at raw AddressType.simple (u32 (addr + absolute_bank r (mnemonic_get_type mne)))

  unfoldable pub resolve_absolute_idx_x : Registers → ℕ → EffectiveAddress
  resolve_absolute_idx_x r addr =
      at raw AddressType.simple (u32 (addr + data_bank_get r + index_value r.x))

  unfoldable pub resolve_absolute_idx_y : Registers → ℕ → EffectiveAddress
  resolve_absolute_idx_y r addr =
      at raw AddressType.simple (u32 (addr + data_bank_get r + index_value r.y))

  unfoldable pub resolve_absolute_idx_ind : Bus → Registers → ℕ → Result EffectiveAddress
  resolve_absolute_idx_ind bus r addr = do
    let ind_addr = u32 (addr + index_value r.x + program_bank_get r)
    sum ← add_pointer16 bus (program_bank_get r) ind_addr (u32 (ind_addr + 1))
    ok (at raw AddressType.simple sum)

  -- `ind_addr + 1` is an `int`, so it does not wrap at 16 bits.
  unfoldable pub resolve_absolute_ind : Bus → Registers → ℕ → Result EffectiveAddress
  resolve_absolute_ind bus r ind_addr = do
    sum ← add_pointer16 bus (program_bank_get r) ind_addr (ind_addr + 1)
    ok (at raw AddressType.simple sum)

  -- The sum starts from whatever the local variable holds.
  unfoldable pub resolve_absolute_ind_long : Bus → ℕ → Result EffectiveAddress
  resolve_absolute_ind_long bus ind_addr = do
    sum ← add_pointer24 bus raw.simple_address ind_addr (ind_addr + 1) (ind_addr + 2)
    ok (at raw AddressType.simple sum)

  unfoldable pub resolve_absolute_long : ℕ → EffectiveAddress
  resolve_absolute_long addr = at raw AddressType.simple addr

  unfoldable pub resolve_absolute_long_idx_x : Registers → ℕ → EffectiveAddress
  resolve_absolute_long_idx_x r addr = at raw AddressType.simple (u32 (addr + index_value r.x))

  unfoldable pub resolve_acc : EffectiveAddress
  resolve_acc = record raw { type = AddressType.accumulator }

  -- `dest` is `simple_address`.
  unfoldable pub resolve_block_move : Registers → EffectiveAddress
  resolve_block_move r = record {
    type = AddressType.block_move;
    simple_address = index_value r.y;
    src = index_value r.x;
    count = u16 (r.accumulator.value16 + 1);
  }

  unfoldable pub resolve_immediate : ℕ → EffectiveAddress
  resolve_immediate addr = at raw AddressType.immediate_data addr
