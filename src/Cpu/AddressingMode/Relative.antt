-- ===== src/Cpu/AddressingMode/Relative.antt =====
-- The modes relative to the program counter and to the stack pointer.
use snesemu.Base.{ℕ, ◌+◌, u16, u32, leb, if◌then◌else◌, Result, ok, ◌>>=◌}
use snesemu.Registers.{Registers, program_bank_get, data_bank_get}
use snesemu.Bus.{Bus}
use snesemu.Cpu.Defs.{AddressType, EffectiveAddress}
use snesemu.Cpu.AddressingMode.Index.{index_value, at, add_pointer16}
use snesemu.Cpu.AddressingMode.DirectPage.{resolve_direct_page_ind}

-- The conversions of an int8_t and of an int16_t to uint32_t.
abbrev pub sign_extend8 : ℕ → ℕ
sign_extend8 b = if leb 0x80 b then b + 0xffffff00 else b

abbrev pub sign_extend16 : ℕ → ℕ
sign_extend16 w = if leb 0x8000 w then w + 0xffff0000 else w

module _ (raw : EffectiveAddress) where
  unfoldable pub resolve_program_counter_relative : Registers → ℕ → EffectiveAddress
  resolve_program_counter_relative r addr =
      at raw AddressType.simple (u32 (r.pc + program_bank_get r + sign_extend8 addr))

  unfoldable pub resolve_program_counter_relative_long : Registers → ℕ → EffectiveAddress
  resolve_program_counter_relative_long r addr =
      at raw AddressType.simple (u32 (r.pc + program_bank_get r + sign_extend16 addr))

  unfoldable pub resolve_stack_relative_absolute : ℕ → EffectiveAddress
  resolve_stack_relative_absolute addr = at raw AddressType.stack addr

  unfoldable pub resolve_stack_relative_direct_page_ind :
      Bus → Registers → ℕ → Result EffectiveAddress
  unfolding resolve_direct_page_ind
  resolve_stack_relative_direct_page_ind bus r addr = do
    eff_addr ← resolve_direct_page_ind raw bus r addr
    ok (record eff_addr { type = AddressType.stack })

  unfoldable pub resolve_stack_relative_program_counter_relative_long :
      Registers → ℕ → EffectiveAddress
  unfolding resolve_program_counter_relative_long
  resolve_stack_relative_program_counter_relative_long r addr =
      record (resolve_program_counter_relative_long r (u16 addr)) { type = AddressType.stack }

  unfoldable pub resolve_stack_relative : Registers → ℕ → EffectiveAddress
  resolve_stack_relative r addr = at raw AddressType.stack (addr + r.stack_pointer.value16)

  unfoldable pub resolve_stack_relative_ind_idx_y : Bus → Registers → ℕ → Result EffectiveAddress
  resolve_stack_relative_ind_idx_y bus r addr = do
    let ind_addr = addr + r.stack_pointer.value16
    sum ← add_pointer16 bus (data_bank_get r) ind_addr (ind_addr + 1)
    ok (at raw AddressType.stack (u32 (sum + index_value r.y)))
