-- ===== src/Cpu/AddressingMode/DirectPage.antt =====
-- The direct page modes.
use snesemu.Base.{ℕ, ◌+◌, u32, Result, ok, ◌>>=◌}
use snesemu.Registers.{Registers, data_bank_get}
use snesemu.Bus.{Bus}
use snesemu.Cpu.Defs.{AddressType, EffectiveAddress}
use snesemu.Cpu.AddressingMode.Index.{index_value, at, add_pointer16, add_pointer24}

module _ (raw : EffectiveAddress) where
  unfoldable pub resolve_direct_page : Registers → ℕ → EffectiveAddress
  resolve_direct_page r addr = at raw AddressType.simple (addr + r.direct_page)

  unfoldable pub resolve_direct_page_idx_x : Registers → ℕ → EffectiveAddress
  unfolding resolve_direct_page
  resolve_direct_page_idx_x r addr =
      let eff_addr = resolve_direct_page r addr in
      record eff_addr { simple_address = u32 (eff_addr.simple_address + index_value r.x) }

  unfoldable pub resolve_direct_page_idx_y : Registers → ℕ → EffectiveAddress
  unfolding resolve_direct_page
  resolve_direct_page_idx_y r addr =
      let eff_addr = resolve_direct_page r addr in
      record eff_addr { simple_address = u32 (eff_addr.simple_address + index_value r.y) }

  unfoldable pub resolve_direct_page_idx_ind_x : Bus → Registers → ℕ → Result EffectiveAddress
  resolve_direct_page_idx_ind_x bus r addr = do
    let ind_addr = u32 (r.direct_page + index_value r.x + addr)
    sum ← add_pointer16 bus (data_bank_get r) ind_addr (u32 (ind_addr + 1))
    ok (at raw AddressType.simple sum)

  unfoldable pub resolve_direct_page_ind : Bus → Registers → ℕ → Result EffectiveAddress
  resolve_direct_page_ind bus r addr = do
    let ind_addr = addr + r.direct_page
    sum ← add_pointer16 bus (data_bank_get r) ind_addr (ind_addr + 1)
    ok (at raw AddressType.simple sum)

  -- The sum starts from whatever the local variable holds.
  unfoldable pub resolve_direct_page_ind_long : Bus → Registers → ℕ → Result EffectiveAddress
  resolve_direct_page_ind_long bus r addr = do
    let ind_addr = addr + r.direct_page
    sum ← add_pointer24 bus raw.simple_address ind_addr (ind_addr + 1) (ind_addr + 2)
    ok (at raw AddressType.simple sum)

  unfoldable pub resolve_direct_page_ind_idx_y : Bus → Registers → ℕ → Result EffectiveAddress
  resolve_direct_page_ind_idx_y bus r addr = do
    let ind_addr = addr + r.direct_page
    sum ← add_pointer16 bus (data_bank_get r) ind_addr (ind_addr + 1)
    ok (at raw AddressType.simple (u32 (sum + index_value r.y)))

  -- The data bank is added to a pointer that has a bank of its own.
  unfoldable pub resolve_direct_page_ind_long_idx_y : Bus → Registers → ℕ → Result EffectiveAddress
  resolve_direct_page_ind_long_idx_y bus r addr = do
    let ind_addr = addr + r.direct_page
    sum ← add_pointer24 bus (data_bank_get r) ind_addr (ind_addr + 1) (ind_addr + 2)
    ok (at raw AddressType.simple (u32 (sum + index_value r.y)))
