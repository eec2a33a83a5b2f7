-- ===== src/Cpu/Execute/Frame.antt =====
-- Every instruction changes the bus only by writes over it.
use snesemu.Base.{ℕ}
use snesemu.Bus.{Bus}
use snesemu.Machine.Keeps.{Kept, Keeps, keeps, modify-Keeps}
use snesemu.Registers.{RegisterLength}
use snesemu.Cpu.Stack.{push, pull}
use snesemu.Cpu.Defs.{Mnemonic, AddressType, EffectiveAddress}
use snesemu.Cpu.Execute.{execute}
use snesemu.Cpu.Execute.Operand.{store_data, store_by_type, store_memory}
use snesemu.Cpu.Execute.Arithmetic.{
  execute_adc, execute_sbc, execute_cmp, execute_cpx, execute_cpy, execute_dec, execute_inc,
  execute_dex, execute_dey, execute_inx, execute_iny,
}
use snesemu.Cpu.Execute.Bitwise.{
  execute_and, execute_eor, execute_ora, execute_bit, execute_asl, execute_lsr, execute_rol,
  execute_ror, execute_trb, execute_tsb, test_and_store,
}
use snesemu.Cpu.Execute.Control.{
  execute_bcc, execute_bcs, execute_beq, execute_bmi, execute_bne, execute_blp, execute_bra,
  execute_brk, execute_brl, execute_bvc, execute_bvs, execute_jmp, execute_jsr, execute_rti,
  execute_rtl, execute_rts, execute_wai, execute_cop, execute_mvn, execute_mvp, execute_nop,
  execute_wdm,
}
use snesemu.Cpu.Execute.PushPull.{
  execute_pea, execute_pei, execute_per, execute_pha, execute_phx, execute_phy, execute_phb,
  execute_phd, execute_phk, execute_php, execute_pla, execute_plx, execute_ply, execute_plb,
  execute_pld, execute_plp, pull_by_length,
}
use snesemu.Cpu.Execute.Transfer.{
  execute_lda, execute_ldx, execute_ldy, execute_sta, execute_stx, execute_sty, execute_stp,
  execute_stz, execute_tax, execute_tay, execute_tcd, execute_tcs, execute_tdc, execute_tsc,
  execute_tsx, execute_txa, execute_txs, execute_txy, execute_tya, execute_tyx, execute_xba,
}
use snesemu.Cpu.Execute.Status.{
  execute_clc, execute_cld, execute_cli, execute_clv, execute_rep, execute_sec, execute_sed,
  execute_sei, execute_sep, execute_xce,
}

module _ {P : Bus → Type 0} (w : Kept P) where
  push-Keeps : (value : ℕ) → Keeps P (push value)
  unfolding push
  push-Keeps value = search (keeps)

  pull-Keeps : Keeps P pull
  unfolding pull
  pull-Keeps = search (keeps)

  pull_by_length-Keeps : (len : RegisterLength) → Keeps P (pull_by_length len)
  unfolding pull_by_length
  pull_by_length-Keeps len = search (pull-Keeps, keeps)

  store_memory-Keeps : (addr value size : ℕ) → Keeps P (store_memory addr value size)
  unfolding store_memory
  store_memory-Keeps addr value size = search (keeps)

  store_by_type-Keeps :
      (type : AddressType) (addr value size : ℕ) → Keeps P (store_by_type type addr value size)
  unfolding store_by_type
  store_by_type-Keeps AddressType.simple addr value size = store_memory-Keeps addr value size
  store_by_type-Keeps AddressType.block_move addr value size = store_memory-Keeps addr value size
  store_by_type-Keeps AddressType.stack addr value size = store_memory-Keeps addr value size
  store_by_type-Keeps AddressType.immediate_data addr value size =
      store_memory-Keeps addr value size
  store_by_type-Keeps AddressType.accumulator addr value size = modify-Keeps _

  store_data-Keeps : (e : EffectiveAddress) (value size : ℕ) → Keeps P (store_data e value size)
  unfolding store_data
  store_data-Keeps e value size = store_by_type-Keeps e.type e.simple_address value size

  test_and_store-Keeps :
      (combine : ℕ → ℕ → ℕ) (e : EffectiveAddress) → Keeps P (test_and_store combine e)
  unfolding test_and_store
  test_and_store-Keeps combine e = search (keeps) depth 9

  pub execute-Keeps : (mne : Mnemonic) (e : EffectiveAddress) → Keeps P (execute mne e)
  unfolding execute execute_adc execute_and execute_asl execute_bcc execute_bcs execute_beq
      execute_bit execute_bmi execute_bne execute_blp execute_bra execute_brk execute_brl
      execute_bvc execute_bvs execute_clc execute_cld execute_cli execute_clv execute_cmp
      execute_cop execute_cpx execute_cpy execute_dec execute_dex execute_dey execute_eor
      execute_inc execute_inx execute_iny execute_jmp execute_jsr execute_lda execute_ldx
      execute_ldy execute_lsr execute_mvn execute_mvp execute_nop execute_ora execute_pea
      execute_pei execute_per execute_pha execute_phb execute_phd execute_phk execute_php
      execute_phx execute_phy execute_pla execute_plb execute_pld execute_plp execute_plx
      execute_ply execute_rep execute_rol execute_ror execute_rti execute_rtl execute_rts
      execute_sbc execute_sec execute_sed execute_sei execute_sep execute_sta execute_stp
      execute_stx execute_sty execute_stz execute_tax execute_tay execute_tcd execute_tcs
      execute_tdc execute_trb execute_tsb execute_tsc execute_tsx execute_txa execute_txs
      execute_txy execute_tya execute_tyx execute_wai execute_wdm execute_xba execute_xce
  execute-Keeps Mnemonic.adc e = search (keeps)
  execute-Keeps Mnemonic.and e = search (keeps)
  execute-Keeps Mnemonic.asl e = search (store_data-Keeps, keeps)
  execute-Keeps Mnemonic.bcc e = search (keeps)
  execute-Keeps Mnemonic.bcs e = search (keeps)
  execute-Keeps Mnemonic.beq e = search (keeps)
  execute-Keeps Mnemonic.bit e = search (keeps)
  execute-Keeps Mnemonic.bmi e = search (keeps)
  execute-Keeps Mnemonic.bne e = search (keeps)
  execute-Keeps Mnemonic.blp e = search (keeps)
  execute-Keeps Mnemonic.bra e = search (keeps)
  execute-Keeps Mnemonic.brk e = search (keeps)
  execute-Keeps Mnemonic.brl e = search (keeps)
  execute-Keeps Mnemonic.bvc e = search (keeps)
  execute-Keeps Mnemonic.bvs e = search (keeps)
  execute-Keeps Mnemonic.clc e = search (keeps)
  execute-Keeps Mnemonic.cld e = search (keeps)
  execute-Keeps Mnemonic.cli e = search (keeps)
  execute-Keeps Mnemonic.clv e = search (keeps)
  execute-Keeps Mnemonic.cmp e = search (keeps)
  execute-Keeps Mnemonic.cop e = search (keeps)
  execute-Keeps Mnemonic.cpx e = search (keeps)
  execute-Keeps Mnemonic.cpy e = search (keeps)
  execute-Keeps Mnemonic.dec e = search (store_data-Keeps, keeps)
  execute-Keeps Mnemonic.dex e = search (keeps)
  execute-Keeps Mnemonic.dey e = search (keeps)
  execute-Keeps Mnemonic.eor e = search (keeps)
  execute-Keeps Mnemonic.inc e = search (store_data-Keeps, keeps)
  execute-Keeps Mnemonic.inx e = search (keeps)
  execute-Keeps Mnemonic.iny e = search (keeps)
  execute-Keeps Mnemonic.jmp e = search (keeps)
  execute-Keeps Mnemonic.jsr e = search (push-Keeps, keeps)
  execute-Keeps Mnemonic.lda e = search (keeps)
  execute-Keeps Mnemonic.ldx e = search (keeps)
  execute-Keeps Mnemonic.ldy e = search (keeps)
  execute-Keeps Mnemonic.lsr e = search (store_data-Keeps, keeps)
  execute-Keeps Mnemonic.mvn e = search (keeps)
  execute-Keeps Mnemonic.mvp e = search (keeps)
  execute-Keeps Mnemonic.nop e = search (keeps)
  execute-Keeps Mnemonic.ora e = search (keeps)
  execute-Keeps Mnemonic.pea e = search (push-Keeps, keeps)
  execute-Keeps Mnemonic.pei e = search (push-Keeps, keeps)
  execute-Keeps Mnemonic.per e = search (push-Keeps, keeps)
  execute-Keeps Mnemonic.pha e = search (push-Keeps, keeps)
  execute-Keeps Mnemonic.phb e = search (push-Keeps, keeps)
  execute-Keeps Mnemonic.phd e = search (push-Keeps, keeps)
  execute-Keeps Mnemonic.phk e = search (push-Keeps, keeps)
  execute-Keeps Mnemonic.php e = search (push-Keeps, keeps)
  execute-Keeps Mnemonic.phx e = search (push-Keeps, keeps)
  execute-Keeps Mnemonic.phy e = search (push-Keeps, keeps)
  execute-Keeps Mnemonic.pla e = search (pull_by_length-Keeps, keeps)
  execute-Keeps Mnemonic.plb e = search (pull-Keeps, keeps)
  execute-Keeps Mnemonic.pld e = search (pull-Keeps, keeps)
  execute-Keeps Mnemonic.plp e = search (pull-Keeps, keeps)
  execute-Keeps Mnemonic.plx e = search (pull_by_length-Keeps, keeps)
  execute-Keeps Mnemonic.ply e = search (pull_by_length-Keeps, keeps)
  execute-Keeps Mnemonic.rep e = search (keeps)
  execute-Keeps Mnemonic.rol e = search (keeps)
  execute-Keeps Mnemonic.ror e = search (keeps)
  execute-Keeps Mnemonic.rti e = search (pull-Keeps, keeps)
  execute-Keeps Mnemonic.rtl e = search (pull-Keeps, keeps)
  execute-Keeps Mnemonic.rts e = search (pull-Keeps, keeps)
  execute-Keeps Mnemonic.sbc e = search (keeps)
  execute-Keeps Mnemonic.sec e = search (keeps)
  execute-Keeps Mnemonic.sed e = search (keeps)
  execute-Keeps Mnemonic.sei e = search (keeps)
  execute-Keeps Mnemonic.sep e = search (keeps)
  execute-Keeps Mnemonic.sta e = search (keeps)
  execute-Keeps Mnemonic.stp e = search (keeps)
  execute-Keeps Mnemonic.stx e = search (keeps)
  execute-Keeps Mnemonic.sty e = search (keeps)
  execute-Keeps Mnemonic.stz e = search (keeps)
  execute-Keeps Mnemonic.tax e = search (keeps)
  execute-Keeps Mnemonic.tay e = search (keeps)
  execute-Keeps Mnemonic.tcd e = search (keeps)
  execute-Keeps Mnemonic.tcs e = search (keeps)
  execute-Keeps Mnemonic.tdc e = search (keeps)
  execute-Keeps Mnemonic.trb e = search (test_and_store-Keeps, keeps)
  execute-Keeps Mnemonic.tsb e = search (test_and_store-Keeps, keeps)
  execute-Keeps Mnemonic.tsc e = search (keeps)
  execute-Keeps Mnemonic.tsx e = search (keeps)
  execute-Keeps Mnemonic.txa e = search (keeps)
  execute-Keeps Mnemonic.txs e = search (keeps)
  execute-Keeps Mnemonic.txy e = search (keeps)
  execute-Keeps Mnemonic.tya e = search (keeps)
  execute-Keeps Mnemonic.tyx e = search (keeps)
  execute-Keeps Mnemonic.wai e = record { keep = λ m h p. cc }
  execute-Keeps Mnemonic.wdm e = search (keeps)
  execute-Keeps Mnemonic.xba e = search (keeps)
  execute-Keeps Mnemonic.xce e = search (keeps)
  execute-Keeps Mnemonic.maxmne e = search (keeps)
