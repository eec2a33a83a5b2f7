-- ===== src/Cpu/Execute.antt =====
-- src/snes_cpu_mne.c: what each instruction does.
pub mod Operand
pub mod Arithmetic
pub mod Bitwise
pub mod Control
pub mod PushPull
pub mod Transfer
pub mod Status
pub mod Frame
use snesemu.Machine.{M, pure}
use snesemu.Cpu.Defs.{Mnemonic, EffectiveAddress}
use Arithmetic.{
  execute_adc, execute_sbc, execute_cmp, execute_cpx, execute_cpy, execute_dec, execute_inc,
  execute_dex, execute_dey, execute_inx, execute_iny,
}
use Bitwise.{
  execute_and, execute_eor, execute_ora, execute_bit, execute_asl, execute_lsr, execute_rol,
  execute_ror, execute_trb, execute_tsb,
}
use Control.{
  execute_bcc, execute_bcs, execute_beq, execute_bmi, execute_bne, execute_blp, execute_bra,
  execute_brk, execute_brl, execute_bvc, execute_bvs, execute_jmp, execute_jsr, execute_rti,
  execute_rtl, execute_rts, execute_wai, execute_cop, execute_mvn, execute_mvp, execute_nop,
  execute_wdm,
}
use PushPull.{
  execute_pea, execute_pei, execute_per, execute_pha, execute_phx, execute_phy, execute_phb,
  execute_phd, execute_phk, execute_php, execute_pla, execute_plx, execute_ply, execute_plb,
  execute_pld, execute_plp,
}
use Transfer.{
  execute_lda, execute_ldx, execute_ldy, execute_sta, execute_stx, execute_sty, execute_stp,
  execute_stz, execute_tax, execute_tay, execute_tcd, execute_tcs, execute_tdc, execute_tsc,
  execute_tsx, execute_txa, execute_txs, execute_txy, execute_tya, execute_tyx, execute_xba,
}
use Status.{
  execute_clc, execute_cld, execute_cli, execute_clv, execute_rep, execute_sec, execute_sed,
  execute_sei, execute_sep, execute_xce,
}

-- `snes_cpu_mne_execute`. The state is never `NULL` here, so its assertions hold.
unfoldable pub execute : Mnemonic → EffectiveAddress → M (Unit {0})
execute Mnemonic.adc eff_addr = execute_adc eff_addr
execute Mnemonic.and eff_addr = execute_and eff_addr
execute Mnemonic.asl eff_addr = execute_asl eff_addr
execute Mnemonic.bcc eff_addr = execute_bcc eff_addr
execute Mnemonic.bcs eff_addr = execute_bcs eff_addr
execute Mnemonic.beq eff_addr = execute_beq eff_addr
execute Mnemonic.bit eff_addr = execute_bit eff_addr
execute Mnemonic.bmi eff_addr = execute_bmi eff_addr
execute Mnemonic.bne eff_addr = execute_bne eff_addr
execute Mnemonic.blp eff_addr = execute_blp eff_addr
execute Mnemonic.bra eff_addr = execute_bra eff_addr
execute Mnemonic.brk eff_addr = execute_brk eff_addr
execute Mnemonic.brl eff_addr = execute_brl eff_addr
execute Mnemonic.bvc eff_addr = execute_bvc eff_addr
execute Mnemonic.bvs eff_addr = execute_bvs eff_addr
execute Mnemonic.clc eff_addr = execute_clc eff_addr
execute Mnemonic.cld eff_addr = execute_cld eff_addr
execute Mnemonic.cli eff_addr = execute_cli eff_addr
execute Mnemonic.clv eff_addr = execute_clv eff_addr
execute Mnemonic.cmp eff_addr = execute_cmp eff_addr
execute Mnemonic.cop eff_addr = execute_cop eff_addr
execute Mnemonic.cpx eff_addr = execute_cpx eff_addr
execute Mnemonic.cpy eff_addr = execute_cpy eff_addr
execute Mnemonic.dec eff_addr = execute_dec eff_addr
execute Mnemonic.dex eff_addr = execute_dex eff_addr
execute Mnemonic.dey eff_addr = execute_dey eff_addr
execute Mnemonic.eor eff_addr = execute_eor eff_addr
execute Mnemonic.inc eff_addr = execute_inc eff_addr
execute Mnemonic.inx eff_addr = execute_inx eff_addr
execute Mnemonic.iny eff_addr = execute_iny eff_addr
execute Mnemonic.jmp eff_addr = execute_jmp eff_addr
execute Mnemonic.jsr eff_addr = execute_jsr eff_addr
execute Mnemonic.lda eff_addr = execute_lda eff_addr
execute Mnemonic.ldx eff_addr = execute_ldx eff_addr
execute Mnemonic.ldy eff_addr = execute_ldy eff_addr
execute Mnemonic.lsr eff_addr = execute_lsr eff_addr
execute Mnemonic.mvn eff_addr = execute_mvn eff_addr
execute Mnemonic.mvp eff_addr = execute_mvp eff_addr
execute Mnemonic.nop eff_addr = execute_nop eff_addr
execute Mnemonic.ora eff_addr = execute_ora eff_addr
execute Mnemonic.pea eff_addr = execute_pea eff_addr
execute Mnemonic.pei eff_addr = execute_pei eff_addr
execute Mnemonic.per eff_addr = execute_per eff_addr
execute Mnemonic.pha eff_addr = execute_pha eff_addr
execute Mnemonic.phb eff_addr = execute_phb eff_addr
execute Mnemonic.phd eff_addr = execute_phd eff_addr
execute Mnemonic.phk eff_addr = execute_phk eff_addr
execute Mnemonic.php eff_addr = execute_php eff_addr
execute Mnemonic.phx eff_addr = execute_phx eff_addr
execute Mnemonic.phy eff_addr = execute_phy eff_addr
execute Mnemonic.pla eff_addr = execute_pla eff_addr
execute Mnemonic.plb eff_addr = execute_plb eff_addr
execute Mnemonic.pld eff_addr = execute_pld eff_addr
execute Mnemonic.plp eff_addr = execute_plp eff_addr
execute Mnemonic.plx eff_addr = execute_plx eff_addr
execute Mnemonic.ply eff_addr = execute_ply eff_addr
execute Mnemonic.rep eff_addr = execute_rep eff_addr
execute Mnemonic.rol eff_addr = execute_rol eff_addr
execute Mnemonic.ror eff_addr = execute_ror eff_addr
execute Mnemonic.rti eff_addr = execute_rti eff_addr
execute Mnemonic.rtl eff_addr = execute_rtl eff_addr
execute Mnemonic.rts eff_addr = execute_rts eff_addr
execute Mnemonic.sbc eff_addr = execute_sbc eff_addr
execute Mnemonic.sec eff_addr = execute_sec eff_addr
execute Mnemonic.sed eff_addr = execute_sed eff_addr
execute Mnemonic.sei eff_addr = execute_sei eff_addr
execute Mnemonic.sep eff_addr = execute_sep eff_addr
execute Mnemonic.sta eff_addr = execute_sta eff_addr
execute Mnemonic.stp eff_addr = execute_stp eff_addr
execute Mnemonic.stx eff_addr = execute_stx eff_addr
execute Mnemonic.sty eff_addr = execute_sty eff_addr
execute Mnemonic.stz eff_addr = execute_stz eff_addr
execute Mnemonic.tax eff_addr = execute_tax eff_addr
execute Mnemonic.tay eff_addr = execute_tay eff_addr
execute Mnemonic.tcd eff_addr = execute_tcd eff_addr
execute Mnemonic.tcs eff_addr = execute_tcs eff_addr
execute Mnemonic.tdc eff_addr = execute_tdc eff_addr
execute Mnemonic.trb eff_addr = execute_trb eff_addr
execute Mnemonic.tsb eff_addr = execute_tsb eff_addr
execute Mnemonic.tsc eff_addr = execute_tsc eff_addr
execute Mnemonic.tsx eff_addr = execute_tsx eff_addr
execute Mnemonic.txa eff_addr = execute_txa eff_addr
execute Mnemonic.txs eff_addr = execute_txs eff_addr
execute Mnemonic.txy eff_addr = execute_txy eff_addr
execute Mnemonic.tya eff_addr = execute_tya eff_addr
execute Mnemonic.tyx eff_addr = execute_tyx eff_addr
execute Mnemonic.wai eff_addr = execute_wai eff_addr
execute Mnemonic.wdm eff_addr = execute_wdm eff_addr
execute Mnemonic.xba eff_addr = execute_xba eff_addr
execute Mnemonic.xce eff_addr = execute_xce eff_addr
execute _ eff_addr = pure tt
