-- ===== src/Cpu/Defs.antt =====
-- src/snes_cpu_defs.h: mnemonics, addressing modes and effective addresses.
use snesemu.Base.{ℕ}

pub data Mnemonic : Type 0 where
  adc and asl bcc bcs beq bit bmi bne blp bra brk brl bvc bvs clc cld cli clv cmp : Mnemonic
  cop cpx cpy dec dex dey eor inc inx iny jmp jsr lda ldx ldy lsr mvn mvp nop ora : Mnemonic
  pea pei per pha phb phd phk php phx phy pla plb pld plp plx ply rep rol ror rti : Mnemonic
  rtl rts sbc sec sed sei sep sta stp stx sty stz tax tay tcd tcs tdc trb tsb tsc : Mnemonic
  tsx txa txs txy tya tyx wai wdm xba xce maxmne : Mnemonic

pub data AddressingMode : Type 0 where
  absolute absolute_indexed_x absolute_indexed_y absolute_indexed_indirect : AddressingMode
  absolute_indirect absolute_indirect_long absolute_long absolute_long_indexed_x : AddressingMode
  accumulator block_move direct_page direct_page_indexed_x direct_page_indexed_y : AddressingMode
  direct_page_indexed_indirect_x direct_page_indirect direct_page_indirect_long : AddressingMode
  direct_page_indirect_indexed_y direct_page_indirect_long_indexed_y immediate : AddressingMode
  implied program_counter_relative program_counter_relative_long stack_absolute : AddressingMode
  stack_direct_page_indirect stack_interrupt stack_program_counter_relative_long : AddressingMode
  stack_pull stack_push stack_rti stack_rtl stack_rts stack_relative : AddressingMode
  stack_relative_indirect_indexed_y : AddressingMode

pub data AddressType : Type 0 where
  simple block_move stack immediate_data accumulator : AddressType

-- The union of `simple_address` with the block that begins with `dest`: the first field is both.
pub record EffectiveAddress : Type 0 where
  pub type : AddressType
  pub simple_address : ℕ
  pub src : ℕ
  pub count : ℕ
