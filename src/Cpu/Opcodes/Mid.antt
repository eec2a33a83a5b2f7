-- ===== src/Cpu/Opcodes/Mid.antt =====
-- The rows 0x40 to 0x70 of the table `ops` of src/snes_cpu.c.
use snesemu.Base.{List, [], ◌∷◌}
use snesemu.Cpu.Defs.{Mnemonic, AddressingMode}
use snesemu.Cpu.Opcodes.Entry.{Opcode, op}

unfoldable pub row_4 : List Opcode
row_4 =
    op Mnemonic.rti AddressingMode.stack_rti 6
    ∷ op Mnemonic.eor AddressingMode.direct_page_indexed_indirect_x 6
    ∷ op Mnemonic.wdm AddressingMode.program_counter_relative 2
    ∷ op Mnemonic.eor AddressingMode.stack_relative 4
    ∷ op Mnemonic.mvp AddressingMode.block_move 4
    ∷ op Mnemonic.eor AddressingMode.direct_page 3
    ∷ op Mnemonic.lsr AddressingMode.direct_page 5
    ∷ op Mnemonic.eor AddressingMode.direct_page_indirect_long 6
    ∷ op Mnemonic.pha AddressingMode.stack_push 3
    ∷ op Mnemonic.eor AddressingMode.immediate 2
    ∷ op Mnemonic.lsr AddressingMode.accumulator 2
    ∷ op Mnemonic.phk AddressingMode.stack_push 3
    ∷ op Mnemonic.jmp AddressingMode.absolute 3
    ∷ op Mnemonic.eor AddressingMode.absolute 4
    ∷ op Mnemonic.lsr AddressingMode.absolute 6
    ∷ op Mnemonic.eor AddressingMode.absolute_long 5
    ∷ []

unfoldable pub row_5 : List Opcode
row_5 =
    op Mnemonic.bvc AddressingMode.program_counter_relative 2
    ∷ op Mnemonic.eor AddressingMode.direct_page_indirect_indexed_y 5
    ∷ op Mnemonic.eor AddressingMode.direct_page_indirect 5
    ∷ op Mnemonic.eor AddressingMode.stack_relative_indirect_indexed_y 7
    ∷ op Mnemonic.mvn AddressingMode.block_move 2
    ∷ op Mnemonic.eor AddressingMode.direct_page_indexed_x 4
    ∷ op Mnemonic.lsr AddressingMode.direct_page_indexed_x 6
    ∷ op Mnemonic.eor AddressingMode.direct_page_indirect_long_indexed_y 6
    ∷ op Mnemonic.cli AddressingMode.implied 2
    ∷ op Mnemonic.eor AddressingMode.absolute_indexed_y 4
    ∷ op Mnemonic.phy AddressingMode.stack_push 3
    ∷ op Mnemonic.tcd AddressingMode.implied 2
    ∷ op Mnemonic.jmp AddressingMode.absolute_long 4
    ∷ op Mnemonic.eor AddressingMode.absolute_indexed_x 4
    ∷ op Mnemonic.lsr AddressingMode.absolute_indexed_x 7
    ∷ op Mnemonic.eor AddressingMode.absolute_long_indexed_x 5
    ∷ []

unfoldable pub row_6 : List Opcode
row_6 =
    op Mnemonic.rts AddressingMode.stack_rts 6
    ∷ op Mnemonic.adc AddressingMode.direct_page_indexed_indirect_x 6
    ∷ op Mnemonic.per AddressingMode.stack_program_counter_relative_long 6
    ∷ op Mnemonic.adc AddressingMode.stack_relative 4
    ∷ op Mnemonic.stz AddressingMode.direct_page 3
    ∷ op Mnemonic.adc AddressingMode.direct_page 3
    ∷ op Mnemonic.ror AddressingMode.direct_page 5
    ∷ op Mnemonic.adc AddressingMode.direct_page_indirect_long 6
    ∷ op Mnemonic.pla AddressingMode.stack_pull 4
    ∷ op Mnemonic.adc AddressingMode.immediate 2
    ∷ op Mnemonic.ror AddressingMode.accumulator 2
    ∷ op Mnemonic.rtl AddressingMode.stack_rtl 6
    ∷ op Mnemonic.jmp AddressingMode.absolute_indirect 5
    ∷ op Mnemonic.adc AddressingMode.absolute 4
    ∷ op Mnemonic.ror AddressingMode.absolute 6
    ∷ op Mnemonic.adc AddressingMode.absolute_long 5
    ∷ []

unfoldable pub row_7 : List Opcode
row_7 =
    op Mnemonic.bvs AddressingMode.program_counter_relative 2
    ∷ op Mnemonic.adc AddressingMode.direct_page_indirect_indexed_y 5
    ∷ op Mnemonic.adc AddressingMode.direct_page_indirect 5
    ∷ op Mnemonic.adc AddressingMode.stack_relative_indirect_indexed_y 7
    ∷ op Mnemonic.stz AddressingMode.direct_page_indexed_x 4
    ∷ op Mnemonic.adc AddressingMode.direct_page_indexed_x 4
    ∷ op Mnemonic.ror AddressingMode.direct_page_indexed_x 6
    ∷ op Mnemonic.adc AddressingMode.direct_page_indirect_long_indexed_y 6
    ∷ op Mnemonic.sei AddressingMode.implied 2
    ∷ op Mnemonic.adc AddressingMode.absolute_indexed_y 4
    ∷ op Mnemonic.ply AddressingMode.stack_pull 4
    ∷ op Mnemonic.tdc AddressingMode.implied 2
    ∷ op Mnemonic.jmp AddressingMode.absolute_indexed_indirect 6
    ∷ op Mnemonic.adc AddressingMode.absolute_indexed_x 4
    ∷ op Mnemonic.ror AddressingMode.absolute_indexed_x 7
    ∷ op Mnemonic.adc AddressingMode.absolute_long_indexed_x 5
    ∷ []
