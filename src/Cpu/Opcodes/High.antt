-- ===== src/Cpu/Opcodes/High.antt =====
-- The rows 0x80 to 0xb0 of the table `ops` of src/snes_cpu.c.
use snesemu.Base.{List, [], ◌∷◌}
use snesemu.Cpu.Defs.{Mnemonic, AddressingMode}
use snesemu.Cpu.Opcodes.Entry.{Opcode, op}

unfoldable pub row_8 : List Opcode
row_8 =
    op Mnemonic.bra AddressingMode.program_counter_relative 3
    ∷ op Mnemonic.sta AddressingMode.direct_page_indexed_indirect_x 6
    ∷ op Mnemonic.brl AddressingMode.program_counter_relative_long 4
    ∷ op Mnemonic.sta AddressingMode.stack_relative 4
    ∷ op Mnemonic.sty AddressingMode.direct_page 3
    ∷ op Mnemonic.sta AddressingMode.direct_page 3
    ∷ op Mnemonic.stx AddressingMode.direct_page 3
    ∷ op Mnemonic.sta AddressingMode.direct_page_indirect_long 6
    ∷ op Mnemonic.dey AddressingMode.implied 2
    ∷ op Mnemonic.bit AddressingMode.immediate 2
    ∷ op Mnemonic.txa AddressingMode.implied 2
    ∷ op Mnemonic.phb AddressingMode.stack_push 3
    ∷ op Mnemonic.sty AddressingMode.absolute 4
    ∷ op Mnemonic.sta AddressingMode.absolute 4
    ∷ op Mnemonic.stx AddressingMode.absolute 4
    ∷ op Mnemonic.sta AddressingMode.absolute_long 5
    ∷ []

unfoldable pub row_9 : List Opcode
row_9 =
    op Mnemonic.bcc AddressingMode.program_counter_relative 2
    ∷ op Mnemonic.sta AddressingMode.direct_page_indirect_indexed_y 6
    ∷ op Mnemonic.sta AddressingMode.direct_page_indirect 5
    ∷ op Mnemonic.sta AddressingMode.stack_relative_indirect_indexed_y 7
    ∷ op Mnemonic.sty AddressingMode.direct_page_indexed_x 4
    ∷ op Mnemonic.sta AddressingMode.direct_page_indexed_x 4
    ∷ op Mnemonic.stx AddressingMode.direct_page_indexed_y 4
    ∷ op Mnemonic.sta AddressingMode.direct_page_indirect_long_indexed_y 6
    ∷ op Mnemonic.tya AddressingMode.implied 2
    ∷ op Mnemonic.sta AddressingMode.absolute_indexed_y 5
    ∷ op Mnemonic.txs AddressingMode.implied 2
    ∷ op Mnemonic.txy AddressingMode.implied 2
    ∷ op Mnemonic.stz AddressingMode.absolute 4
    ∷ op Mnemonic.sta AddressingMode.absolute_indexed_x 5
    ∷ op Mnemonic.stz AddressingMode.absolute_indexed_x 5
    ∷ op Mnemonic.sta AddressingMode.absolute_long_indexed_x 6
    ∷ []

unfoldable pub row_a : List Opcode
row_a =
    op Mnemonic.ldy AddressingMode.immediate 2
    ∷ op Mnemonic.lda AddressingMode.direct_page_indexed_indirect_x 6
    ∷ op Mnemonic.ldx AddressingMode.immediate 2
    ∷ op Mnemonic.lda AddressingMode.stack_relative 4
    ∷ op Mnemonic.ldy AddressingMode.direct_page 3
    ∷ op Mnemonic.lda AddressingMode.direct_page 3
    ∷ op Mnemonic.ldx AddressingMode.direct_page 3
    ∷ op Mnemonic.lda AddressingMode.direct_page_indirect_long 6
    ∷ op Mnemonic.tay AddressingMode.implied 2
    ∷ op Mnemonic.lda AddressingMode.immediate 2
    ∷ op Mnemonic.tax AddressingMode.implied 2
    ∷ op Mnemonic.plb AddressingMode.stack_pull 4
    ∷ op Mnemonic.ldy AddressingMode.absolute 4
    ∷ op Mnemonic.lda AddressingMode.absolute 4
    ∷ op Mnemonic.ldx AddressingMode.absolute 4
    ∷ op Mnemonic.lda AddressingMode.absolute_long 6
    ∷ []

unfoldable pub row_b : List Opcode
row_b =
    op Mnemonic.bcs AddressingMode.program_counter_relative 2
    ∷ op Mnemonic.lda AddressingMode.direct_page_indirect_indexed_y 5
    ∷ op Mnemonic.lda AddressingMode.direct_page_indirect 5
    ∷ op Mnemonic.lda AddressingMode.stack_relative_indirect_indexed_y 7
    ∷ op Mnemonic.ldy AddressingMode.direct_page_indexed_x 4
    ∷ op Mnemonic.lda AddressingMode.direct_page_indexed_x 4
    ∷ op Mnemonic.ldx AddressingMode.direct_page_indexed_y 6
    ∷ op Mnemonic.lda AddressingMode.direct_page_indirect_long_indexed_y 6
    ∷ op Mnemonic.clv AddressingMode.implied 2
    ∷ op Mnemonic.lda AddressingMode.absolute_indexed_y 4
    ∷ op Mnemonic.tsx AddressingMode.implied 2
    ∷ op Mnemonic.tyx AddressingMode.implied 2
    ∷ op Mnemonic.ldy AddressingMode.absolute_indexed_y 4
    ∷ op Mnemonic.lda AddressingMode.absolute_indexed_x 4
    ∷ op Mnemonic.ldx AddressingMode.absolute_indexed_y 4
    ∷ op Mnemonic.lda AddressingMode.absolute_long_indexed_x 6
    ∷ []
