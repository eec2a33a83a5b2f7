-- ===== src/Cpu/Opcodes/Top.antt =====
-- The rows 0xc0 to 0xf0 of the table `ops` of src/snes_cpu.c.
use snesemu.Base.{List, [], ◌∷◌}
use snesemu.Cpu.Defs.{Mnemonic, AddressingMode}
use snesemu.Cpu.Opcodes.Entry.{Opcode, op}

unfoldable pub row_c : List Opcode
row_c =
    op Mnemonic.cpy AddressingMode.immediate 2
    ∷ op Mnemonic.cmp AddressingMode.direct_page_indexed_indirect_x 6
    ∷ op Mnemonic.rep AddressingMode.immediate 3
    ∷ op Mnemonic.cmp AddressingMode.stack_relative 4
    ∷ op Mnemonic.cpy AddressingMode.direct_page 3
    ∷ op Mnemonic.cmp AddressingMode.direct_page 3
    ∷ op Mnemonic.dec AddressingMode.direct_page 5
    ∷ op Mnemonic.cmp AddressingMode.direct_page_indirect_long 6
    ∷ op Mnemonic.iny AddressingMode.implied 2
    ∷ op Mnemonic.cmp AddressingMode.immediate 2
    ∷ op Mnemonic.dex AddressingMode.implied 2
    ∷ op Mnemonic.wai AddressingMode.implied 3
    ∷ op Mnemonic.cpy AddressingMode.absolute 4
    ∷ op Mnemonic.cmp AddressingMode.absolute 4
    ∷ op Mnemonic.dec AddressingMode.absolute 6
    ∷ op Mnemonic.cmp AddressingMode.absolute_long 6
    ∷ []

unfoldable pub row_d : List Opcode
row_d =
    op Mnemonic.bne AddressingMode.program_counter_relative 2
    ∷ op Mnemonic.cmp AddressingMode.direct_page_indirect_indexed_y 5
    ∷ op Mnemonic.cmp AddressingMode.direct_page_indirect 5
    ∷ op Mnemonic.cmp AddressingMode.stack_relative_indirect_indexed_y 7
    ∷ op Mnemonic.pei AddressingMode.stack_direct_page_indirect 6
    ∷ op Mnemonic.cmp AddressingMode.direct_page_indexed_x 4
    ∷ op Mnemonic.dec AddressingMode.direct_page_indexed_x 6
    ∷ op Mnemonic.cmp AddressingMode.direct_page_indirect_long_indexed_y 6
    ∷ op Mnemonic.cld AddressingMode.implied 2
    ∷ op Mnemonic.cmp AddressingMode.absolute_indexed_y 4
    ∷ op Mnemonic.phx AddressingMode.stack_push 3
    ∷ op Mnemonic.stp AddressingMode.implied 3
    ∷ op Mnemonic.jmp AddressingMode.absolute_indirect_long 6
    ∷ op Mnemonic.cmp AddressingMode.absolute_indexed_x 7
    ∷ op Mnemonic.dec AddressingMode.absolute_indexed_x 6
    ∷ op Mnemonic.cmp AddressingMode.absolute_long_indexed_x 5
    ∷ []

unfoldable pub row_e : List Opcode
row_e =
    op Mnemonic.cpx AddressingMode.immediate 2
    ∷ op Mnemonic.sbc AddressingMode.direct_page_indexed_indirect_x 6
    ∷ op Mnemonic.sep AddressingMode.immediate 3
    ∷ op Mnemonic.sbc AddressingMode.stack_relative 3
    ∷ op Mnemonic.cpx AddressingMode.direct_page 3
    ∷ op Mnemonic.sbc AddressingMode.direct_page 3
    ∷ op Mnemonic.inc AddressingMode.direct_page 5
    ∷ op Mnemonic.sbc AddressingMode.direct_page_indirect_long 6
    ∷ op Mnemonic.inx AddressingMode.implied 2
    ∷ op Mnemonic.sbc AddressingMode.immediate 2
    ∷ op Mnemonic.nop AddressingMode.implied 2
    ∷ op Mnemonic.xba AddressingMode.implied 3
    ∷ op Mnemonic.cpx AddressingMode.absolute 4
    ∷ op Mnemonic.sbc AddressingMode.absolute 4
    ∷ op Mnemonic.inc AddressingMode.absolute 6
    ∷ op Mnemonic.sbc AddressingMode.absolute_long 5
    ∷ []

unfoldable pub row_f : List Opcode
row_f =
    op Mnemonic.beq AddressingMode.program_counter_relative 2
    ∷ op Mnemonic.sbc AddressingMode.direct_page_indirect_indexed_y 5
    ∷ op Mnemonic.sbc AddressingMode.direct_page_indirect 5
    ∷ op Mnemonic.sbc AddressingMode.stack_relative_indirect_indexed_y 7
    ∷ op Mnemonic.pea AddressingMode.stack_absolute 5
    ∷ op Mnemonic.sbc AddressingMode.direct_page_indexed_x 4
    ∷ op Mnemonic.inc AddressingMode.direct_page_indexed_x 6
    ∷ op Mnemonic.sbc AddressingMode.direct_page_indirect_long_indexed_y 6
    ∷ op Mnemonic.sed AddressingMode.implied 2
    ∷ op Mnemonic.sbc AddressingMode.absolute_indexed_y 4
    ∷ op Mnemonic.plx AddressingMode.stack_pull 4
    ∷ op Mnemonic.xce AddressingMode.implied 2
    ∷ op Mnemonic.jsr AddressingMode.absolute_indexed_indirect 8
    ∷ op Mnemonic.sbc AddressingMode.absolute_indexed_x 4
    ∷ op Mnemonic.inc AddressingMode.absolute_indexed_x 7
    ∷ op Mnemonic.sbc AddressingMode.absolute_long_indexed_x 5
    ∷ []
