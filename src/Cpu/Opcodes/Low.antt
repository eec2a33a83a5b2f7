-- ===== src/Cpu/Opcodes/Low.antt =====
-- The rows 0x00 to 0x30 of the table `ops` of src/snes_cpu.c.
use snesemu.Base.{List, [], ◌∷◌}
use snesemu.Cpu.Defs.{Mnemonic, AddressingMode}
use snesemu.Cpu.Opcodes.Entry.{Opcode, op}

unfoldable pub row_0 : List Opcode
row_0 =
    op Mnemonic.brk AddressingMode.stack_interrupt 7
    ∷ op Mnemonic.ora AddressingMode.direct_page_indexed_indirect_x 6
    ∷ op Mnemonic.cop AddressingMode.stack_interrupt 7
    ∷ op Mnemonic.ora AddressingMode.stack_relative 4
    ∷ op Mnemonic.tsb AddressingMode.direct_page 5
    ∷ op Mnemonic.ora AddressingMode.direct_page 3
    ∷ op Mnemonic.asl AddressingMode.direct_page 5
    ∷ op Mnemonic.ora AddressingMode.direct_page_indirect_long 6
    ∷ op Mnemonic.php AddressingMode.stack_push 3
    ∷ op Mnemonic.ora AddressingMode.immediate 2
    ∷ op Mnemonic.asl AddressingMode.accumulator 2
    ∷ op Mnemonic.phd AddressingMode.stack_push 4
    ∷ op Mnemonic.tsb AddressingMode.absolute 6
    ∷ op Mnemonic.ora AddressingMode.absolute 4
    ∷ op Mnemonic.asl AddressingMode.absolute 6
    ∷ op Mnemonic.ora AddressingMode.absolute_long 5
    ∷ []

unfoldable pub row_1 : List Opcode
row_1 =
    op Mnemonic.blp AddressingMode.program_counter_relative 2
    ∷ op Mnemonic.ora AddressingMode.direct_page_indirect_indexed_y 6
    ∷ op Mnemonic.ora AddressingMode.direct_page_indirect 5
    ∷ op Mnemonic.ora AddressingMode.stack_relative_indirect_indexed_y 7
    ∷ op Mnemonic.trb AddressingMode.direct_page 5
    ∷ op Mnemonic.ora AddressingMode.direct_page_indexed_x 4
    ∷ op Mnemonic.asl AddressingMode.direct_page_indexed_x 6
    ∷ op Mnemonic.ora AddressingMode.direct_page_indirect_long_indexed_y 4
    ∷ op Mnemonic.clc AddressingMode.implied 2
    ∷ op Mnemonic.ora AddressingMode.absolute_indexed_y 4
    ∷ op Mnemonic.inc AddressingMode.accumulator 2
    ∷ op Mnemonic.tcs AddressingMode.implied 2
    ∷ op Mnemonic.trb AddressingMode.absolute 6
    ∷ op Mnemonic.ora AddressingMode.absolute_indexed_x 4
    ∷ op Mnemonic.asl AddressingMode.absolute_indexed_x 7
    ∷ op Mnemonic.ora AddressingMode.absolute_long_indexed_x 5
    ∷ []

unfoldable pub row_2 : List Opcode
row_2 =
    op Mnemonic.jsr AddressingMode.absolute 6
    ∷ op Mnemonic.and AddressingMode.direct_page_indexed_indirect_x 6
    ∷ op Mnemonic.jsr AddressingMode.absolute_long 8
    ∷ op Mnemonic.and AddressingMode.stack_relative 4
    ∷ op Mnemonic.bit AddressingMode.direct_page 3
    ∷ op Mnemonic.and AddressingMode.direct_page 3
    ∷ op Mnemonic.rol AddressingMode.direct_page 5
    ∷ op Mnemonic.and AddressingMode.direct_page_indirect_long 6
    ∷ op Mnemonic.plp AddressingMode.stack_pull 4
    ∷ op Mnemonic.and AddressingMode.immediate 2
    ∷ op Mnemonic.rol AddressingMode.accumulator 2
    ∷ op Mnemonic.pld AddressingMode.stack_pull 5
    ∷ op Mnemonic.bit AddressingMode.absolute 4
    ∷ op Mnemonic.and AddressingMode.absolute 4
    ∷ op Mnemonic.rol AddressingMode.absolute 6
    ∷ op Mnemonic.and AddressingMode.absolute_long 5
    ∷ []

unfoldable pub row_3 : List Opcode
row_3 =
    op Mnemonic.bmi AddressingMode.program_counter_relative 2
    ∷ op Mnemonic.and AddressingMode.direct_page_indirect_indexed_y 5
    ∷ op Mnemonic.and AddressingMode.direct_page_indirect 5
    ∷ op Mnemonic.and AddressingMode.stack_relative_indirect_indexed_y 7
    ∷ op Mnemonic.bit AddressingMode.direct_page_indexed_x 4
    ∷ op Mnemonic.and AddressingMode.direct_page_indexed_x 4
    ∷ op Mnemonic.rol AddressingMode.direct_page_indexed_x 6
    ∷ op Mnemonic.and AddressingMode.direct_page_indirect_long_indexed_y 6
    ∷ op Mnemonic.sec AddressingMode.implied 2
    ∷ op Mnemonic.and AddressingMode.absolute_indexed_y 4
    ∷ op Mnemonic.dec AddressingMode.accumulator 2
    ∷ op Mnemonic.tsc AddressingMode.implied 2
    ∷ op Mnemonic.bit AddressingMode.absolute_indexed_x 4
    ∷ op Mnemonic.and AddressingMode.absolute_indexed_x 4
    ∷ op Mnemonic.rol AddressingMode.absolute_indexed_x 7
    ∷ op Mnemonic.and AddressingMode.absolute_long_indexed_x 5
    ∷ []
