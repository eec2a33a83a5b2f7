-- ===== src/Examples/Machines.antt =====
-- Concrete devices, registers and machines for the runs.
use snesemu.Base.{ℕ, ◌%◌, false, [], if◌then◌else◌, ◌==◌}
use snesemu.Registers.{Registers, RegisterLength, RegisterValue}
use snesemu.Ram.{Ram}
use snesemu.Rom.{RomType, CartHeader, InterruptVectors}
use snesemu.Apu.Port.{ApuPort}
use snesemu.Bus.{Bus}
use snesemu.Machine.{Machine}
use snesemu.Cpu.Defs.{AddressType, EffectiveAddress}

abbrev vectors : InterruptVectors
vectors = record { cop = 0; brk = 0; abort = 0; nmi = 0; reset = 0x8000; irq = 0 }

abbrev header : CartHeader
header = record {
  name = [];
  rom_layout = 0x20;
  cartridge_type = 2;
  rom_size_byte = 8;
  ram_size_byte = 3;
  country_code = 1;
  licensee_code = 0;
  version_number = 0;
  checksum_comp = 0;
  checksum = 0;
  native_vectors = vectors;
  emulation_vectors = vectors;
}

-- A block of bytes that counts up.
abbrev pub counting : ℕ → Ram
counting size = record { size = size; cells = λ i. i % 256 }

abbrev pub port : ApuPort
port = record { input_port = counting 4; output_port = counting 4 }

-- The image begins with ADC #0x0350, and then BRA -2.
abbrev code : ℕ → ℕ
code i =
    if i == 0
    then 0x69
    else if i == 1
    then 0x50
    else if i == 2
    then 0x03
    else if i == 3
    then 0x80
    else if i == 4
    then 0xfe
    else 0

abbrev pub bus : Bus
bus = record {
  rom = record {
    header = header;
    type = RomType.lorom;
    usefullrom = code;
    usefull_size = 0x8000;
    usefull_mapped = 0x8000;
  };
  sram = counting 0x2000;
  wram = counting 0x20000;
  apu_port = port;
}

abbrev pub at_length : RegisterLength → ℕ → RegisterValue
at_length len value = record { len = len; value16 = value }

-- Native mode with registers of 8 bits, at 0x8000, and the stack pointer at 0x1fff.
abbrev pub narrow : Registers
narrow = record {
  accumulator = at_length RegisterLength.bit8 0x1250;
  data_bank = 0;
  x = at_length RegisterLength.bit8 0x34;
  y = at_length RegisterLength.bit8 0x56;
  direct_page = 0x1234;
  stack_pointer = at_length RegisterLength.bit16 0x1fff;
  program_bank = 0;
  pc = 0x8000;
  status = 0x30;
  emulation = false;
}

-- The same with registers of 16 bits and the carry set.
abbrev pub wide : Registers
wide = record narrow {
  accumulator = at_length RegisterLength.bit16 0x1250;
  x = at_length RegisterLength.bit16 0x34;
  y = at_length RegisterLength.bit16 0x56;
  status = 0x01;
}

abbrev pub narrow_machine : Machine
narrow_machine = record { registers = narrow; bus = bus }

abbrev pub wide_machine : Machine
wide_machine = record { registers = wide; bus = bus }

abbrev pub immediate : ℕ → EffectiveAddress
immediate value = record {
  type = AddressType.immediate_data;
  simple_address = value;
  src = 0;
  count = 0;
}

abbrev pub simple : ℕ → EffectiveAddress
simple addr = record { type = AddressType.simple; simple_address = addr; src = 0; count = 0 }
