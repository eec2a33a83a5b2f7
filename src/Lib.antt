-- ===== src/Lib.antt =====
-- A model of snesemu, an emulator of the Super Nintendo in C.
--
-- The program. `src/snes.c` builds a console from a cartridge (`src/snes_cart.c`: image, save memory
-- and address decoder), a work memory, the ports and the thread of the sound unit, a bus and a
-- processor. The processor (`src/snes_cpu.c`) fetches an instruction over the bus, resolves its
-- operand (`src/snes_cpu_addressing_mode.c`) and executes it (`src/snes_cpu_mne.c`) on its registers
-- (`src/snes_cpu_registers.c`), its stack (`src/snes_cpu_stack.c`) and the bus (`src/snes_bus.c`),
-- which decodes each address (`src/snes_addrdecoder.c`) and calls the device.
--
-- The files. Base has the casts and shifts of C, bits, and results that carry a fault.
--   Ram: src/snes_ram.c            Rom: src/snes_rom.c
--   Apu/Port: src/snes_apu_port.c  AddressDecoder: src/snes_addrdecoder.c
--   Bus: src/snes_bus.c            Registers: src/snes_cpu_registers.c and its header
--   Machine: the registers and the bus that the processor's code shares by pointers, and a monad
--     of actions on them
--   Cpu/Defs: src/snes_cpu_defs.h  Cpu/Stack: src/snes_cpu_stack.c
--   Cpu/AddressingMode: src/snes_cpu_addressing_mode.c
--   Cpu/Execute: src/snes_cpu_mne.c, by groups of instructions
--   Cpu/Opcodes, Cpu/Fetch, Cpu/Breakpoints, Cpu/Thread: src/snes_cpu.c
--   Apu, Apu/Thread: src/snes_apu.c, the messages on the ports and the thread that takes them
--   System: the process, its blocks, files and mappings, and the `goto` of the error paths
--   Parts: the initialisers of the parts and what frees them, by what they ask of the process
--   Cart: src/snes_cart.c          Cpu/Power: the initialising of src/snes_cpu.c
--   Console: src/snes.c            CommandLine: src/main.c
--   Apu/Link: the sound unit and the bus, which share the ports, and the protocol of an upload
-- A definition has the name of its C function without the prefix of the file; the modules below a
-- component hold its proofs. Examples has runs at concrete machines.
--
-- The state. A pointer that is shared is a field of one state that is passed on: the bus holds its
-- devices, and Machine the registers with the bus. An `assert`, an `abort` and what C leaves
-- undefined are faults of a result. A cell of memory is the bit pattern of its byte. What `malloc`
-- and `mmap` give, and what a local holds before it is assigned, are parameters; so are what the
-- threads do between two commands, and what `pthread_create` and `sscanf` give.
--
-- The threads. One step of the sound unit's thread is one round of its loop, and one step of the
-- processor's thread is what it does under its mutex or the rest of a round; what the other threads
-- do stands between two steps. Other interleavings, those within a round, are not modelled.
--
-- Mappings. A mapping reaches to the end of its last page, and behind the file it reads as zeros; a
-- read behind that is undefined.
--
-- Bounds. Words are natural numbers with their wrap-around written out. The two loops are structural
-- recursions: over the size of the image, and over the size of an operand, at most three. No fuel is
-- used. The theorems on the stack take it within the first 8 KB of the work memory, where the
-- program keeps it.
--
-- Not modelled: the scheduling of the threads within a round, traces and the other messages, the
-- functions that name an enumerator for them, and the addresses of blocks: what the process holds
-- is counted.
pub mod Base
pub mod Ram
pub mod System
pub mod Parts
pub mod Cart
pub mod Console
pub mod CommandLine
pub mod Apu
pub mod Rom
pub mod AddressDecoder
pub mod Bus
pub mod Registers
pub mod Machine
pub mod Cpu
pub mod Examples
