-- ===== src/Examples/Power.antt =====
-- Runs of the assembly of the cartridge and the console, and of the commands.
use snesemu.Base.{
  ℕ, zero, suc, ◌+◌, ◌≡◌, refl, sym, ap, ◌<◌, ◌⊎◌, Option, none, some, List, [], ◌∷◌, Result, ok,
  arith, u16,
}
use snesemu.System.{Process, Grants, ℤ}
use snesemu.System.Acquires.{more}
use snesemu.Examples.Machines.{bus, counting, port}
use snesemu.Examples.Image.{blank_image, accepted}
use snesemu.Examples.Modes.{branching}
use snesemu.Registers.{
  power_on, program_counter_inc, program_counter_set, emulation_set, status_flag_reset,
  switch_by_flags, switch_reg_len, switch_mem_len,
}
use snesemu.Rom
use snesemu.Rom.{Rom}
use snesemu.Parts.{rom_init}
use snesemu.System.{release}
use snesemu.Ram.{Ram}
use snesemu.Bus
use snesemu.AddressDecoder
use snesemu.AddressDecoder.{decode_parts, decode_system, trans_rom_addr}
use snesemu.Apu.{Garbage, Apu, ApuState}
use snesemu.Apu.Link.Commands.{message}
use snesemu.Cart
use snesemu.Cart.{Cart}
use snesemu.Cart.Balance.{PowersUp, power_up-PowersUp}
use snesemu.Machine.{Machine}
use snesemu.Cpu.Opcodes.{ops, get_opcode_size, mode_size, immediate_size}
use snesemu.Cpu.Fetch.{Instruction, update_next_instruction, fetch_operand}
use snesemu.Cpu.Fetch.Advance.{operand_length, advanced, fetched}
use snesemu.Cpu.Power
use snesemu.Cpu.Power.{at_reset}
use snesemu.Cpu.Power.Reset.{IsCleared, reset_machine, reset_cpu, init-reset}
use snesemu.Console.{Snes, with_devices, assembled}
use snesemu.Console.Balance.{Initialises, init-Initialises}
use snesemu.CommandLine.{Line, Prompt, handle_user_input, main, with_cart}
use snesemu.CommandLine.Repeat.{written_out, handle_user_input-written_out}
use snesemu.CommandLine.Exit.{main-fails}

abbrev grants : Grants
grants = record {
  memory = λ n. some (λ i. n);
  image = some (record { size = 0x10000; mapped = 0x10000; bytes = λ k. 0 });
  mapped = some tt;
}

abbrev process : Process
process = record { requests = 0; blocks = 0; files = 0; mappings = 0 }

found_blank : Rom.init grants.image ≡ ok (some blank_image)
unfolding Rom.init
found_blank = accepted

abbrev size_of : Option Rom → Result ℕ
size_of none = ok 0
size_of (some rom) = Rom.get_sram_size rom

sized_blank : (rom : Rom) → some blank_image ≡ some rom → Rom.get_sram_size rom ≡ ok 0x400
unfolding Rom.get_sram_size Rom.header_at
sized_blank rom e = sym (ap size_of e)

power_up-PowersUp_example : PowersUp grants process
power_up-PowersUp_example = power_up-PowersUp grants process 0x400 found_blank sized_blank

fetches_opcode : Bus.read bus 0x8000 ≡ ok 0x69
unfolding Bus.read Bus.read_device AddressDecoder.decode decode_parts decode_system Rom.read
    trans_rom_addr
fetches_opcode = refl

one_byte : operand_length (reset_machine bus 0x69 (λ k. 0x50)) 0x69 ≡ 1
unfolding ops get_opcode_size mode_size immediate_size at_reset program_counter_set power_on
    emulation_set status_flag_reset switch_by_flags switch_reg_len switch_mem_len
one_byte = refl

fetches_operand :
    (k : ℕ)
    → k < operand_length (reset_machine bus 0x69 (λ k. 0x50)) 0x69
    → Bus.read bus (u16 (0x8000 + 1 + k)) ≡ ok 0x50
unfolding Bus.read Bus.read_device AddressDecoder.decode decode_parts decode_system Rom.read
    trans_rom_addr
fetches_operand zero h = refl
fetches_operand (suc k) h = let one = one_byte in absurd (omega arith)

init-reset_example :
    IsCleared power_on
    × (n : ℕ) × ((Power.init grants bus process ≡ ok (none, more 0 0 0 process n))
        ⊎ (Power.init grants bus process
            ≡ ok (some (reset_cpu bus 0x69 (λ k. 0x50)), more 3 0 0 process n)))
unfolding Rom.get_emu_interrupt_vectors
init-reset_example =
    init-reset grants bus process (λ k. 0x50) (omega arith) fetches_opcode fetches_operand

abbrev cart : Cart
cart = record { rom = bus.rom; sram = counting 0x400; decoder = Rom.RomType.lorom }

abbrev raw : Garbage
raw = record {
  last_data = message 0 0 0 0;
  current_transfert_addr = 0;
  transfered = 0;
  total_transfered = 0;
}

abbrev start : Ram → Apu → Machine
start wram apu = at_reset power_on (with_devices cart wram apu)

abbrev first : Ram → Apu → Instruction × Machine
first wram apu = (fetched (start wram apu) 0x69 0x50, advanced (start wram apu) 2)

first_fetched :
    (wram : Ram) (apu : Apu) → update_next_instruction (start wram apu) ≡ ok (first wram apu)
unfolding ops get_opcode_size mode_size immediate_size at_reset program_counter_set power_on
    emulation_set status_flag_reset switch_by_flags switch_reg_len switch_mem_len
    update_next_instruction fetch_operand program_counter_inc Bus.read Bus.read_device
    AddressDecoder.decode decode_parts decode_system Rom.read trans_rom_addr
    Rom.get_emu_interrupt_vectors
first_fetched wram apu = refl

init-Initialises_example : Initialises grants raw cart process
init-Initialises_example = init-Initialises grants raw cart process first first_fetched

abbrev typed : ℕ → Line
typed c = record { command = some c; params = none; meanwhile = λ s. s }

abbrev prompt : Prompt
prompt = record { previous_command = 0; params = 0 }

abbrev snes : Snes
snes = assembled branching (record {
  port = port;
  state = ApuState.stopped;
  ram = counting 0x10000;
  last_data = message 0 0 0 0;
  current_transfert_addr = 0;
  transfered = 0;
  total_transfered = 0;
})

-- "n", two empty lines and "q".
abbrev typed_lines : List Line
typed_lines = typed 0x6e ∷ typed 0x0a ∷ typed 0x0a ∷ typed 0x71 ∷ []

handle_user_input-written_out_example :
    handle_user_input (written_out 0 typed_lines) prompt snes
    ≡ handle_user_input typed_lines prompt snes
handle_user_input-written_out_example = handle_user_input-written_out typed_lines prompt snes

-- Without a file there is no cartridge.
abbrev no_file : Grants
no_file = record grants { image = none }

exits :
    main no_file raw (ℤ.pos 0) (ℤ.pos 0) typed_lines prompt process
    ≡ some (ok (ℤ.negsuc 0, record process { requests = 3 }))
unfolding main with_cart Cart.power_up rom_init release
exits = refl

main-fails_example : ℤ.negsuc 0 ≡ ℤ.negsuc 0
main-fails_example = main-fails no_file raw (ℤ.pos 0) (ℤ.pos 0) typed_lines prompt process exits
