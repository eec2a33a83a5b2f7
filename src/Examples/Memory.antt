-- ===== src/Examples/Memory.antt =====
-- Runs of the address decoder, the bus and the ports.
use snesemu.Base.{◌≡◌, ◌≢◌, refl, ok, err, assert_failed, inl, inr, arith, ◌⊎◌}
use snesemu.AddressDecoder.{MemType, decode, decode_parts, decode_system, trans_wram_addr}
use snesemu.AddressDecoder.Regions.{long, at, decode_upper, decode_sram, decode_shared_ram}
use snesemu.Bus
use snesemu.Bus.{Bus}
use snesemu.Bus.Bounds.{ReadEnds, read-ReadEnds}
use snesemu.Bus.Memory.{
  IsMemory, poke, read-write_self, read-write_ne, read_low_ram_mirror, write_low,
}
use snesemu.Examples.{bus}

-- Behind the four ports, in the banks that have them.
read-ReadEnds_example : ReadEnds bus 0x002150
read-ReadEnds_example = read-ReadEnds bus 0x002150 (omega arith) refl refl

decode_upper_example : decode (long 0x81 0x8123) ≡ at MemType.rom 0x8123
decode_upper_example =
    decode_upper 0x81 0x8123 (omega arith) (omega arith) (omega arith) (inr (omega arith))

decode_sram_example : decode (long 0xf1 0x10) ≡ at MemType.sram 0x8010
decode_sram_example =
    decode_sram 0xf1 0x10 (omega arith) (omega arith) (omega arith) (inr (omega arith))
      (omega arith)

decode_shared_ram_example :
    (decode (long 0x12 0x345) ≡ decode (long 0x7e 0x345))
    × (decode (long 0x7e 0x345) ≡ at MemType.wram 0x345)
decode_shared_ram_example =
    decode_shared_ram 0x12 0x345 (omega arith) (omega arith) (omega arith) (omega arith)

abbrev bus_after : Bus
bus_after = poke bus 0x345 0x1ff

written : Bus.write bus 0x345 0x1ff ≡ ok bus_after
written = write_low bus 0x345 (omega arith) (omega arith) (omega arith) 0x1ff

decoded : decode 0x345 ≡ at MemType.wram 0x345
unfolding decode decode_parts decode_system trans_wram_addr
decoded = refl

is_memory : IsMemory 0x345
unfolding decode decode_parts decode_system trans_wram_addr
is_memory = inl refl

read-write_self_example : Bus.read bus_after 0x345 ≡ ok 0xff
read-write_self_example = read-write_self bus 0x345 0x1ff is_memory written

other_cell :
    ((decode 0x345).type ≢ (decode 0x346).type)
    ⊎ ((decode 0x345).dec_addr ≢ (decode 0x346).dec_addr)
unfolding decode decode_parts decode_system trans_wram_addr
other_cell = inr (omega arith)

read-write_ne_example : Bus.read bus_after 0x346 ≡ Bus.read bus 0x346
read-write_ne_example = read-write_ne bus 0x345 0x346 0x1ff other_cell written

read_low_ram_mirror_example : Bus.read bus 0x800010 ≡ err assert_failed
read_low_ram_mirror_example =
    read_low_ram_mirror bus 0x80 0x10 refl (omega arith) (omega arith) (omega arith)
