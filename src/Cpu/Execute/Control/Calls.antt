-- ===== src/Cpu/Execute/Control/Calls.antt =====
-- JSR and RTS.
use snesemu.Base.{ℕ, suc, ◌<◌, ◌≡◌, refl, ap, ◌∙◌, u8, u16, sub16, ◌>>>◌, ok, arith}
use snesemu.Registers.{Registers, RegisterLength, program_counter_set, program_bank_set}
use snesemu.Machine.{Machine}
use snesemu.Cpu.Opcodes.{ops}
use snesemu.Cpu.Defs.{Mnemonic, AddressingMode, EffectiveAddress}
use snesemu.Cpu.Stack.{pull}
use snesemu.Cpu.Stack.Laws.{HasStack, at_sp, pull_above}
use snesemu.Cpu.Stack.Words.{pushed_word, push_word, pull_low, pull_high}
use snesemu.Cpu.Execute.Control.{execute_jsr, execute_rts, execute_rtl}

-- The bytes of the return address, which is that of the last byte of the instruction.
abbrev pub return_hi : ℕ → ℕ
return_hi pc = u8 (sub16 pc 1 >>> 8)

abbrev pub return_lo : ℕ → ℕ
return_lo pc = u8 (sub16 pc 1)

-- The machine in the subroutine.
abbrev pub called : Machine → ℕ → ℕ → Machine
called m s target =
    let m' = pushed_word m s (return_hi m.registers.pc) (return_lo m.registers.pc) in
    record m' { registers = record m'.registers { pc = u16 target } }

module _ {m : Machine} {s : ℕ} (h : HasStack m (suc (suc s))) (pc : m.registers.pc < 65536)
    (target : EffectiveAddress) where
  jsr_lem : execute_jsr target m ≡ ok (tt, called m s target.simple_address)
  unfolding execute_jsr program_counter_set
  jsr_lem = push_word h (return_hi m.registers.pc) (return_lo m.registers.pc) _

  rts_lem :
      (eff : EffectiveAddress) (r : Registers)
      → r.stack_pointer ≡ record { len = RegisterLength.bit16; value16 = s }
      → execute_rts eff (record (called m s target.simple_address) { registers = r })
        ≡ ok (
          tt,
          record (called m s target.simple_address) {
            registers = record (at_sp r (suc (suc s))) { pc = m.registers.pc };
          },
        )
  unfolding execute_rts program_counter_set
  rts_lem eff r e =
      rw
        (
          pull_low h (return_hi m.registers.pc) (return_lo m.registers.pc) r e,
          pull_high h (return_hi m.registers.pc) (return_lo m.registers.pc) r,
        )
        (ap
          (λ k. ok (
            tt,
            record (called m s target.simple_address) {
              registers = record (at_sp r (suc (suc s))) { pc = k };
            },
          ))
          (omega arith))

  -- The third byte that RTL pulls was not pushed.
  pull_bank :
      (r : Registers)
      → suc (suc (suc s)) < 0x2000
      → pull (record (called m s target.simple_address) { registers = at_sp r (suc (suc s)) })
        ≡ ok (
          u8 (m.bus.wram.cells (suc (suc (suc s)))),
          record (called m s target.simple_address) { registers = at_sp r (suc (suc (suc s))) },
        )
  pull_bank r free =
      pull_above (record (called m s target.simple_address) { registers = at_sp r (suc (suc s)) })
        (suc (suc s)) refl free h.fits
      ∙ ap
          (λ v. ok (
            v,
            record (called m s target.simple_address) { registers = at_sp r (suc (suc (suc s))) },
          ))
          cell
    where
      cell :
          u8 ((called m s target.simple_address).bus.wram.cells (suc (suc (suc s))))
          ≡ u8 (m.bus.wram.cells (suc (suc (suc s))))
      cell = ground arith

  rtl_lem :
      (eff : EffectiveAddress) (r : Registers)
      → suc (suc (suc s)) < 0x2000
      → r.stack_pointer ≡ record { len = RegisterLength.bit16; value16 = s }
      → execute_rtl eff (record (called m s target.simple_address) { registers = r })
        ≡ ok (
          tt,
          record (called m s target.simple_address) {
            registers = record (at_sp r (suc (suc (suc s)))) {
              pc = m.registers.pc;
              program_bank = u8 (m.bus.wram.cells (suc (suc (suc s))));
            };
          },
        )
  unfolding execute_rtl program_counter_set program_bank_set
  rtl_lem eff r free e =
      rw
        (
          pull_low h (return_hi m.registers.pc) (return_lo m.registers.pc) r e,
          pull_high h (return_hi m.registers.pc) (return_lo m.registers.pc) r,
          pull_bank r free,
        )
        (ap
          (λ k. ok (
            tt,
            record (called m s target.simple_address) {
              registers = record (at_sp r (suc (suc (suc s)))) {
                pc = k;
                program_bank = u8 (m.bus.wram.cells (suc (suc (suc s))));
              };
            },
          ))
          (omega arith))

-- A call and its return: with at least two free bytes on a stack in the first 8 KB of the work
-- memory, JSR goes to the low 16 bits of its target without a fault; and from wherever the
-- subroutine has left the other registers, RTS with the stack pointer of its entry continues at the
-- program counter of the call and frees the two bytes.
pub rts-jsr :
    {m : Machine} {s : ℕ}
    → HasStack m (suc (suc s))
    → m.registers.pc < 65536
    → (target eff : EffectiveAddress) (r : Registers)
    → r.stack_pointer ≡ record { len = RegisterLength.bit16; value16 = s }
    → (execute_jsr target m ≡ ok (tt, called m s target.simple_address))
      × (execute_rts eff (record (called m s target.simple_address) { registers = r })
          ≡ ok (
            tt,
            record (called m s target.simple_address) {
              registers = record (at_sp r (suc (suc s))) { pc = m.registers.pc };
            },
          ))
rts-jsr h pc target eff r e = (jsr_lem h pc target, rts_lem h pc target eff r e)

-- The long call and the long return. The opcode 0x22 is a JSR with a long address, which pushes the
-- two bytes of a short call and keeps the program bank, whatever bank its target is in; RTL pulls
-- three. So with at least two free bytes and one more above the pointer in the first 8 KB, RTL after
-- it continues at the program counter of the call, but in the bank that the byte above the pointer
-- of the call happens to be, and with the pointer past that byte.
pub rtl-jsr :
    {m : Machine} {s : ℕ}
    → HasStack m (suc (suc s))
    → suc (suc (suc s)) < 0x2000
    → m.registers.pc < 65536
    → (target eff : EffectiveAddress) (r : Registers)
    → r.stack_pointer ≡ record { len = RegisterLength.bit16; value16 = s }
    → ((ops 0x22).mne ≡ Mnemonic.jsr)
      × ((ops 0x22).addr ≡ AddressingMode.absolute_long)
      × (execute_jsr target m ≡ ok (tt, called m s target.simple_address))
      × (execute_rtl eff (record (called m s target.simple_address) { registers = r })
          ≡ ok (
            tt,
            record (called m s target.simple_address) {
              registers = record (at_sp r (suc (suc (suc s)))) {
                pc = m.registers.pc;
                program_bank = u8 (m.bus.wram.cells (suc (suc (suc s))));
              };
            },
          ))
unfolding ops
rtl-jsr h free pc target eff r e =
    (refl, refl, jsr_lem h pc target, rtl_lem h pc target eff r free e)
