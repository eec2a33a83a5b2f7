-- ===== src/Cpu/Execute/PushPull/RoundTrips.antt =====
-- A register that is pushed is pulled again, whatever has happened to the other registers, while
-- the stack lies in the first 8 KB of the work memory.
use snesemu.Base.{ℕ, suc, ◌<◌, ◌≡◌, refl, ap, u8, ◌>>>◌, ok, arith}
use snesemu.Registers.{
  Registers, RegisterLength, RegisterValue, value8_low, value8_high, by_length, accumulator_set,
  direct_page_set, status_flag_force,
}
use snesemu.Machine.{Machine, pure, ◌>>◌}
use snesemu.Cpu.Defs.{EffectiveAddress}
use snesemu.Cpu.Stack.{push}
use snesemu.Cpu.Stack.Laws.{HasStack, at_sp}
use snesemu.Cpu.Stack.Words.{
  pushed_word, push_word_end, pull_low, pull_high, pushed_byte, push_byte, pull_byte,
}
use snesemu.Cpu.Execute.PushPull.{
  pull_by_length, execute_pha, execute_pla, execute_php, execute_plp, execute_phd, execute_pld,
}

-- The stack pointer of `r` is `s`.
abbrev pub PointsTo : Registers → ℕ → Type 0
PointsTo r s = r.stack_pointer ≡ record { len = RegisterLength.bit16; value16 = s }

module _ {m : Machine} {s : ℕ} (h : HasStack m (suc (suc s))) (v : RegisterValue)
    (range : v.value16 < 65536) where
  abbrev word_pushed : Machine
  word_pushed = pushed_word m s (value8_high v) (value8_low v)

  -- Both bytes of a wide register go to the stack.
  push_wide :
      (len : RegisterLength)
      → len ≡ RegisterLength.bit16
      → (by_length len (pure tt) (push (value8_high v)) >> push (value8_low v)) m
        ≡ ok (tt, word_pushed)
  push_wide len e = rw e (push_word_end h (value8_high v) (value8_low v))

  pull_wide :
      (len : RegisterLength) (r : Registers)
      → len ≡ RegisterLength.bit16
      → PointsTo r s
      → pull_by_length len (record word_pushed { registers = r })
        ≡ ok (v.value16, record word_pushed { registers = at_sp r (suc (suc s)) })
  unfolding pull_by_length
  pull_wide len r e p =
      rw
        (
          e,
          pull_low h (value8_high v) (value8_low v) r p,
          pull_high h (value8_high v) (value8_low v) r,
        )
        (ap (λ k. ok (k, record word_pushed { registers = at_sp r (suc (suc s)) })) (omega arith))

-- PHA and PLA at 16 bits, with two free bytes on the stack: PHA succeeds and takes two bytes, and
-- PLA at 16 bits, from wherever the other registers `r` have gone, loads what was pushed and frees
-- the two bytes.
pub pla-pha_word :
    {m : Machine} {s : ℕ}
    → HasStack m (suc (suc s))
    → m.registers.accumulator.len ≡ RegisterLength.bit16
    → m.registers.accumulator.value16 < 65536
    → (eff eff' : EffectiveAddress) (r : Registers) → PointsTo r s
    → r.accumulator.len ≡ RegisterLength.bit16
    → (m' : Machine) × (execute_pha eff m ≡ ok (tt, m'))
      × PointsTo m'.registers s
      × (execute_pla eff' (record m' { registers = r })
          ≡ ok (
            tt,
            record m' {
              registers = accumulator_set (at_sp r (suc (suc s))) m.registers.accumulator.value16;
            },
          ))
unfolding execute_pha execute_pla
pla-pha_word {m} h wide range eff eff' r p w = (
  word_pushed h m.registers.accumulator range,
  push_wide h m.registers.accumulator range m.registers.accumulator.len wide,
  refl,
  rw (pull_wide h m.registers.accumulator range r.accumulator.len r w p),
)

-- PHD and PLD, with two free bytes on the stack: the direct page comes back, with the flags N and Z
-- of its value, and the two bytes are freed.
pub pld-phd :
    {m : Machine} {s : ℕ}
    → HasStack m (suc (suc s))
    → m.registers.direct_page < 65536
    → (eff eff' : EffectiveAddress) (r : Registers) → PointsTo r s
    → (m' : Machine) × (execute_phd eff m ≡ ok (tt, m'))
      × PointsTo m'.registers s
      × (execute_pld eff' (record m' { registers = r })
          ≡ ok (
            tt,
            record m' {
              registers = direct_page_set (at_sp r (suc (suc s))) m.registers.direct_page;
            },
          ))
unfolding execute_phd execute_pld
pld-phd {m} {s} h range eff eff' r p = (
  pushed_word m s hi lo,
  push_word_end h hi lo,
  refl,
  rw (pull_low h hi lo r p, pull_high h hi lo r)
      (ap
        (λ k. ok (
          tt,
          record (pushed_word m s hi lo) { registers = direct_page_set (at_sp r (suc (suc s))) k },
        ))
        (omega arith)),
)
  where
    hi : ℕ
    hi = u8 (m.registers.direct_page >>> 8)

    lo : ℕ
    lo = u8 m.registers.direct_page

-- PHP and PLP, with one free byte on the stack: the status that was pushed is put in force by
-- `status_flag_force`, and the byte is freed.
pub plp-php :
    {m : Machine} {s : ℕ}
    → HasStack m (suc s)
    → m.registers.status < 256
    → (eff eff' : EffectiveAddress) (r : Registers) → PointsTo r s
    → (m' : Machine) × (execute_php eff m ≡ ok (tt, m'))
      × PointsTo m'.registers s
      × (execute_plp eff' (record m' { registers = r })
          ≡ ok (
            tt,
            record m' { registers = status_flag_force (at_sp r (suc s)) m.registers.status },
          ))
unfolding execute_php execute_plp
plp-php {m} {s} h range eff eff' r p = (
  pushed_byte m s m.registers.status,
  push_byte h m.registers.status,
  refl,
  rw (pull_byte h m.registers.status r p) (
      ap
        (λ k. ok (
          tt,
          record (pushed_byte m s m.registers.status) {
            registers = status_flag_force (at_sp r (suc s)) k;
          },
        ))
        (omega arith)),
)
