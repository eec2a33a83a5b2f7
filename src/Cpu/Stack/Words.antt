-- ===== src/Cpu/Stack/Words.antt =====
-- Two bytes on the stack: a word, its high byte pushed first.
use snesemu.Base.{ℕ, suc, ◌≡◌, refl, ap, ◌∙◌, u8, ok, arith}
use snesemu.Registers.{Registers, RegisterLength}
use snesemu.Bus.Memory.{poke}
use snesemu.Machine.{Machine, M, ◌>>◌}
use snesemu.Cpu.Stack.{push, pull}
use snesemu.Cpu.Stack.Laws.{HasStack, at_sp, push_lem, pushed-HasStack, pull_above}

-- The machine after two pushes from the pointer `s + 2`.
abbrev pub pushed_word : Machine → ℕ → ℕ → ℕ → Machine
pushed_word m s hi lo = record m {
  registers = at_sp m.registers s;
  bus = poke (poke m.bus (suc (suc s)) hi) (suc s) lo;
}

module _ {m : Machine} {s : ℕ} (h : HasStack m (suc (suc s))) where
  pub push_word :
      {A : Type 0} (hi lo : ℕ) (rest : M A)
      → (push hi >> (push lo >> rest)) m ≡ rest (pushed_word m s hi lo)
  push_word hi lo rest = rw (push_lem h hi) (
      rw (push_lem (pushed-HasStack hi h) lo) (
        ap
          (λ k. rest (record m {
            registers = at_sp m.registers k;
            bus = poke (poke m.bus (suc (suc s)) hi) (suc s) lo;
          }))
          (omega arith)))

  pub push_word_end : (hi lo : ℕ) → (push hi >> push lo) m ≡ ok (tt, pushed_word m s hi lo)
  push_word_end hi lo = rw (push_lem h hi) (
      push_lem (pushed-HasStack hi h) lo
      ∙ ap
          (λ k. ok (
            tt,
            record m {
              registers = at_sp m.registers k;
              bus = poke (poke m.bus (suc (suc s)) hi) (suc s) lo;
            },
          ))
          (omega arith))

  -- Whatever has happened to the other registers, two pulls give the bytes back.
  pub pull_low :
      (hi lo : ℕ) (r : Registers)
      → r.stack_pointer ≡ record { len = RegisterLength.bit16; value16 = s }
      → pull (record (pushed_word m s hi lo) { registers = r })
        ≡ ok (u8 lo, record (pushed_word m s hi lo) { registers = at_sp r (suc s) })
  pull_low hi lo r e =
      pull_above (record (pushed_word m s hi lo) { registers = r }) s e (omega (arith, h.low))
        h.fits
      ∙ ap (λ v. ok (v, record (pushed_word m s hi lo) { registers = at_sp r (suc s) })) low
    where
      low : u8 ((pushed_word m s hi lo).bus.wram.cells (suc s)) ≡ u8 lo
      low = ground arith

  pub pull_high :
      (hi lo : ℕ) (r : Registers)
      → pull (record (pushed_word m s hi lo) { registers = at_sp r (suc s) })
        ≡ ok (u8 hi, record (pushed_word m s hi lo) { registers = at_sp r (suc (suc s)) })
  pull_high hi lo r =
      pull_above (record (pushed_word m s hi lo) { registers = at_sp r (suc s) }) (suc s) refl h.low
        h.fits
      ∙ ap (λ v. ok (v, record (pushed_word m s hi lo) { registers = at_sp r (suc (suc s)) })) high
    where
      high : u8 ((pushed_word m s hi lo).bus.wram.cells (suc (suc s))) ≡ u8 hi
      high = ground arith

-- The same for one byte, from the pointer `s + 1`.
abbrev pub pushed_byte : Machine → ℕ → ℕ → Machine
pushed_byte m s v = record m { registers = at_sp m.registers s; bus = poke m.bus (suc s) v }

module _ {m : Machine} {s : ℕ} (h : HasStack m (suc s)) (v : ℕ) where
  pub push_byte : push v m ≡ ok (tt, pushed_byte m s v)
  push_byte =
      push_lem h v
      ∙ ap (λ k. ok (tt, record m { registers = at_sp m.registers k; bus = poke m.bus (suc s) v }))
          (omega arith)

  pub pull_byte :
      (r : Registers)
      → r.stack_pointer ≡ record { len = RegisterLength.bit16; value16 = s }
      → pull (record (pushed_byte m s v) { registers = r })
        ≡ ok (u8 v, record (pushed_byte m s v) { registers = at_sp r (suc s) })
  pull_byte r e =
      pull_above (record (pushed_byte m s v) { registers = r }) s e h.low h.fits
      ∙ ap (λ w. ok (w, record (pushed_byte m s v) { registers = at_sp r (suc s) })) cell
    where
      cell : u8 ((pushed_byte m s v).bus.wram.cells (suc s)) ≡ u8 v
      cell = ground arith
