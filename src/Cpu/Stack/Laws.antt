-- ===== src/Cpu/Stack/Laws.antt =====
-- What is pushed is pulled again, while the stack lies in the first 8 KB of the work memory.
use snesemu.Base.{
  ap, sym, ◌∙◌, ℕ, suc, zero, ◌+◌, ◌-◌, ◌≤◌, ◌<◌, ◌≡◌, refl, List, [], ◌∷◌, ◌++◌, length, u8, u16,
  sub16, ok, arith,
}
use mathlib.Core.List.{map, reverse, reverse-append}
use snesemu.Registers.{Registers, RegisterLength, stack_pointer_set}
use snesemu.Bus.Memory.{poke, read_low, write_bank0}
use snesemu.Machine.{Machine, M, pure, ◌>>=◌, ◌>>◌}
use snesemu.Cpu.Stack.{push, pull}

-- The stack pointer of the emulated processor is always read at 16 bits.
abbrev pub at_sp : Registers → ℕ → Registers
at_sp r sp = record r { stack_pointer = record { len = RegisterLength.bit16; value16 = sp } }

-- A machine with the stack pointer at `sp`, which the first 8 KB hold.
pub record HasStack (m : Machine) (sp : ℕ) : Type 0 where
  pub pointer : m.registers.stack_pointer ≡ record { len = RegisterLength.bit16; value16 = sp }
  pub low : sp < 0x2000
  pub fits : 0x2000 ≤ m.bus.wram.size

abbrev pub pushed : Machine → ℕ → ℕ → Machine
pushed m sp v = record m { registers = at_sp m.registers (sub16 sp 1); bus = poke m.bus sp v }

module _ {m : Machine} {sp : ℕ} (h : HasStack m sp) (v : ℕ) where
  pub push_lem : push v m ≡ ok (tt, pushed m sp v)
  unfolding push stack_pointer_set
  push_lem = rw h.pointer (rw (write_bank0 m.bus sp v h.low h.fits))

pub pull_lem :
    (m : Machine) (sp : ℕ)
    → m.registers.stack_pointer ≡ record { len = RegisterLength.bit16; value16 = sp }
    → sp < 65536
    → u16 (sp + 1) < 0x2000
    → 0x2000 ≤ m.bus.wram.size
    → pull m
      ≡ ok (
        u8 (m.bus.wram.cells (u16 (sp + 1))),
        record m { registers = at_sp m.registers (u16 (sp + 1)) },
      )
unfolding pull stack_pointer_set
pull_lem m sp e b l f = rw e (rw (read_low m.bus (sp + 1) (omega arith) l f))

-- Pushes in order, and pulls into a list whose head came first.
pub push_all : List ℕ → M (Unit {0})
push_all [] = pure tt
push_all (v ∷ vs) = push v >> push_all vs

pub pull_all : ℕ → M (List ℕ)
pull_all zero = pure []
pull_all (suc n) = do xs ← pull_all n; x ← pull; pure (xs ++ x ∷ [])

-- After the pushes of `vs` from `m`: the pointer has moved by their number, nothing above it has
-- changed, and as many pulls give them back in reverse and restore the registers.
pub record Holds (m : Machine) (sp : ℕ) (vs : List ℕ) (m' : Machine) : Type 0 where
  pub pushes : push_all vs m ≡ ok (tt, m')
  pub registers : m'.registers ≡ at_sp m.registers (sp - length vs)
  pub size : m'.bus.wram.size ≡ m.bus.wram.size
  pub above : (a : ℕ) → sp < a → m'.bus.wram.cells a ≡ m.bus.wram.cells a
  pub pulls :
      pull_all (length vs) m'
      ≡ ok (reverse (map (λ v. u8 v) vs), record m' { registers = at_sp m.registers sp })

at_sp_self :
    (r : Registers) {sp : ℕ}
    → r.stack_pointer ≡ record { len = RegisterLength.bit16; value16 = sp }
    → at_sp r sp ≡ r
at_sp_self r e = ap (λ p. record r { stack_pointer = p }) (sym e)

Holds-nil : {m : Machine} {sp : ℕ} → HasStack m sp → Holds m sp [] m
unfolding push_all pull_all
Holds-nil {m} {sp} h = record {
  pushes = refl;
  registers = sym (at_sp_self m.registers h.pointer) ∙ ap (λ k. at_sp m.registers k) (omega arith);
  size = refl;
  above = λ a l. refl;
  pulls = ap (λ r. ok ([], record m { registers = r })) (sym (at_sp_self m.registers h.pointer));
}

pub pushed-HasStack :
    {m : Machine} {sp : ℕ} (v : ℕ) → HasStack m (suc sp) → HasStack (pushed m (suc sp) v) sp
pushed-HasStack v h = record {
  pointer = ap (λ k. record { len = RegisterLength.bit16; value16 = k }) (omega arith);
  low = omega arith;
  fits = h.fits;
}

-- One more pull, from just below `sp + 1`.
pub pull_above :
    (m : Machine) (sp : ℕ)
    → m.registers.stack_pointer ≡ record { len = RegisterLength.bit16; value16 = sp }
    → suc sp < 0x2000
    → 0x2000 ≤ m.bus.wram.size
    → pull m
      ≡ ok (u8 (m.bus.wram.cells (suc sp)), record m { registers = at_sp m.registers (suc sp) })
pull_above m sp e l f =
    pull_lem m sp e (omega arith) (omega arith) f
    ∙ ap (λ k. ok (u8 (m.bus.wram.cells k), record m { registers = at_sp m.registers k })) next
  where
    next : u16 (sp + 1) ≡ suc sp
    next = omega arith

module _ {m : Machine} {sp : ℕ} (h : HasStack m (suc sp)) (v : ℕ) (vs : List ℕ) (m' : Machine)
    (rest : Holds (pushed m (suc sp) v) sp vs m') where
  cell : u8 (m'.bus.wram.cells (suc sp)) ≡ u8 v
  cell = ground (arith, rest.above (suc sp))

  fits : 0x2000 ≤ m'.bus.wram.size
  fits = rw rest.size h.fits

  Holds-cons : Holds m (suc sp) (v ∷ vs) m'
  unfolding push_all pull_all
  Holds-cons = record {
    pushes = rw (push_lem h v) rest.pushes;
    registers = rest.registers ∙ ap (λ k. at_sp m.registers k) (omega arith);
    size = rest.size;
    above = λ a l. ground (arith, rest.above a);
    pulls =
        rw
          (
            rest.pulls,
            pull_above (record m' { registers = at_sp m.registers sp }) sp refl h.low fits,
            cell,
          )
          (ap (λ xs. ok (xs, record m' { registers = at_sp m.registers (suc sp) }))
            (sym (reverse-append (u8 v ∷ []) (map (λ w. u8 w) vs))));
  }

pushes-Holds :
    (vs : List ℕ) {m : Machine} {sp : ℕ}
    → HasStack m sp
    → length vs ≤ sp
    → (m' : Machine) × Holds m sp vs m'
pushes-Holds [] {m} h l = (m, Holds-nil h)
pushes-Holds (v ∷ vs) {m} {sp = zero} h l = absurd (omega arith)
pushes-Holds (v ∷ vs) {m} {sp = suc sp} h l =
    let (m', rest) = pushes-Holds vs (pushed-HasStack v h) (omega arith) in
    (m', Holds-cons h v vs m' rest)

-- With a stack pointer in the first 8 KB of the work memory and at least as many bytes below it as
-- are pushed, any bytes are pushed without a fault and the pointer moves by their number, a byte
-- above the pointer keeps its value, and as many pulls give the bytes back in reverse and restore
-- the registers.
pub pull_all-push_all :
    (vs : List ℕ) {m : Machine} {sp : ℕ}
    → HasStack m sp
    → length vs ≤ sp
    → (a : ℕ) → sp < a
    → (m' : Machine) × (push_all vs m ≡ ok (tt, m'))
      × (m'.registers ≡ at_sp m.registers (sp - length vs))
      × (m'.bus.wram.cells a ≡ m.bus.wram.cells a)
      × (pull_all (length vs) m'
          ≡ ok (reverse (map (λ v. u8 v) vs), record m' { registers = at_sp m.registers sp }))
pull_all-push_all vs h l a above =
    let (m', held) = pushes-Holds vs h l in
    (m', held.pushes, held.registers, held.above a above, held.pulls)
