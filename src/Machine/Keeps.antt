-- ===== src/Machine/Keeps.antt =====
-- Actions that change the bus only by writes over it.
use snesemu.Base.{ℕ, ◌≡◌, refl, ap, Bool, true, false, Result, ok, err, and_then-ok, if◌then◌else◌}
use mathlib.Core.Path.{subst}
use snesemu.Registers.{Registers, RegisterLength, by_length}
use snesemu.Bus
use snesemu.Bus.{Bus}
use snesemu.Machine.{Machine, M, pure, continue, ◌>>=◌, ◌>>◌, registers, modify, inspect, bus_write}

-- What every write over the bus keeps.
pub record Kept (P : Bus → Type 0) : Type 0 where
  pub written :
      (bus : Bus) (addr v : ℕ) {bus' : Bus} → Bus.write bus addr v ≡ ok bus' → P bus → P bus'

module _ (P : Bus → Type 0) where
  pub record Keeps {A : Type 0} (c : M A) : Type 0 where
    pub keep : (m : Machine) {a : A} {m' : Machine} → c m ≡ ok (a, m') → P m.bus → P m'.bus

module _ {P : Bus → Type 0} {A B : Type 0} where
  pub bind-Keeps :
      {c : M A} {f : A → M B} → Keeps P c → ((a : A) → Keeps P (f a)) → Keeps P (c >>= f)
  bind-Keeps {c} {f} k l = record { keep = λ m e p. continued (c m) refl e p }
    where
      continued :
          {m m' : Machine} {b : B} (r : Result (A × Machine))
          → c m ≡ r
          → continue r f ≡ ok (b, m')
          → P m.bus
          → P m'.bus
      continued (ok (a, m1)) e e' p = (l a).keep m1 e' (k.keep _ e p)
      continued (err x) e e' p = cc

  pub then-Keeps : {c : M A} {d : M B} → Keeps P c → Keeps P d → Keeps P (c >> d)
  then-Keeps {c} {d} k l = record { keep = λ m e p. continued (c m) refl e p }
    where
      continued :
          {m m' : Machine} {b : B} (r : Result (A × Machine))
          → c m ≡ r
          → continue r (λ _. d) ≡ ok (b, m')
          → P m.bus
          → P m'.bus
      continued (ok (a, m1)) e e' p = l.keep m1 e' (k.keep _ e p)
      continued (err x) e e' p = cc

abbrev same_bus : {A : Type 0} → Result (A × Machine) → Bus → Bus
same_bus (ok (a, m)) bus = m.bus
same_bus (err e) bus = bus

module _ {P : Bus → Type 0} where
  pub pure-Keeps : {A : Type 0} {a : A} → Keeps P (pure a)
  pure-Keeps {a} = record { keep = λ m e p. subst P (ap (λ r. same_bus r m.bus) e) p }

  pub registers-Keeps : Keeps P registers
  registers-Keeps = record { keep = λ m e p. subst P (ap (λ r. same_bus r m.bus) e) p }

  pub modify-Keeps : (f : Registers → Registers) → Keeps P (modify f)
  modify-Keeps f = record { keep = λ m e p. subst P (ap (λ r. same_bus r m.bus) e) p }

  pub inspect-Keeps : {A : Type 0} (f : Machine → Result A) → Keeps P (inspect f)
  inspect-Keeps f = record {
    keep = λ m e p.
        let (a, read, done) = and_then-ok (f m) _ e in subst P (ap (λ r. same_bus r m.bus) done) p;
  }

  pub bus_write-Keeps : Kept P → (addr v : ℕ) → Keeps P (bus_write addr v)
  bus_write-Keeps w addr v = record {
    keep = λ m e p.
        let (bus, wrote, done) = and_then-ok (Bus.write m.bus addr v) _ e in
        subst P (ap (λ r. same_bus r m.bus) done) (w.written m.bus addr v wrote p);
  }

  pub if-Keeps :
      {A : Type 0} (b : Bool) {c d : M A} → Keeps P c → Keeps P d → Keeps P (if b then c else d)
  if-Keeps true k l = k
  if-Keeps false k l = l

  pub by_length-Keeps :
      {A : Type 0} (len : RegisterLength) {c d : M A}
      → Keeps P c
      → Keeps P d
      → Keeps P (by_length len c d)
  by_length-Keeps RegisterLength.bit8 k l = k
  by_length-Keeps RegisterLength.bit16 k l = l

-- The rules, by what an action is made of.
pub ruleset keeps = (
  modify-Keeps, registers-Keeps, pure-Keeps, inspect-Keeps, bus_write-Keeps, if-Keeps,
  by_length-Keeps, then-Keeps, bind-Keeps,
)
