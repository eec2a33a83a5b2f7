-- ===== src/System/Acquires.antt =====
-- What an initialiser leaves the process with: nothing when it fails, and its resources otherwise.
use snesemu.Base.{ℕ, zero, suc, ◌≡◌, refl, ◌⊎◌, inl, inr, Option, none, some, ok}
use snesemu.System.{Process, Act, Grants, malloc}

-- A sum that computes by its first number.
abbrev pub raised : ℕ → ℕ → ℕ
raised zero n = n
raised (suc k) n = suc (raised k n)

-- The process with so many resources more.
abbrev pub more : ℕ → ℕ → ℕ → Process → ℕ → Process
more b f m p n = record {
  requests = n;
  blocks = raised b p.blocks;
  files = raised f p.files;
  mappings = raised m p.mappings;
}

-- The action comes to an end in one of two ways.
pub data Acquires {ℓ} {A : Type ℓ} (c : Act (Option A)) (p : Process) (b f m : ℕ) : Type ℓ where
  refused : (n : ℕ) → c p ≡ ok (none, more 0 0 0 p n) → Acquires c p b f m
  obtained : (a : A) (n : ℕ) → c p ≡ ok (some a, more b f m p n) → Acquires c p b f m

pub Option-cases {ℓ} : {A : Type ℓ} (o : Option A) → (o ≡ none) ⊎ ((a : A) × (o ≡ some a))
Option-cases none = inl refl
Option-cases (some a) = inr (a, refl)

pub malloc-Acquires : (g : Grants) (p : Process) → Acquires (malloc g) p 1 0 0
malloc-Acquires g p = elim (Option-cases (g.memory p.requests)) [
  | inl e ↦ Acquires.refused (suc p.requests) (rw e refl)
  | inr (cells, e) ↦ Acquires.obtained cells (suc p.requests) (rw e refl)
]
