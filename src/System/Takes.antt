-- ===== src/System/Takes.antt =====
-- Initialisers that only ask for blocks, by the request that is refused first.
use snesemu.Base.{ℕ, zero, suc, ◌<◌, ◌≡◌, refl, inl, inr, Option, none, some, ok, arith}
use snesemu.System.{Process, Act, Grants, malloc}
use snesemu.System.Acquires.{Acquires, more, raised, Option-cases}

-- The number of the request that is `k` after `n`.
abbrev pub later : ℕ → ℕ → ℕ
later zero n = n
later (suc k) n = later k (suc n)

-- The `k` requests from `n` on are granted.
abbrev pub AllGranted : Grants → ℕ → ℕ → Type 0
AllGranted g n zero = Unit
AllGranted g n (suc k) = ((cells : ℕ → ℕ) × (g.memory n ≡ some cells)) × AllGranted g (suc n) k

-- An action that asks for `b` blocks: it fails at the first that is refused, with nothing kept and no
-- further request, or all are granted and kept.
pub data Takes {ℓ} (g : Grants) {A : Type ℓ} (c : Act (Option A)) (p : Process) (b : ℕ)
    : Type ℓ where
  refused :
      (k : ℕ)
      → k < b
      → AllGranted g p.requests k
      → g.memory (later k p.requests) ≡ none
      → c p ≡ ok (none, more 0 0 0 p (suc (later k p.requests)))
      → Takes g c p b
  obtained :
      (a : A)
      → AllGranted g p.requests b
      → c p ≡ ok (some a, more b 0 0 p (later b p.requests))
      → Takes g c p b

pub malloc-Takes : (g : Grants) (p : Process) → Takes g (malloc g) p 1
malloc-Takes g p = elim (Option-cases (g.memory p.requests)) [
  | inl e ↦ Takes.refused 0 (omega arith) tt e (rw e refl)
  | inr (cells, e) ↦ Takes.obtained cells ((cells, e), tt) (rw e refl)
]

pub granted_join :
    (g : Grants) (b : ℕ) (n k : ℕ)
    → AllGranted g n b
    → AllGranted g (later b n) k
    → AllGranted g n (raised b k)
granted_join g zero n k all more = more
granted_join g (suc b) n k all more = (all.0, granted_join g b (suc n) k all.1 more)

pub Takes-Acquires {ℓ} :
    {g : Grants} {A : Type ℓ} {c : Act (Option A)} {p : Process} {b : ℕ}
    → Takes g c p b
    → Acquires c p b 0 0
Takes-Acquires (Takes.refused k h all absent e) = Acquires.refused _ e
Takes-Acquires (Takes.obtained a all e) = Acquires.obtained a _ e
