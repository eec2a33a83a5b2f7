-- ===== src/Cpu/Breakpoints/Slots.antt =====
-- Setting a breakpoint and finding it.
use snesemu.Base.{ℕ, ◌≡◌, ◌≢◌, refl, Bool, false, ◌&&◌, List, [], ◌∷◌, ◌==◌, ◌||◌, arith}
use snesemu.Cpu.Breakpoints.{set_breakpoint, find_breakpoint}

-- A free slot is a zero.
unfoldable pub free_slot : List ℕ → Bool
free_slot [] = false
free_slot (b ∷ breakpoints) = b == 0 || free_slot breakpoints

set_breakpoint-free :
    (breakpoints : List ℕ) (addr : ℕ) → (set_breakpoint breakpoints addr).1 ≡ free_slot breakpoints
unfolding set_breakpoint free_slot
set_breakpoint-free [] addr = refl
set_breakpoint-free (b ∷ bs) addr = let ih = set_breakpoint-free bs addr in ground arith

find-set_breakpoint_found :
    (breakpoints : List ℕ) (addr a : ℕ)
    → a ≢ 0
    → find_breakpoint (set_breakpoint breakpoints addr).0 a
      ≡ ((free_slot breakpoints && a == addr) || find_breakpoint breakpoints a)
unfolding set_breakpoint find_breakpoint free_slot
find-set_breakpoint_found [] addr a ne = refl
find-set_breakpoint_found (b ∷ bs) addr a ne =
    let ih = find-set_breakpoint_found bs addr a ne in ground arith

-- Setting a breakpoint succeeds exactly when a slot is free, and an address other than 0 is found
-- afterwards just when it was found before, or it is the new one and a slot was free.
pub find-set_breakpoint :
    (breakpoints : List ℕ) (addr a : ℕ)
    → a ≢ 0
    → ((set_breakpoint breakpoints addr).1 ≡ free_slot breakpoints)
      × (find_breakpoint (set_breakpoint breakpoints addr).0 a
          ≡ ((free_slot breakpoints && a == addr) || find_breakpoint breakpoints a))
find-set_breakpoint bs addr a ne =
    (set_breakpoint-free bs addr, find-set_breakpoint_found bs addr a ne)
