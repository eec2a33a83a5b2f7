-- ===== src/Cart/Balance.antt =====
-- What powering a cartridge up and down leaves the process with.
use snesemu.Base.{ℕ, ◌≡◌, refl, Option, none, some, ok}
use snesemu.System.{Process, release, Grants}
use snesemu.System.Acquires.{Acquires, more, malloc-Acquires}
use snesemu.Parts.Balance.{
  ram_init-Acquires, rom_init-found, rom_init-Acquires, addrdecoder_init-Acquires,
}
use snesemu.Rom
use snesemu.Rom.{Rom}
use snesemu.Parts.{ram_destroy, rom_destroy, addrdecoder_destroy}
use snesemu.Cart.{Cart, power_up, power_down}

-- How a power-up ends: with nothing kept; with the mapping of the image kept alone; or with a
-- cartridge, of which a power-down gives up all but the mapping.
pub data PowersUp (g : Grants) (p : Process) : Type 0 where
  refused : (n : ℕ) → power_up g p ≡ ok (none, more 0 0 0 p n) → PowersUp g p
  leaked : (n : ℕ) → power_up g p ≡ ok (none, more 0 0 1 p n) → PowersUp g p
  powered :
      (cart : Cart) (n : ℕ)
      → power_up g p ≡ ok (some cart, more 5 1 1 p n)
      → power_down (more 5 1 1 p n) ≡ ok (tt, more 0 0 1 p n)
      → PowersUp g p

-- A power-up over an image whose header can be searched for within its bytes, and whose header, if
-- there is one, gives the save memory a size of which the shift is defined: it has no fault,
-- and ends with nothing kept; with the mapping of the image kept alone; or with a cartridge, which
-- holds five blocks, a file and a mapping, and of which a power-down gives up all but the mapping.
pub power_up-PowersUp :
    (g : Grants) (p : Process) {found : Option Rom} (size : ℕ)
    → Rom.init g.image ≡ ok found
    → ((rom : Rom) → found ≡ some rom → Rom.get_sram_size rom ≡ ok size)
    → PowersUp g p
unfolding power_up power_down release ram_destroy rom_destroy addrdecoder_destroy
power_up-PowersUp g p size searched sized = elim (malloc-Acquires g p) [
  | Acquires.refused n e ↦ PowersUp.refused n (rw e refl)
  | Acquires.obtained self n e ↦ elim (rom_init-Acquires g (more 1 0 0 p n) searched) [
    | Acquires.refused n' e' ↦ PowersUp.refused n' (rw e (rw e' refl))
    | Acquires.obtained rom n' e' ↦
        let sized' = sized rom (rom_init-found g (more 1 0 0 p n) searched e') in
        elim (ram_init-Acquires g size (more 2 1 1 p n')) [
          | Acquires.refused m e1 ↦ PowersUp.leaked m (rw e (rw e' (rw sized' (rw e1 refl))))
          | Acquires.obtained sram m e1 ↦ elim (addrdecoder_init-Acquires g rom (more 4 1 1 p m)) [
            | Acquires.refused m' e2 ↦
                PowersUp.leaked m' (rw e (rw e' (rw sized' (rw e1 (rw e2 refl)))))
            | Acquires.obtained decoder m' e2 ↦
                PowersUp.powered (record { rom = rom; sram = sram; decoder = decoder }) m'
                  (rw e (rw e' (rw sized' (rw e1 (rw e2 refl))))) refl
          ]
        ]
  ]
]
