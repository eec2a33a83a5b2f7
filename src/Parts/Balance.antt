-- ===== src/Parts/Balance.antt =====
-- What the initialisers of the parts acquire.
use snesemu.Base.{ℕ, suc, ◌≡◌, refl, sym, ap, ◌∙◌, inl, inr, Option, some, ok, true, arith}
use snesemu.System.{Process, pure, release, Grants, malloc, free, attempt}
use snesemu.System.Takes.{Takes, later, granted_join, malloc-Takes, Takes-Acquires}
use snesemu.System.Acquires.{Acquires, raised, more, malloc-Acquires, Option-cases}
use snesemu.Ram
use snesemu.Rom
use snesemu.AddressDecoder
use snesemu.Rom.{Rom}
use snesemu.Parts.{ram_init, ram_destroy, apu_port_init, bus_init, rom_init, addrdecoder_init}

module _ (g : Grants) where
  pub ram_init-Takes : (size : ℕ) (p : Process) → Takes g (ram_init g size) p 2
  unfolding ram_init release Ram.init
  ram_init-Takes size p = elim (malloc-Takes g p) [
    | Takes.refused k h all absent e ↦ Takes.refused k (omega arith) all absent (rw e refl)
    | Takes.obtained self all e ↦ elim (malloc-Takes g (more 1 0 0 p (later 1 p.requests))) [
      | Takes.refused k h all' absent e' ↦
          Takes.refused (raised 1 k) (omega arith) (granted_join g 1 p.requests k all all') absent
            (rw e (rw e' refl))
      | Takes.obtained cells all' e' ↦
          Takes.obtained (record { size = size; cells = cells })
            (granted_join g 1 p.requests 1 all all') (rw e (rw e' refl))
    ]
  ]

  pub ram_init-Acquires : (size : ℕ) (p : Process) → Acquires (ram_init g size) p 2 0 0
  ram_init-Acquires size p = Takes-Acquires (ram_init-Takes size p)

  pub apu_port_init-Takes : (p : Process) → Takes g (apu_port_init g) p 5
  unfolding apu_port_init ram_destroy release
  apu_port_init-Takes p = elim (malloc-Takes g p) [
    | Takes.refused k h all absent e ↦ Takes.refused k (omega arith) all absent (rw e refl)
    | Takes.obtained self all e ↦ elim (ram_init-Takes 4 (more 1 0 0 p (later 1 p.requests))) [
      | Takes.refused k h all1 absent e1 ↦
          Takes.refused (raised 1 k) (omega arith) (granted_join g 1 p.requests k all all1) absent
            (rw e (rw e1 refl))
      | Takes.obtained input all1 e1 ↦
          let all3 = granted_join g 1 p.requests 2 all all1 in
          elim (ram_init-Takes 4 (more 3 0 0 p (later 3 p.requests))) [
            | Takes.refused k h all2 absent e2 ↦
                Takes.refused (raised 3 k) (omega arith) (granted_join g 3 p.requests k all3 all2)
                  absent (rw e (rw e1 (rw e2 refl)))
            | Takes.obtained output all2 e2 ↦
                Takes.obtained (record { input_port = input; output_port = output })
                  (granted_join g 3 p.requests 2 all3 all2) (rw e (rw e1 (rw e2 refl)))
          ]
    ]
  ]

  -- The image's header must be found or missed within the image.
  pub rom_init-Acquires :
      {found : Option Rom} (p : Process)
      → Rom.init g.image ≡ ok found
      → Acquires (rom_init g) p 1 1 1
  unfolding rom_init release
  rom_init-Acquires {found} p searched = elim (malloc-Acquires g p) [
    | Acquires.refused n e ↦ Acquires.refused n (rw e refl)
    | Acquires.obtained self n e ↦ elim (Option-cases g.image) [
      | inl no_file ↦ Acquires.refused (suc n) (rw e (rw no_file refl))
      | inr (image, file) ↦ elim (Option-cases g.mapped) [
        | inl no_map ↦ Acquires.refused (suc (suc n)) (rw e (rw file (rw no_map refl)))
        | inr (tt, mapped) ↦
            let searched' : Rom.init (some image) ≡ ok found = ap Rom.init (sym file) ∙ searched in
            elim (Option-cases found) [
              | inl missed ↦
                  Acquires.refused (suc (suc n))
                    (rw e (rw file (rw mapped (rw searched' (rw missed refl)))))
              | inr (rom, hit) ↦
                  Acquires.obtained rom (suc (suc n))
                    (rw e (rw file (rw mapped (rw searched' (rw hit refl)))))
            ]
      ]
    ]
  ]

  pub rom_init-found :
      (p : Process) {found : Option Rom} {rom : Rom} {q : Process}
      → Rom.init g.image ≡ ok found
      → rom_init g p ≡ ok (some rom, q)
      → found ≡ some rom
  unfolding rom_init release Rom.init
  rom_init-found p searched e = ground arith

  block-Acquires :
      {A : Type 0} (o : Option A) (p : Process)
      → Acquires
          (attempt (malloc g) (pure tt) λ self. attempt (pure o) free λ a. pure (some a))
          p
          1
          0
          0
  unfolding release
  block-Acquires o p = elim (malloc-Acquires g p) [
    | Acquires.refused n e ↦ Acquires.refused n (rw e refl)
    | Acquires.obtained self n e ↦ elim (Option-cases o) [
      | inl absent ↦ Acquires.refused n (rw e (rw absent refl))
      | inr (a, present) ↦ Acquires.obtained a n (rw e (rw present refl))
    ]
  ]

  pub addrdecoder_init-Acquires :
      (rom : Rom) (p : Process) → Acquires (addrdecoder_init g rom) p 1 0 0
  unfolding addrdecoder_init
  addrdecoder_init-Acquires rom p = block-Acquires (AddressDecoder.init true rom) p

  pub bus_init-Takes : (p : Process) → Takes g (bus_init g) p 1
  unfolding bus_init
  bus_init-Takes p = elim (malloc-Takes g p) [
    | Takes.refused k h all absent e ↦ Takes.refused k h all absent (rw e refl)
    | Takes.obtained self all e ↦ Takes.obtained tt all (rw e refl)
  ]
