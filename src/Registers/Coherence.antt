-- ===== src/Registers/Coherence.antt =====
-- The widths of the registers against the flags M and X, through the writers of the status.
use snesemu.Base.{
  ℕ, ◌-◌, ◌<◌, ◌≡◌, refl, ap, sym, ◌∙◌, Bool, true, false, not, ◌&&◌, ◌||◌, bit_or, bit_and, ◌⊎◌,
  inl, inr, ◌↔◌, arith,
}
use snesemu.Base.Bits.{testbit, testbit-or, masked-eq-testbit}
use snesemu.Registers.{
  Registers, RegisterLength, switch_reg_len, switch_mem_len, switch_by_flags, status_flag_set,
  status_flag_reset, status_flag_force, emulation_reset,
}
use snesemu.Registers.Flags.{flag, status-switch_by_flags, flag-set, flag-reset}

-- The width that a flag M or X asks for.
abbrev pub length_of : Bool → RegisterLength
length_of true = RegisterLength.bit8
length_of false = RegisterLength.bit16

-- M gives the width of the accumulator, and X that of the index registers.
pub record Coherent (r : Registers) : Type 0 where
  pub accumulator : r.accumulator.len ≡ length_of (flag 5 r.status)
  pub x : r.x.len ≡ length_of (flag 4 r.status)
  pub y : r.y.len ≡ length_of (flag 4 r.status)

-- The widths after the switches: those of the mask change.
abbrev switched : Bool → RegisterLength → RegisterLength → RegisterLength
switched true len old = len
switched false len old = old

accumulator_switched :
    (r : Registers) (mask : ℕ) (len : RegisterLength)
    → (switch_by_flags r mask len).accumulator.len ≡ switched (testbit 5 mask) len r.accumulator.len
unfolding switch_by_flags switch_reg_len switch_mem_len
accumulator_switched r mask RegisterLength.bit8 =
    let e = masked-eq-testbit 5 mask in let f = masked-eq-testbit 4 mask in ground arith
accumulator_switched r mask RegisterLength.bit16 =
    let e = masked-eq-testbit 5 mask in let f = masked-eq-testbit 4 mask in ground arith

x_switched :
    (r : Registers) (mask : ℕ) (len : RegisterLength)
    → (switch_by_flags r mask len).x.len ≡ switched (testbit 4 mask) len r.x.len
unfolding switch_by_flags switch_reg_len switch_mem_len
x_switched r mask RegisterLength.bit8 =
    let e = masked-eq-testbit 5 mask in let f = masked-eq-testbit 4 mask in ground arith
x_switched r mask RegisterLength.bit16 =
    let e = masked-eq-testbit 5 mask in let f = masked-eq-testbit 4 mask in ground arith

y_switched :
    (r : Registers) (mask : ℕ) (len : RegisterLength)
    → (switch_by_flags r mask len).y.len ≡ switched (testbit 4 mask) len r.y.len
unfolding switch_by_flags switch_reg_len switch_mem_len
y_switched r mask RegisterLength.bit8 =
    let e = masked-eq-testbit 5 mask in let f = masked-eq-testbit 4 mask in ground arith
y_switched r mask RegisterLength.bit16 =
    let e = masked-eq-testbit 5 mask in let f = masked-eq-testbit 4 mask in ground arith

switched-set :
    (b f : Bool) {old : RegisterLength}
    → old ≡ length_of f
    → switched b RegisterLength.bit8 old ≡ length_of (f || b)
switched-set true true e = refl
switched-set true false e = refl
switched-set false true e = e
switched-set false false e = e

switched-reset :
    (b f : Bool) {old : RegisterLength}
    → old ≡ length_of f
    → switched b RegisterLength.bit16 old ≡ length_of (f && not b)
switched-reset true true e = refl
switched-reset true false e = refl
switched-reset false true e = e
switched-reset false false e = e

-- SEP and REP, and every other setting or resetting of flags by a mask of a byte, keep the widths
-- coherent with the flags.
pub status_flag_set-reset-Coherent :
    {r : Registers} (mask : ℕ)
    → mask < 256
    → Coherent r
    → Coherent (status_flag_set r mask) × Coherent (status_flag_reset r mask)
unfolding status_flag_set status_flag_reset
status_flag_set-reset-Coherent {r} mask h c = (
  record {
    accumulator =
        accumulator_switched (record r { status = bit_or r.status mask }) mask RegisterLength.bit8
        ∙ switched-set (testbit 5 mask) (flag 5 r.status) c.accumulator
        ∙ ap length_of (sym (flag-set 5 r mask));
    x =
        x_switched (record r { status = bit_or r.status mask }) mask RegisterLength.bit8
        ∙ switched-set (testbit 4 mask) (flag 4 r.status) c.x
        ∙ ap length_of (sym (flag-set 4 r mask));
    y =
        y_switched (record r { status = bit_or r.status mask }) mask RegisterLength.bit8
        ∙ switched-set (testbit 4 mask) (flag 4 r.status) c.y
        ∙ ap length_of (sym (flag-set 4 r mask));
  },
  record {
    accumulator =
        accumulator_switched (record r { status = bit_and r.status (255 - mask) }) mask
          RegisterLength.bit16
        ∙ switched-reset (testbit 5 mask) (flag 5 r.status) c.accumulator
        ∙ ap length_of (sym (flag-reset 5 r mask (omega arith) h));
    x =
        x_switched (record r { status = bit_and r.status (255 - mask) }) mask RegisterLength.bit16
        ∙ switched-reset (testbit 4 mask) (flag 4 r.status) c.x
        ∙ ap length_of (sym (flag-reset 4 r mask (omega arith) h));
    y =
        y_switched (record r { status = bit_and r.status (255 - mask) }) mask RegisterLength.bit16
        ∙ switched-reset (testbit 4 mask) (flag 4 r.status) c.y
        ∙ ap length_of (sym (flag-reset 4 r mask (omega arith) h));
  },
)

length_of-or : (b : Bool) → length_of (b || true) ≡ RegisterLength.bit8
length_of-or true = refl
length_of-or false = refl

-- Leaving the emulation mode makes the widths coherent with the flags, whatever they were.
pub emulation_reset-Coherent : (r : Registers) → Coherent (emulation_reset r)
unfolding emulation_reset flag testbit
emulation_reset-Coherent r = record {
  accumulator = sym (ap length_of (testbit-or 5 r.status 49) ∙ length_of-or (testbit 5 r.status));
  x = sym (ap length_of (testbit-or 4 r.status 49) ∙ length_of-or (testbit 4 r.status));
  y = sym (ap length_of (testbit-or 4 r.status 49) ∙ length_of-or (testbit 4 r.status));
}

switched_wide :
    (b : Bool) {old : RegisterLength}
    → switched b RegisterLength.bit8 old ≡ length_of b
    → (b ≡ true) ⊎ (old ≡ RegisterLength.bit16)
switched_wide true e = inl refl
switched_wide false e = inr e

wide_switched :
    (b : Bool) {old : RegisterLength}
    → (b ≡ true) ⊎ (old ≡ RegisterLength.bit16)
    → switched b RegisterLength.bit8 old ≡ length_of b
wide_switched true e = refl
wide_switched false (inl e) = ground arith
wide_switched false (inr e) = e

-- PLP and RTI put a status in force, which keeps the widths coherent exactly when each register
-- whose flag is clear in it already has 16 bits.
pub status_flag_force-Coherent :
    (r : Registers) (flags : ℕ)
    → Coherent (status_flag_force r flags)
      ↔ ((flag 5 flags ≡ true) ⊎ (r.accumulator.len ≡ RegisterLength.bit16))
        × ((flag 4 flags ≡ true) ⊎ (r.x.len ≡ RegisterLength.bit16))
        × ((flag 4 flags ≡ true) ⊎ (r.y.len ≡ RegisterLength.bit16))
unfolding status_flag_force flag
status_flag_force-Coherent r flags =
    let r' = record r { status = flags } in
    let s = status-switch_by_flags r' flags RegisterLength.bit8 in
    let acc = accumulator_switched r' flags RegisterLength.bit8 in
    let ix = x_switched r' flags RegisterLength.bit8 in
    let iy = y_switched r' flags RegisterLength.bit8 in
    (
      λ c. (
        switched_wide (testbit 5 flags)
            (sym acc ∙ c.accumulator ∙ ap (λ k. length_of (testbit 5 k)) s),
        switched_wide (testbit 4 flags) (sym ix ∙ c.x ∙ ap (λ k. length_of (testbit 4 k)) s),
        switched_wide (testbit 4 flags) (sym iy ∙ c.y ∙ ap (λ k. length_of (testbit 4 k)) s),
      ),
      λ (wa, wx, wy). record {
        accumulator =
            acc ∙ wide_switched (testbit 5 flags) wa ∙ ap (λ k. length_of (testbit 5 k)) (sym s);
        x = ix ∙ wide_switched (testbit 4 flags) wx ∙ ap (λ k. length_of (testbit 4 k)) (sym s);
        y = iy ∙ wide_switched (testbit 4 flags) wy ∙ ap (λ k. length_of (testbit 4 k)) (sym s);
      },
    )
