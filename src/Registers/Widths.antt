-- ===== src/Registers/Widths.antt =====
-- The registers after a write, with the flags as `put`.
use snesemu.Base.{ℕ, ap, ◌<◌, ◌≡◌, ◌∙◌, u8, leb, ◌==◌, arith}
use snesemu.Registers.{
  Registers, RegisterLength, set_value8_low, set_value16, by_length, accumulator_set,
}
use snesemu.Registers.Flags.{put_zn, update8_status, update16_status}

by_length-bit8 {ℓ} :
    {A : Type ℓ} (len : RegisterLength) (a b : A)
    → len ≡ RegisterLength.bit8
    → by_length len a b ≡ a
by_length-bit8 len a b e = rw e

by_length-bit16 {ℓ} :
    {A : Type ℓ} (len : RegisterLength) (a b : A)
    → len ≡ RegisterLength.bit16
    → by_length len a b ≡ b
by_length-bit16 len a b e = rw e

pub accumulator_set8 :
    (r : Registers) (value : ℕ)
    → r.accumulator.len ≡ RegisterLength.bit8
    → accumulator_set r value ≡ record r {
      accumulator = set_value8_low r.accumulator value;
      status = put_zn (u8 value == 0) (leb 0x80 (u8 value)) r.status;
    }
unfolding accumulator_set
accumulator_set8 r value e = by_length-bit8 r.accumulator.len _ _ e ∙ update8_status _ (u8 value)

pub accumulator_set_wide :
    (r : Registers) (value : ℕ)
    → r.accumulator.len ≡ RegisterLength.bit16
    → accumulator_set r value ≡ record r {
      accumulator = set_value16 r.accumulator value;
      status = put_zn (value == 0) (leb 0x8000 value) r.status;
    }
unfolding accumulator_set
accumulator_set_wide r value e = by_length-bit16 r.accumulator.len _ _ e ∙ update16_status _ value

pub accumulator_set_byte :
    (r : Registers) (value : ℕ)
    → r.accumulator.len ≡ RegisterLength.bit8
    → value < 256
    → accumulator_set r value ≡ record r {
      accumulator = set_value8_low r.accumulator value;
      status = put_zn (value == 0) (leb 0x80 value) r.status;
    }
accumulator_set_byte r value e h =
    accumulator_set8 r value e
    ∙ ap
        (λ b. record r {
          accumulator = set_value8_low r.accumulator value;
          status = put_zn (b == 0) (leb 0x80 b) r.status;
        })
        (omega arith)
