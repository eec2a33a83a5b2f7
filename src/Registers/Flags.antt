-- ===== src/Registers/Flags.antt =====
-- The flags as bits: what each writer of the status does to each of them.
use snesemu.Base.{
  ℕ, ◌-◌, ◌<◌, ◌≡◌, refl, Bool, true, false, not, ◌&&◌, ◌||◌, bit_and, bit_or, leb, ◌==◌,
  if◌then◌else◌, arith,
}
use mathlib.Core.Bool.{or_comm, and_comm}
use snesemu.Base.Bits.{testbit, testbit-or, testbit-and, testbit-complement, masked-eq-testbit}
use snesemu.Registers.{
  Registers, RegisterLength, status_flag_set, status_flag_reset, status_flag_isset,
  status_flag_assign, update8, update16, switch_by_flags,
}
use snesemu.Registers.StatusFlag

-- Bit `k` of a status.
unfoldable pub flag : ℕ → ℕ → Bool
flag k s = testbit k s

-- The status after `if(b) set else reset`.
pub put : ℕ → Bool → ℕ → ℕ
put mask true s = bit_or s mask
put mask false s = bit_and s (255 - mask)

pub assign_c :
    (r : Registers) (b : Bool)
    → status_flag_assign r StatusFlag.c b ≡ record r { status = put 1 b r.status }
unfolding status_flag_assign put status_flag_set status_flag_reset switch_by_flags
assign_c r true = refl
assign_c r false = refl

pub assign_z :
    (r : Registers) (b : Bool)
    → status_flag_assign r StatusFlag.z b ≡ record r { status = put 2 b r.status }
unfolding status_flag_assign put status_flag_set status_flag_reset switch_by_flags
assign_z r true = refl
assign_z r false = refl

pub assign_v :
    (r : Registers) (b : Bool)
    → status_flag_assign r StatusFlag.v b ≡ record r { status = put 64 b r.status }
unfolding status_flag_assign put status_flag_set status_flag_reset switch_by_flags
assign_v r true = refl
assign_v r false = refl

pub assign_n :
    (r : Registers) (b : Bool)
    → status_flag_assign r StatusFlag.n b ≡ record r { status = put 128 b r.status }
unfolding status_flag_assign put status_flag_set status_flag_reset switch_by_flags
assign_n r true = refl
assign_n r false = refl

pub ruleset assign_laws = (assign_c, assign_z, assign_v, assign_n)

-- The status after an update of N and Z.
abbrev pub put_zn : Bool → Bool → ℕ → ℕ
put_zn z n s = put 128 n (put 2 z s)

pub update8_status :
    (r : Registers) (value : ℕ)
    → update8 r value ≡ record r { status = put_zn (value == 0) (leb 0x80 value) r.status }
unfolding update8
update8_status r value = simp assign_laws

pub update16_status :
    (r : Registers) (value : ℕ)
    → update16 r value ≡ record r { status = put_zn (value == 0) (leb 0x8000 value) r.status }
unfolding update16
update16_status r value = simp assign_laws

-- The masks are numerals where this is used, so the tests of their bits compute.
pub flag-put :
    (k mask : ℕ) (b : Bool) (s : ℕ)
    → flag k (put mask b s)
      ≡ (if b then testbit k mask || flag k s else testbit k (255 - mask) && flag k s)
unfolding flag put
flag-put k mask true s = rw (testbit-or k s mask) (or_comm (testbit k s) (testbit k mask))
flag-put k mask false s =
    rw (testbit-and k s (255 - mask)) (and_comm (testbit k s) (testbit k (255 - mask)))

pub isset_c : (r : Registers) → status_flag_isset r StatusFlag.c ≡ flag 0 r.status
unfolding status_flag_isset flag
isset_c r = masked-eq-testbit 0 r.status

pub isset_z : (r : Registers) → status_flag_isset r StatusFlag.z ≡ flag 1 r.status
unfolding status_flag_isset flag
isset_z r = masked-eq-testbit 1 r.status

pub isset_d : (r : Registers) → status_flag_isset r StatusFlag.d ≡ flag 3 r.status
unfolding status_flag_isset flag
isset_d r = masked-eq-testbit 3 r.status

pub isset_x : (r : Registers) → status_flag_isset r StatusFlag.x ≡ flag 4 r.status
unfolding status_flag_isset flag
isset_x r = masked-eq-testbit 4 r.status

pub isset_m : (r : Registers) → status_flag_isset r StatusFlag.m ≡ flag 5 r.status
unfolding status_flag_isset flag
isset_m r = masked-eq-testbit 5 r.status

pub isset_v : (r : Registers) → status_flag_isset r StatusFlag.v ≡ flag 6 r.status
unfolding status_flag_isset flag
isset_v r = masked-eq-testbit 6 r.status

pub isset_n : (r : Registers) → status_flag_isset r StatusFlag.n ≡ flag 7 r.status
unfolding status_flag_isset flag
isset_n r = masked-eq-testbit 7 r.status

pub ruleset isset_laws = (isset_c, isset_z, isset_d, isset_x, isset_m, isset_v, isset_n)

pub status-switch_by_flags :
    (r : Registers) (mask : ℕ) (len : RegisterLength)
    → (switch_by_flags r mask len).status ≡ r.status
unfolding switch_by_flags
status-switch_by_flags r mask RegisterLength.bit8 = ground arith
status-switch_by_flags r mask RegisterLength.bit16 = ground arith

-- Setting and resetting flags by any mask: a bit of the mask decides its flag.
pub flag-set :
    (k : ℕ) (r : Registers) (mask : ℕ)
    → flag k (status_flag_set r mask).status ≡ (flag k r.status || testbit k mask)
unfolding flag status_flag_set
flag-set k r mask = rw status-switch_by_flags (testbit-or k r.status mask)

pub flag-reset :
    (k : ℕ) (r : Registers) (mask : ℕ)
    → k < 8
    → mask < 256
    → flag k (status_flag_reset r mask).status ≡ (flag k r.status && not (testbit k mask))
unfolding flag status_flag_reset
flag-reset k r mask hk hm =
    rw status-switch_by_flags
      (rw (testbit-and k r.status (255 - mask), testbit-complement 8 k mask hk hm))

-- The flags of a status that an addition writes, N and Z over V over C.
module _ (z n v c : Bool) (s : ℕ) where
  abbrev pub put_nvzc : ℕ
  put_nvzc = put_zn z n (put 64 v (put 1 c s))

  pub flag-put_nvzc :
      (flag 0 put_nvzc ≡ c) × (flag 1 put_nvzc ≡ z) × (flag 6 put_nvzc ≡ v) × (flag 7 put_nvzc ≡ n)
  unfolding testbit
  flag-put_nvzc = (
    simp flag-put (ground arith),
    simp flag-put (ground arith),
    simp flag-put (ground arith),
    simp flag-put (ground arith),
  )
