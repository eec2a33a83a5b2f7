-- ===== src/Ram/Laws.antt =====
-- What a read returns after a write, and when the bounds are asserted.
use snesemu.Base.{ℕ, ◌≤◌, ◌<◌, ◌≡◌, ◌≢◌, u8, ok, err, assert_failed, arith}
use snesemu.Ram.{Ram, read, write, update}

module _ (ram : Ram) (a v : ℕ) where
  pub read-write_self : {r : Ram} → write ram a v ≡ ok r → read r a ≡ ok (u8 v)
  unfolding read write
  read-write_self h = ground arith

  pub read-write_ne : (b : ℕ) {r : Ram} → a ≢ b → write ram a v ≡ ok r → read r b ≡ read ram b
  unfolding read write
  read-write_ne b ne h = ground arith

  pub size-write : {r : Ram} → write ram a v ≡ ok r → r.size ≡ ram.size
  unfolding write
  size-write h = ground arith

  pub write_in_range :
      a < ram.size → write ram a v ≡ ok (record ram { cells = update ram.cells a (u8 v) })
  unfolding write
  write_in_range h = ground arith

  pub write_out_of_range : ram.size ≤ a → write ram a v ≡ err assert_failed
  unfolding write
  write_out_of_range h = ground arith

pub read_in_range : (ram : Ram) (a : ℕ) → a < ram.size → read ram a ≡ ok (u8 (ram.cells a))
unfolding read
read_in_range ram a h = ground arith

pub read_out_of_range : (ram : Ram) (a : ℕ) → ram.size ≤ a → read ram a ≡ err assert_failed
unfolding read
read_out_of_range ram a h = ground arith
