-- ===== src/Apu/Port/Channels.antt =====
-- The two directions of the port.
use snesemu.Base.{ℕ, ◌≡◌, ◌≢◌, u8, ok, arith}
use snesemu.Ram
use snesemu.Apu.Port.{ApuPort, read, write, internal_read, internal_write}

-- A byte that the processor writes reaches the sound unit at its address, and changes no other byte
-- the sound unit reads and none that the processor reads.
pub internal_read-write :
    (port : ApuPort) (a b c v : ℕ) {port' : ApuPort}
    → a ≢ b
    → write port a v ≡ ok port'
    → (internal_read port' a ≡ ok (u8 v))
      × (internal_read port' b ≡ internal_read port b)
      × (read port' c ≡ read port c)
unfolding read write internal_read internal_write Ram.read Ram.write
internal_read-write port a b c v ne h = (ground arith, ground arith, ground arith)

-- A byte that the sound unit writes reaches the processor at its address, and changes no other byte
-- the processor reads and none that the sound unit reads.
pub read-internal_write :
    (port : ApuPort) (a b c v : ℕ) {port' : ApuPort}
    → a ≢ b
    → internal_write port a v ≡ ok port'
    → (read port' a ≡ ok (u8 v))
      × (read port' b ≡ read port b)
      × (internal_read port' c ≡ internal_read port c)
unfolding read write internal_read internal_write Ram.read Ram.write
read-internal_write port a b c v ne h = (ground arith, ground arith, ground arith)
