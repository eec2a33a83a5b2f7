-- ===== src/Apu.antt =====
-- src/snes_apu.c: the sound unit, which receives a program over its ports. `printf` is defined away
-- in that file. The counters `transfered` and `total_transfered` are static variables and stand with
-- the state; they are an `int` that no block comes near to filling.
pub mod Port
pub mod Messages
pub mod Handle
pub mod Thread
pub mod Link
use snesemu.Base.{
  ℕ, ◌+◌, ◌*◌, ◌%◌, ◌^◌, Bool, Option, none, some, ◌&&◌, ◌||◌, u8, u16, ltb, leb, ◌==◌, ◌<<<◌,
  if◌then◌else◌, Result, ok, err, and_then, assert_failed,
}
use snesemu.Ram
use snesemu.Ram.{Ram}
use snesemu.Apu.Port
use snesemu.Apu.Port.{ApuPort}

pub data DataType : Type 0 where
  transfer_init transfer_new transfer_end transfer_data transfer_invalid : DataType
  transfer_no_change : DataType

pub data ApuState : Type 0 where
  stopped not_init inited transfering executing : ApuState

-- The value of the enumerator, by which the states are compared.
abbrev pub rank : ApuState → ℕ
rank ApuState.stopped = 0
rank ApuState.not_init = 1
rank ApuState.inited = 2
rank ApuState.transfering = 3
rank ApuState.executing = 4

pub record TransferData : Type 0 where
  pub port0 : ℕ
  pub port1 : ℕ
  pub port2 : ℕ
  pub port3 : ℕ

pub record Apu : Type 0 where
  pub port : ApuPort
  pub state : ApuState
  pub ram : Ram
  pub last_data : TransferData
  pub current_transfert_addr : ℕ
  pub transfered : ℕ
  pub total_transfered : ℕ

-- The fields that `snes_apu_init` leaves as they are.
pub record Garbage : Type 0 where
  pub last_data : TransferData
  pub current_transfert_addr : ℕ
  pub transfered : ℕ
  pub total_transfered : ℕ

-- `memcmp` of the four bytes, or the first byte alone.
unfoldable pub is_same_data : Apu → TransferData → Bool
is_same_data apu d =
    (d.port0 == apu.last_data.port0
      && d.port1 == apu.last_data.port1
      && d.port2 == apu.last_data.port2
      && d.port3 == apu.last_data.port3)
    || d.port0 == apu.last_data.port0

-- The value of port 0 that asks for a new block after `last`.
unfoldable pub next_cookie : ℕ → ℕ
next_cookie last = let temp = u8 (last + 4) in if temp == 0 then 4 else temp

-- The tests of `snes_apu_transfer_get_type` on data that is not the same.
unfoldable pub classify : ApuState → ℕ → TransferData → Result DataType
unfolding next_cookie
classify state last d =
    if d.port0 == 0xcc && ltb (rank state) (rank ApuState.inited)
    then ok DataType.transfer_init
    else if d.port0 == 0
    then ok DataType.transfer_data
    else if d.port0 == last + 1
    then ok DataType.transfer_data
    else if d.port0 == next_cookie last
    then ok (if d.port1 == 0 then DataType.transfer_end else DataType.transfer_new)
    else err assert_failed

unfoldable pub get_type : Apu → TransferData → Result (DataType × Apu)
unfolding is_same_data classify
get_type apu d =
    if is_same_data apu d
    then ok (DataType.transfer_no_change, apu)
    else (and_then (classify apu.state apu.last_data.port0 d)
        λ t. ok (t, record apu { last_data = d }))

unfoldable pub get_next_data : ApuPort → Result TransferData
get_next_data port = and_then (Port.internal_read port 0) λ p0.
    and_then (Port.internal_read port 1) λ p1. and_then (Port.internal_read port 2) λ p2.
      and_then (Port.internal_read port 3)
        λ p3. ok (record { port0 = p0; port1 = p1; port2 = p2; port3 = p3 })

-- The guard of `snes_apu_set_state` only spares a message.
unfoldable pub set_state : Apu → ApuState → Apu
set_state apu state = record apu { state = state }

unfoldable pub get_address : ℕ → ℕ → ℕ
get_address low high = u16 (u16 (high <<< 8) + low)

-- How `snes_apu_transfer_handle` goes on: it has returned 0, or it is in the loop that waits for the
-- state to be STOPPED.
pub data Outcome : Type 0 where
  returned waiting : Outcome

-- The end of `snes_apu_transfer_handle`: the echo of port 0.
unfoldable pub reply : TransferData → Apu → Result (Outcome × Apu)
reply d apu =
    if leb (rank ApuState.inited) (rank apu.state)
    then (and_then (Port.internal_write apu.port 0 d.port0)
        λ port. ok (Outcome.returned, record apu { port = port }))
    else ok (Outcome.returned, apu)

-- The `switch` of `snes_apu_transfer_handle`. `total_transfered =+ transfered` is an assignment.
unfoldable pub handle_type : DataType → TransferData → Apu → Result (Outcome × Apu)
unfolding reply set_state get_address
handle_type DataType.transfer_init d apu = reply d (record (set_state apu ApuState.inited) {
  current_transfert_addr = get_address d.port2 d.port3;
})
handle_type DataType.transfer_data d apu =
    and_then (Ram.write apu.ram apu.current_transfert_addr d.port1) λ ram. reply d (record apu {
      ram = ram;
      current_transfert_addr = u16 (apu.current_transfert_addr + 1);
      transfered = apu.transfered + 1;
    })
handle_type DataType.transfer_new d apu = reply d (record apu {
  total_transfered = apu.transfered;
  transfered = 0;
  current_transfert_addr = get_address d.port2 d.port3;
})
handle_type DataType.transfer_invalid d apu = err assert_failed
handle_type DataType.transfer_end d apu = ok (
  Outcome.waiting,
  record (set_state apu ApuState.executing) { total_transfered = apu.transfered; transfered = 0 },
)
handle_type DataType.transfer_no_change d apu = ok (Outcome.returned, apu)

unfoldable pub handle : Apu → Result (Outcome × Apu)
handle apu =
    and_then (get_next_data apu.port)
      λ d. and_then (get_type apu d) λ (t, apu'). handle_type t d apu'

-- `snes_apu_init`: what `malloc` gives for the unit, its port and its memory, and what `raw` holds of
-- what is not set, the static counters included.
unfoldable pub init : Bool → Option ApuPort → Option Ram → Garbage → Option Apu
init Bool.false port ram raw = none
init Bool.true none ram raw = none
init Bool.true (some port) none raw = none
init Bool.true (some port) (some ram) raw = some (record {
  port = port;
  state = ApuState.stopped;
  ram = ram;
  last_data = raw.last_data;
  current_transfert_addr = raw.current_transfert_addr;
  transfered = raw.transfered;
  total_transfered = raw.total_transfered;
})
