-- ===== src/Apu/Handle.antt =====
-- One call of `snes_apu_transfer_handle` on each kind of message.
use snesemu.Base.{
  ◌+◌, ◌≡◌, refl, ap, ◌∙◌, ◌<◌, ◌≤◌, ◌≢◌, ◌⊎◌, inl, inr, u8, u16, ok, arith, ◌==◌, if◌then◌else◌,
}
use snesemu.Ram
use snesemu.Ram.{update}
use snesemu.Ram.Laws.{write_in_range}
use snesemu.Apu.Port
use snesemu.Apu.Port.{ApuPort}
use snesemu.Apu.{
  Apu, ApuState, Outcome, DataType, TransferData, rank, handle, handle_type, reply, get_type,
  next_cookie, get_address, set_state,
}
use snesemu.Apu.Messages.{
  inputs, noted, get_next_data_lem, get_type-same, get_type-init, get_type-first,
  get_type-following, get_type-cookie,
}

-- The unit after it has taken the end of the transfers.
abbrev pub ended : Apu → Apu
ended apu = record apu {
  state = ApuState.executing;
  last_data = inputs apu.port;
  total_transfered = apu.transfered;
  transfered = 0;
}

pub handle-end :
    (apu : Apu)
    → apu.port.input_port.size ≡ 4
    → apu.last_data.port0 < 256
    → (2 ≤ rank apu.state) ⊎ ((inputs apu.port).port0 ≢ 0xcc)
    → (inputs apu.port).port0 ≡ next_cookie apu.last_data.port0
    → (inputs apu.port).port1 ≡ 0
    → handle apu ≡ ok (Outcome.waiting, ended apu)
unfolding handle handle_type set_state
handle-end apu size b s cookie last = rw (get_next_data_lem apu.port size) (rw typed refl)
  where
    typed : get_type apu (inputs apu.port) ≡ ok (DataType.transfer_end, noted apu (inputs apu.port))
    typed =
        get_type-cookie apu (inputs apu.port) cookie b s
        ∙ ap
            (λ k. ok (
              if k == 0 then DataType.transfer_end else DataType.transfer_new,
              noted apu (inputs apu.port),
            ))
            last

-- Polling again without a new message changes nothing.
pub handle-same :
    (apu : Apu)
    → apu.port.input_port.size ≡ 4
    → (inputs apu.port).port0 ≡ apu.last_data.port0
    → handle apu ≡ ok (Outcome.returned, apu)
unfolding handle handle_type
handle-same apu size same =
    rw (get_next_data_lem apu.port size) (rw (get_type-same apu (inputs apu.port) same) refl)

-- The port with the echo of a message.
abbrev pub echoed : ApuPort → ApuPort
echoed port = record port {
  output_port = record port.output_port {
    cells = update port.output_port.cells 0 (u8 (inputs port).port0);
  };
}

reply-echoed :
    (apu : Apu) (d : TransferData)
    → 2 ≤ rank apu.state
    → apu.port.output_port.size ≡ 4
    → d.port0 ≡ (inputs apu.port).port0
    → reply d apu ≡ ok (Outcome.returned, record apu { port = echoed apu.port })
unfolding reply Port.internal_write Ram.write
reply-echoed apu d s size e = ground arith

-- The unit after the first address, after a byte, and after a later address.
abbrev pub begun : Apu → Apu
begun apu = record apu {
  port = echoed apu.port;
  state = ApuState.inited;
  last_data = inputs apu.port;
  current_transfert_addr = get_address (inputs apu.port).port2 (inputs apu.port).port3;
}

abbrev pub stored : Apu → Apu
stored apu = record apu {
  port = echoed apu.port;
  ram = record apu.ram {
    cells = update apu.ram.cells apu.current_transfert_addr (u8 (inputs apu.port).port1);
  };
  last_data = inputs apu.port;
  current_transfert_addr = u16 (apu.current_transfert_addr + 1);
  transfered = apu.transfered + 1;
}

abbrev pub moved : Apu → Apu
moved apu = record apu {
  port = echoed apu.port;
  last_data = inputs apu.port;
  current_transfert_addr = get_address (inputs apu.port).port2 (inputs apu.port).port3;
  total_transfered = apu.transfered;
  transfered = 0;
}

module _ (apu : Apu) (input : apu.port.input_port.size ≡ 4)
    (output : apu.port.output_port.size ≡ 4) where
  pub handle-init :
      (inputs apu.port).port0 ≡ 0xcc
      → apu.last_data.port0 ≢ 0xcc
      → rank apu.state < 2
      → handle apu ≡ ok (Outcome.returned, begun apu)
  unfolding handle handle_type set_state
  handle-init e ne s = rw (get_next_data_lem apu.port input) (
      rw (get_type-init apu (inputs apu.port) e ne s)
        (reply-echoed _ (inputs apu.port) (omega arith) output refl))

  handle-typed_data :
      get_type apu (inputs apu.port) ≡ ok (DataType.transfer_data, noted apu (inputs apu.port))
      → 2 ≤ rank apu.state
      → apu.current_transfert_addr < apu.ram.size
      → handle apu ≡ ok (Outcome.returned, stored apu)
  unfolding handle handle_type
  handle-typed_data typed s a = rw (get_next_data_lem apu.port input) (
      rw typed (
        rw (write_in_range apu.ram apu.current_transfert_addr (inputs apu.port).port1 a)
          (reply-echoed _ (inputs apu.port) s output refl)))

  -- A byte: the message counts from 0, or on from the one before.
  pub handle-data :
      (((inputs apu.port).port0 ≡ 0) × (apu.last_data.port0 ≢ 0))
        ⊎ ((inputs apu.port).port0 ≡ apu.last_data.port0 + 1)
      → 2 ≤ rank apu.state
      → apu.current_transfert_addr < apu.ram.size
      → handle apu ≡ ok (Outcome.returned, stored apu)
  handle-data (inl (e, ne)) s a = handle-typed_data (get_type-first apu (inputs apu.port) e ne) s a
  handle-data (inr e) s a = handle-typed_data (get_type-following apu (inputs apu.port) e s) s a

  pub handle-new :
      (inputs apu.port).port0 ≡ next_cookie apu.last_data.port0
      → apu.last_data.port0 < 256
      → (inputs apu.port).port1 ≡ 1
      → 2 ≤ rank apu.state
      → handle apu ≡ ok (Outcome.returned, moved apu)
  unfolding handle handle_type
  handle-new cookie b more s =
      rw (get_next_data_lem apu.port input)
        (rw typed (reply-echoed _ (inputs apu.port) s output refl))
    where
      typed :
          get_type apu (inputs apu.port) ≡ ok (DataType.transfer_new, noted apu (inputs apu.port))
      typed =
          get_type-cookie apu (inputs apu.port) cookie b (inl s)
          ∙ ap
              (λ k. ok (
                if k == 0 then DataType.transfer_end else DataType.transfer_new,
                noted apu (inputs apu.port),
              ))
              more
