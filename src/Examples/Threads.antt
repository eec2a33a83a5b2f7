-- ===== src/Examples/Threads.antt =====
-- Runs of the threads of the sound unit and of the processor.
use snesemu.Base.{suc, ◌≡◌, refl, List, [], ◌∷◌, ok, arith, u8, u16, ◌/◌, ◌%◌, ◌==◌, if◌then◌else◌}
use snesemu.Examples.Machines.{port, counting, bus}
use snesemu.Apu.{
  Apu, ApuState, DataType, get_type, get_next_data, is_same_data, classify, handle, handle_type,
  reply, next_cookie,
}
use snesemu.Apu.Port
use snesemu.Ram
use snesemu.Ram.{update}
use snesemu.Apu.Thread
use snesemu.Apu.Thread.{Phase, Step, Reach, power_down}
use snesemu.Apu.Thread.Invariant.{IsFit, IsSound, Reach-IsSound}
use snesemu.Apu.Thread.Stop
use snesemu.Apu.Thread.Stop.{after_stop, stop_phase, stop_lost}
use snesemu.Apu.Link.{Link, exchange_all}
use snesemu.Apu.Link.Commands.{Command, message, encode, echoes, load}
use snesemu.Apu.Link.Upload.{exchange_all-encode}

-- A unit that has been initialised and waits for a first message.
abbrev apu : Apu
apu = record {
  port = port;
  state = ApuState.not_init;
  ram = counting 0x10000;
  last_data = message 0 1 2 3;
  current_transfert_addr = 0;
  transfered = 0;
  total_transfered = 0;
}

apu-IsFit : IsFit apu
apu-IsFit = record { inputs = refl; outputs = refl; memory = refl; address = omega arith }

abbrev polling : Thread.Thread
polling = record { phase = Phase.polling; apu = apu }

Reach-IsSound_example : IsSound (power_down polling)
Reach-IsSound_example =
    Reach-IsSound (Reach.next Reach.here (Step.powered_down polling))
      (record { fit = apu-IsFit; phase = tt })

-- The same, where the last message began with 7, so that the ports hold a new byte.
abbrev counted : Apu
counted = record apu { last_data = message 7 0 0 0 }

abbrev stored : Apu
stored = record counted {
  state = ApuState.stopped;
  ram = record { size = 0x10000; cells = update (λ i. i % 256) 0 1 };
  last_data = message 0 1 2 3;
  current_transfert_addr = 1;
  transfered = 1;
}

abbrev done : Thread.Thread
done = record { phase = Phase.finished; apu = stored }

stop_phase_example : done.phase ≡ after_stop DataType.transfer_data
unfolding get_next_data Port.internal_read Ram.read get_type is_same_data classify Thread.run
    Thread.run_phase Thread.after_handle Thread.next_phase handle handle_type reply Ram.write
    power_down
stop_phase_example =
    let taken = record counted { state = ApuState.stopped; last_data = message 0 1 2 3 } in
    stop_phase counted {d = message 0 1 2 3} {t = DataType.transfer_data} {apu1 = taken} {u = done}
      refl refl refl

-- The ports ask for the end of the transfers.
abbrev ending : Apu
ending = record apu {
  port = record port { input_port = record { size = 4; cells = λ i. if i == 0 then 12 else 0 } };
  last_data = message 8 0 0 0;
}

ending-IsFit : IsFit ending
ending-IsFit = record { inputs = refl; outputs = refl; memory = refl; address = omega arith }

stop_lost_example :
    (u : Thread.Thread) × (Stop.rounds
        (suc 3)
        (power_down (record { phase = Phase.polling; apu = ending }))
      ≡ ok u)
    × (u.phase ≡ Phase.waiting)
    × (u.apu.state ≡ ApuState.executing)
unfolding next_cookie
stop_lost_example = stop_lost ending 3 ending-IsFit (omega arith) (omega arith) refl refl

-- Two bytes to 0x0200 and one to 0xffff.
abbrev program : List Command
program = Command.byte 0x12 ∷ Command.byte 0x34 ∷ Command.jump 0xffff ∷ Command.byte 0x56 ∷ []

abbrev link : Link
link = record { bus = bus; thread = polling }

exchange_all-encode_example :
    (l' : Link) × (exchange_all
        (message 0xcc 1 (u8 0x200) (u8 (0x200 / 256)) ∷ encode 0xcc 0 program)
        link
      ≡ ok (0xcc ∷ echoes 0xcc 0 program, l'))
    × (l'.thread.phase ≡ Phase.waiting)
    × (l'.thread.apu.state ≡ ApuState.executing)
    × (l'.thread.apu.ram.cells ≡ load (λ i. i % 256) (u16 0x200) program)
exchange_all-encode_example =
    exchange_all-encode program link 0x200 refl refl apu-IsFit (omega arith)

three_bytes : echoes 0xcc 0 program ≡ 0 ∷ 1 ∷ 5 ∷ 0 ∷ 0 ∷ []
unfolding echoes next_cookie
three_bytes = refl
