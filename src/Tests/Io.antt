-- ===== src/Tests/Io.antt =====
-- The theorems on sending and reading at concrete states.
use transport_cpp.Prelude.{ℕ, ◌+◌, ◌≡◌, refl, true, false, some, List, [], ◌∷◌, ◌++◌, arith, length}
use transport_cpp.Types.{Bytes, nok, IoDataChoice, shared, plain, unique}
use transport_cpp.Engine
use transport_cpp.Os.{Os, clock}
use transport_cpp.World.{World}
use transport_cpp.Registry.{register_device}
use transport_cpp.Devices.{register_new_handle}
use transport_cpp.IoDevice.{
  Virtual, perform_sync_send, device_is_ready, set_io, io_data_choice_valid, data_ptr,
}
use transport_cpp.IoDevice.Write.{rounds, rounds-drain, contents, put_all}
use transport_cpp.IoDevice.Receive.{ready_read, sync_receive}
use transport_cpp.IoDevice.Receive
use transport_cpp.IoDevice.Reading.{ready_read-delivers}
use transport_cpp.Int.{pos}
use transport_cpp.IoDevice.Timed.{TimedOut, sync_receive_timed-TimedOut}
use transport_cpp.Tests.{boot, quiet, sink, feed, opened, loaded}

program : Unit {0}
unfolding opened loaded register_device register_new_handle Engine.register_new_handle
    Engine.initial io_data_choice_valid device_is_ready data_ptr perform_sync_send
program = tt

-- An object of `IODevice` itself: what it overrides of `Device` only logs.
abbrev plain_device : {S : Type 0} → Os S → Virtual S
plain_device os = record {
  device_is_ready = device_is_ready;
  ready_error = λ d w. w;
  ready_hangup = λ d w. w;
  ready_peer_disconnect = λ d w. w;
  perform_sync_send = λ d m w. (nok, w);
}

abbrev hello : IoDataChoice
hello = plain (104 ∷ 105 ∷ [])

-- Three entries, one of each kind of pointer.
abbrev entries : List IoDataChoice
entries = hello ∷ unique (some (1 ∷ [])) ∷ shared (some 40) ∷ []

abbrev sending : Virtual (List Bytes)
sending = record (plain_device sink) {
  perform_sync_send = perform_sync_send sink (plain_device sink);
}

abbrev queued : World (List Bytes)
queued = set_io 3 (record { has_callback = false; queue = entries }) (loaded [])

rounds-drain_example :
    let w' = rounds sending 3 3 queued in
    ((w'.io 3).queue ≡ [])
    × (w'.sys ≡ put_all (λ b s. s ++ b ∷ []) (contents entries queued) queued.sys)
    × (w'.fault ≡ queued.fault)
unfolding program
rounds-drain_example =
    rounds-drain sink sending 3 7 (λ b s. s ++ b ∷ [])
      (record { polls = λ s. refl; writes = λ b s. refl }) (λ m w. refl) entries queued refl refl
      (refl, (refl, (refl, tt)))

-- A device with a callback.
abbrev listening : World ℕ
listening = set_io 3 (record { has_callback = true; queue = [] }) (loaded boot)

-- The callback adds the bytes to the clock.
abbrev adds : ℕ → Bytes → World ℕ → World ℕ
adds d bytes w = record w { sys = w.sys + length bytes }

abbrev pieces : List Bytes
pieces = (67 ∷ []) ∷ []

ready_read-delivers_example :
    ready_read feed adds 9 3 listening
    ≡ some (adds 3 (65 ∷ 66 ∷ 67 ∷ []) (record listening { sys = 2 }))
unfolding program
ready_read-delivers_example =
    ready_read-delivers feed adds 9 3 7 (65 ∷ 66 ∷ []) pieces listening 2 refl refl (omega arith)
      ((λ e. cc), refl, ((λ e. cc), refl, refl))

sync_receive_timed-TimedOut_example :
    TimedOut quiet 3 7
      (record {
        nothing = λ ms s. refl;
        takes_time = λ ms s. omega arith;
        monotone = λ s. omega arith;
      })
      (clock quiet listening.sys)
      20000000
      (Receive.sync_receive_timed quiet 20000001 9 3 (pos 20) listening)
unfolding program
sync_receive_timed-TimedOut_example =
    sync_receive_timed-TimedOut quiet 3 7
      (record {
        nothing = λ ms s. refl;
        takes_time = λ ms s. omega arith;
        monotone = λ s. omega arith;
      })
      9 20 listening refl (omega arith)
