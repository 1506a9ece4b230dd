-- ===== src/Tests/Loop.antt =====
-- The theorems on the event loop at concrete states.
use transport_cpp.Prelude.{
  ℕ, ◌+◌, ◌*◌, ◌≤◌, ◌≡◌, refl, true, some, List, [], ◌∷◌, arith, false, if◌then◌else◌,
}
use transport_cpp.Int.{pos, ltb_ℤ}
use transport_cpp.Types.{PollFd, pollin}
use transport_cpp.Engine
use transport_cpp.World.{World}
use transport_cpp.Registry.{register_device}
use transport_cpp.Devices.{register_new_handle}
use transport_cpp.EventLoop.{
  Event, ready_hangup, classify, collect, cleared, await_once_upto, once_timeout, int_max,
  await_for, await_loop, polled,
}
use transport_cpp.EventLoop.Classes.{input, classify-expected}
use transport_cpp.EventLoop.Polled.{handles}
use transport_cpp.EventLoop.Calls.{await_once_upto-turn, turn, sorted, run_calls}
use transport_cpp.EventLoop.Timeouts.{await_for-returns, once_timeout_clamps}
use transport_cpp.Os.{clock}
use transport_cpp.Tests.{with_input, boot, quiet, feed, opened, loaded}

program : Unit {0}
unfolding opened loaded register_device register_new_handle Engine.register_new_handle
    Engine.initial classify collect
program = tt

abbrev entry : ℕ → ℕ → PollFd
entry h revents = record { fd = h; events = pollin; revents = revents }

-- Input, a hang-up with input, nothing, and output.
abbrev entries : List PollFd
entries = entry 5 1 ∷ entry 6 17 ∷ entry 7 0 ∷ entry 8 4 ∷ []

collect_runs : collect 3 entries 0 cleared ≡ record {
  read = 5 ∷ [];
  write = 8 ∷ [];
  error = [];
  hangup = 6 ∷ [];
  invalid = [];
  peer_disconnect = [];
}
unfolding program
collect_runs = refl

-- Input and a hangup at once.
classify-expected_example : classify 17 ≡ some ready_hangup
unfolding program
classify-expected_example = classify-expected input true false true false

pub handles-with_input : (ps : List PollFd) → handles (with_input ps) ≡ handles ps
handles-with_input [] = refl
handles-with_input (p ∷ ps) = refl

-- Each call writes down its device.
abbrev notes : Event → ℕ → World ℕ → World ℕ
notes event d w = record w { sys = 10 * w.sys + d }

await_once_upto-turn_example : await_once_upto notes 1 feed (pos 100) (loaded boot) ≡ (
  true,
  run_calls notes
      (turn
        ((loaded boot).engines 1).device_mapping
        (sorted (with_input ((loaded boot).engines 1).poll_devices)))
      (polled 1 (with_input ((loaded boot).engines 1).poll_devices) boot (loaded boot)),
)
unfolding program
await_once_upto-turn_example =
    await_once_upto-turn notes 1 (λ event d w. refl) feed (pos 100) (loaded boot) 0
      (with_input ((loaded boot).engines 1).poll_devices) boot refl (omega arith)

once_timeout_clamps_example :
    once_timeout (some (pos 5000000000))
    ≡ (if ltb_ℤ (pos int_max) (pos 5000000000) then pos int_max else pos 5000000000)
once_timeout_clamps_example = once_timeout_clamps (pos 5000000000) (omega arith)

-- On the quiet kernel a turn takes one tick.
await_for-returns_example :
    (w' : World ℕ) × (await_for quiet notes 1 50000001 (pos 50) (loaded boot) ≡ some w')
    × (clock quiet (loaded boot).sys + 50000000 ≤ clock quiet w'.sys)
unfolding await_once_upto
await_for-returns_example =
    await_for-returns quiet notes 1 (λ s. omega arith) (λ ms w. omega arith) 50 (loaded boot)
      (omega arith)

-- `std::chrono::milliseconds::max()` of nanoseconds is negative: two readings of the clock, no `poll`.
longest_wait :
    await_for quiet notes 1 1 (pos 9223372036854775807) (loaded boot)
    ≡ some (record (loaded boot) { sys = (quiet.now (quiet.now (loaded boot).sys).1).1 })
unfolding await_for await_loop
longest_wait = refl
