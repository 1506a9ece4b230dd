-- ===== src/Tests/Network.antt =====
-- The theorems on the network device, the timer and the logger at concrete states.
use transport_cpp.Prelude.{
  ℕ, zero, suc, ◌/◌, ◌%◌, ◌≡◌, refl, ap, ltb, not, ◌&&◌, Bool, ◌==◌, if◌then◌else◌, true, false,
  none, some, List, [], ◌∷◌, arith, length, String,
}
use transport_cpp.Types.{
  Bytes, ok, nok, IoDataChoice, shared, plain, HostAddr, any, NetworkMessage, OutgoingMessage,
}
use transport_cpp.Engine
use transport_cpp.Int.{ℤ, pos, negsuc, pos_part, ltb_ℤ, nanoseconds}
use transport_cpp.Os.{value, failed}
use transport_cpp.World.{World}
use transport_cpp.Devices.{register_new_handle}
use transport_cpp.IoDevice.{Virtual, io_data_choice_valid}
use transport_cpp.Sockets.{NetOs, inet}
use transport_cpp.NetworkDevice.{set_net}
use transport_cpp.NetworkDevice.Receive.{ready_read, notify_callback}
use transport_cpp.NetworkDevice.Datagrams.{ready_read-merges}
use transport_cpp.Timer.{
  TimerOs, TimerSpec, TimerWorld, Timespec, new_timer, stop, resume, is_running, set_timer,
}
use transport_cpp.Timer.Running.{IsValid, Keeps, resume-stop, every, disarmed}
use transport_cpp.Logger.{Logger, LogLevel, debug, warn, error}
use transport_cpp.Registry.{register_device}
use transport_cpp.Tests.{boot, opened, loaded}

program : Unit {0}
unfolding opened loaded register_device register_new_handle Engine.initial io_data_choice_valid
program = tt

-- Two datagrams of two senders; the state counts the calls.
abbrev pub post : NetOs ℕ
post = record {
  get_addr_info = λ hints host s. ((0, []), s);
  gai_strerror = λ status. "error";
  socket = λ a s. (failed 24, s);
  connect = λ fd b s. (failed 111, s);
  bind = λ fd b s. (failed 98, s);
  reuse_addr = λ fd s. (value tt, s);
  send_to = λ fd b a s. (value (length b), s);
  recv_from = λ fd n s.
      if s == 0
      then (value (65 ∷ [], inet (value "10.0.0.1") 1000), 1)
      else if s == 1
      then (value (66 ∷ [], inet (value "10.0.0.2") 2000), 2)
      else (failed 11, s);
  get_sock_name = λ fd s. (failed 9, s);
  errno = λ s. 11;
}

abbrev host : HostAddr
host = record { ip = "10.0.0.9"; port = 53 }

abbrev payload : IoDataChoice
payload = plain (1 ∷ 2 ∷ [])

abbrev inherited : Virtual ℕ
inherited = record {
  device_is_ready = λ d w. true;
  ready_error = λ d w. w;
  ready_hangup = λ d w. w;
  ready_peer_disconnect = λ d w. w;
  perform_sync_send = λ d m w. (nok, w);
}

abbrev waiting : List OutgoingMessage
waiting =
    record { addr = host; message = payload; ip_hint = any }
    ∷ record { addr = host; message = shared none; ip_hint = any }
    ∷ []

abbrev with_queue : World ℕ → World ℕ
with_queue w = set_net 3 (record { has_network_callback = true; outgoing = waiting }) w

-- The callback keeps a message's bytes in the heap, at the port of its peer.
abbrev keep : ℕ → NetworkMessage → World ℕ → World ℕ
keep d m w = record w { heap = λ p. if p == m.peer.port then m.bytes else [] }

abbrev ignore : ℕ → Bytes → World ℕ → World ℕ
ignore d b w = w

ready_read-merges_example :
    ready_read post keep ignore 3 3 (with_queue (loaded boot))
    ≡ some (
        notify_callback keep ignore 3
          (record { bytes = 65 ∷ 66 ∷ []; peer = record { ip = "10.0.0.1"; port = 1000 } })
          (record (with_queue (loaded boot)) { sys = 2 }))
unfolding program
ready_read-merges_example =
    ready_read-merges post keep ignore 3 3 7 1000 "10.0.0.1" (65 ∷ []) ((66 ∷ []) ∷ [])
      (with_queue (loaded boot)) 1 2 refl (omega arith) refl (λ e. cc) ((λ e. cc), refl, refl)

abbrev is_valid : Timespec → Bool
is_valid ts = elim ts.tv_nsec [
  | pos n ↦ not (ltb_ℤ ts.tv_sec (pos 0)) && ltb n 1000000000
  | negsuc n ↦ false
]

IsValid-is_valid : (ts : Timespec) → IsValid ts → is_valid ts ≡ true
IsValid-is_valid ts (seconds, nanos, same, small) = rw same (ground arith)

-- The state is the setting of the one timer; what is not valid is refused.
abbrev clocks : TimerOs TimerSpec
clocks = record {
  create = λ s. (value 7, s);
  set_time = λ fd spec s.
      if is_valid spec.it_value && is_valid spec.it_interval
      then (value tt, spec)
      else (failed 22, s);
}

abbrev setting : TimerSpec → ℕ → TimerSpec
setting s fd = s

clocks-Keeps : Keeps clocks setting
clocks-Keeps = record {
  sets = λ fd spec s a b.
      rw (IsValid-is_valid spec.it_value a, IsValid-is_valid spec.it_interval b) ((tt, refl), refl);
}

abbrev minus : ℕ → ℤ
minus zero = pos 0
minus (suc n) = negsuc n

abbrev seconds : ℤ → Timespec
seconds (pos ns) = record { tv_sec = pos (ns / 1000000000); tv_nsec = pos (ns % 1000000000) }
seconds (negsuc n) = record {
  tv_sec = minus (suc n / 1000000000);
  tv_nsec = minus (suc n % 1000000000);
}

abbrev timer : TimerWorld TimerSpec
timer = record { world = opened disarmed; timers = λ d. new_timer }

abbrev running : TimerWorld TimerSpec
running =
    set_timer 3 (record { is_running = true; set_duration = pos 5; has_callback = false }) timer

resume-stop_example :
    let stopped = (stop clocks 3 running).1 in
    let (code, v') = resume clocks seconds 3 stopped in
    (is_running 3 stopped ≡ false)
    × (setting stopped.world.sys 7 ≡ disarmed)
    × (code ≡ ok)
    × (is_running 3 v' ≡ true)
    × (setting v'.world.sys 7 ≡ every (seconds (nanoseconds (pos 5))))
unfolding program is_running nanoseconds
resume-stop_example =
    resume-stop clocks seconds setting clocks-Keeps 3 7 running refl refl
      (λ e. absurd (omega (arith, ap pos_part e))) (0, 5000000, refl, omega arith)

abbrev quiet_logger : Logger
quiet_logger = record { min_log_level = warn; output = [] }

abbrev said : List (LogLevel × String × String)
said = (debug, "Engine", "a") ∷ (error, "Engine", "b") ∷ (warn, "Timer", "c") ∷ []
