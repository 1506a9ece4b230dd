-- ===== src/Timer.antt =====
-- `Timer` (src/timer.cpp, include/transport-cpp/timer.h). The calls of <sys/timerfd.h> are an interface
-- of their own. A duration is a 64-bit number of milliseconds; its conversion to nanoseconds is part of
-- the model, the one of nanoseconds to a `timespec`, in floating point, is a parameter.
pub mod Running
use transport_cpp.Prelude.{ℕ, if◌then◌else◌, Bool, true, false, Option, none, some, update}
use transport_cpp.Int.{ℤ, pos, eq_ℤ, nanoseconds}
use transport_cpp.Types.{ReturnCode, ok, nok, passable, ErrorCode, internal, system}
use transport_cpp.Os.{Os, Outcome, value, failed}
use transport_cpp.World.{World, set_error}
use transport_cpp.Devices.{register_new_handle, destroy_device}

pub record Timespec : Type 0 where
  pub tv_sec : ℤ
  pub tv_nsec : ℤ

-- `itimerspec`
pub record TimerSpec : Type 0 where
  pub it_value : Timespec
  pub it_interval : Timespec

pub record TimerOs (S : Type 0) : Type 0 where
  -- `timerfd_create(CLOCK_MONOTONIC, TFD_NONBLOCK)`
  pub create : S → Outcome ℕ × S
  -- `timerfd_settime(fd, 0, spec, nullptr)`
  pub set_time : ℕ → TimerSpec → S → Outcome (Unit {0}) × S

-- The fields of `Timer`, without the callback itself.
pub record TimerPart : Type 0 where
  pub is_running : Bool
  pub set_duration : ℤ
  pub has_callback : Bool

-- `std::chrono::milliseconds::max()`
abbrev pub max_duration : ℤ
max_duration = pos 9223372036854775807

pub record TimerWorld (S : Type 0) : Type 0 where
  pub world : World S
  pub timers : ℕ → TimerPart

abbrev pub new_timer : TimerPart
new_timer = record { is_running = false; set_duration = max_duration; has_callback = false }

abbrev pub no_time : Timespec
no_time = record { tv_sec = pos 0; tv_nsec = pos 0 }

module _ {S : Type 0} where
  abbrev pub set_timer : ℕ → TimerPart → TimerWorld S → TimerWorld S
  set_timer d r v = record v { timers = update v.timers d r }

  abbrev with_sys : S → TimerWorld S → TimerWorld S
  with_sys s v = record v { world = record v.world { sys = s } }

  -- `getDeviceHandle().value()` without a handle
  abbrev broken : TimerWorld S → TimerWorld S
  broken v = record v { world = record v.world { fault = true } }

  -- `Timer::isRunning`
  unfoldable pub is_running : ℕ → TimerWorld S → Bool
  is_running d v = (v.timers d).is_running

  -- `Timer::setCallback`, with whether the function that is given is one.
  unfoldable pub set_callback : ℕ → Bool → TimerWorld S → TimerWorld S
  set_callback d callable v = set_timer d (record (v.timers d) { has_callback = callable }) v

  module _ (t : TimerOs S) where
    -- The constructor, in which a failure throws.
    abbrev created : ℕ → Outcome ℕ × S → TimerWorld S → Option (TimerWorld S)
    created d (failed errno, s) v = none
    created d (value fd, s) v =
        let u = set_timer d new_timer (with_sys s v) in
        some (record u { world = register_new_handle d (some fd) u.world })

    unfoldable pub new : ℕ → TimerWorld S → Option (TimerWorld S)
    new d v = created d (t.create v.world.sys) v

    abbrev disarm : Option ℕ → TimerWorld S → TimerWorld S
    disarm none v = broken v
    disarm (some fd) v =
        with_sys
          (t.set_time fd (record { it_value = no_time; it_interval = no_time }) v.world.sys).1 v

    unfoldable pub stop : ℕ → TimerWorld S → ReturnCode × TimerWorld S
    stop d v =
        if (v.timers d).is_running
        then (
          ok,
          disarm (v.world.devices d).handle
              (set_timer d (record (v.timers d) { is_running = false }) v),
        )
        else (passable, v)

    -- With `nsToTimespec`, of a number of nanoseconds.
    module _ (to_timespec : ℤ → Timespec) where
      abbrev armed : ℕ → Outcome (Unit {0}) × S → TimerWorld S → ReturnCode × TimerWorld S
      armed d (failed errno, s) v =
          let u = with_sys s v in
          (nok, record u { world = set_error d (system errno) "Unable to start timer" u.world })
      armed d (value r, s) v =
          let u = with_sys s v in (ok, set_timer d (record (u.timers d) { is_running = true }) u)

      abbrev arm : ℕ → ℤ → Option ℕ → TimerWorld S → ReturnCode × TimerWorld S
      arm d duration none v = (nok, broken v)
      arm d duration (some fd) v =
          let ts = to_timespec (nanoseconds duration) in
          armed d (t.set_time fd (record { it_value = ts; it_interval = ts }) v.world.sys) v

      unfoldable pub start : ℕ → ℤ → TimerWorld S → ReturnCode × TimerWorld S
      unfolding stop is_running nanoseconds
      start d duration v =
          let stopped = if is_running d v then (stop d v).1 else v in
          let u = set_timer d (record (stopped.timers d) { set_duration = duration }) stopped in
          arm d duration (u.world.devices d).handle u

      unfoldable pub resume : ℕ → TimerWorld S → ReturnCode × TimerWorld S
      unfolding start
      resume d v =
          if eq_ℤ (v.timers d).set_duration max_duration
          then (
            nok,
            record v {
              world =
                  set_error d (internal ErrorCode.invalid_logic)
                    "Cannot resume timer, it hasnt been started" v.world;
            },
          )
          else start d (v.timers d).set_duration v

  module _ (os : Os S) where
    abbrev drained : ℕ → Option ℕ → TimerWorld S → TimerWorld S
    drained d none v = broken v
    drained d (some fd) v = with_sys (os.read fd 8 v.world.sys).1 v

    -- `Timer::readyRead`
    unfoldable pub ready_read : (ℕ → TimerWorld S → TimerWorld S) → ℕ → TimerWorld S → TimerWorld S
    ready_read callback d v =
        let u = drained d (v.world.devices d).handle v in
        if (u.timers d).has_callback then callback d u else u

    abbrev closed : Option ℕ → TimerWorld S → TimerWorld S
    closed none v = broken v
    closed (some fd) v = with_sys (os.close fd v.world.sys) v

    -- `~Timer`, and `~Device` after it.
    unfoldable pub destroy : ℕ → TimerWorld S → TimerWorld S
    unfolding destroy_device
    destroy d v =
        let u = closed (v.world.devices d).handle v in record u { world = destroy_device d u.world }
