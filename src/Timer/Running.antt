-- ===== src/Timer/Running.antt =====
-- When a timer runs, and with which settings.
use transport_cpp.Prelude.{
  ℕ, ◌<◌, ◌≡◌, ◌≢◌, refl, if◌then◌else◌, true, false, some, arith, Bool-cases, Option-cases, inl,
  inr, ◌∙◌, ap,
}
use transport_cpp.Int.{ℤ, pos, eq_ℤ, eq_ℤ-false, nanoseconds}
use transport_cpp.Types.{ok}
use transport_cpp.Os.{value}
use transport_cpp.Timer.{
  Timespec, TimerSpec, TimerOs, TimerWorld, set_timer, max_duration, no_time, arm, stop, start,
  resume, is_running,
}

-- What `timerfd_settime` accepts: no negative seconds, and less than a second of nanoseconds.
abbrev pub IsValid : Timespec → Type 0
IsValid ts =
    (seconds : ℕ) × (nanos : ℕ) × (ts ≡ record { tv_sec = pos seconds; tv_nsec = pos nanos })
    × (nanos < 1000000000)

-- The last setting that a timer's handle was given, in a kernel that accepts valid ones and keeps
-- them.
pub record Keeps {S : Type 0} (t : TimerOs S) (setting : S → ℕ → TimerSpec) : Type 0 where
  pub sets :
      (fd : ℕ) (spec : TimerSpec) (s : S)
      → IsValid spec.it_value
      → IsValid spec.it_interval
      → ((r : Unit {0}) × ((t.set_time fd spec s).0 ≡ value r))
        × (setting (t.set_time fd spec s).1 fd ≡ spec)

abbrev pub disarmed : TimerSpec
disarmed = record { it_value = no_time; it_interval = no_time }

abbrev pub every : Timespec → TimerSpec
every ts = record { it_value = ts; it_interval = ts }

resume_lem :
    {S : Type 0} (t : TimerOs S) (to_timespec : ℤ → Timespec) (d : ℕ) (v : TimerWorld S)
    → eq_ℤ (v.timers d).set_duration max_duration ≡ false
    → resume t to_timespec d v ≡ start t to_timespec d (v.timers d).set_duration v
unfolding resume
resume_lem t to_timespec d v e = rw e refl

module _ {S : Type 0} (t : TimerOs S) (to_timespec : ℤ → Timespec) (setting : S → ℕ → TimerSpec)
    (k : Keeps t setting) where
  arm-IsRunning :
      (d fd : ℕ) (duration : ℤ) (v : TimerWorld S)
      → IsValid (to_timespec (nanoseconds duration))
      → let (code, v') = arm t to_timespec d duration (some fd) v in
        (code ≡ ok)
        × (is_running d v' ≡ true)
        × ((v'.timers d).set_duration ≡ (v.timers d).set_duration)
        × (setting v'.world.sys fd ≡ every (to_timespec (nanoseconds duration)))
  unfolding is_running
  arm-IsRunning d fd duration v valid =
      let ((r, e), set) =
        k.sets fd (every (to_timespec (nanoseconds duration))) v.world.sys valid valid in
      (ground (arith, e), ground (arith, e), ground (arith, e), ground (arith, e, set))

  stop-handle :
      (d : ℕ) (v : TimerWorld S)
      → ((stop t d v).1.world.devices d).handle ≡ (v.world.devices d).handle
  unfolding stop
  stop-handle d v = elim (Bool-cases (v.timers d).is_running) [
    | inl r ↦ elim (Option-cases (v.world.devices d).handle) [
      | inl n ↦ rw (r, n) n
      | inr (fd, h) ↦ rw (r, h) h
    ]
    | inr r ↦ rw r refl
  ]

  started-IsRunning :
      (d fd : ℕ) (duration : ℤ) (v : TimerWorld S)
      → IsValid (to_timespec (nanoseconds duration))
      → (v.world.devices d).handle ≡ some fd
      → let (code, v') =
          arm t to_timespec d duration
            (v.world.devices d).handle
            (set_timer d (record (v.timers d) { set_duration = duration }) v) in
        (code ≡ ok)
        × (is_running d v' ≡ true)
        × ((v'.timers d).set_duration ≡ duration)
        × (setting v'.world.sys fd ≡ every (to_timespec (nanoseconds duration)))
  started-IsRunning d fd duration v valid h =
      let u = set_timer d (record (v.timers d) { set_duration = duration }) v in
      let done = arm-IsRunning d fd duration u valid in
      rw h (done.0, done.1, done.2 ∙ ground arith, done.3)

  -- With a duration that makes a valid setting, a timer that is started runs, with the new duration in the kernel and in the device, whether or
  -- not it was running.
  pub start-IsRunning :
      (d fd : ℕ) (duration : ℤ) (v : TimerWorld S)
      → IsValid (to_timespec (nanoseconds duration))
      → (v.world.devices d).handle ≡ some fd
      → let (code, v') = start t to_timespec d duration v in
        (code ≡ ok)
        × (is_running d v' ≡ true)
        × ((v'.timers d).set_duration ≡ duration)
        × (setting v'.world.sys fd ≡ every (to_timespec (nanoseconds duration)))
  unfolding start stop is_running
  start-IsRunning d fd duration v valid h =
      started-IsRunning d fd duration (if is_running d v then (stop t d v).1 else v) valid
        (ground (arith, h, stop-handle d v))

  -- If the kernel accepts valid settings and keeps them, a timer that has a handle and was started
  -- with a duration that is not the greatest one and makes a valid setting does not run once it is
  -- stopped, the kernel's setting is off, and `resume` starts it again with the duration that it had.
  pub resume-stop :
      (d fd : ℕ) (v : TimerWorld S)
      → (v.world.devices d).handle ≡ some fd
      → is_running d v ≡ true
      → (v.timers d).set_duration ≢ max_duration
      → IsValid (to_timespec (nanoseconds (v.timers d).set_duration))
      → let stopped = (stop t d v).1 in
        let (code, v') = resume t to_timespec d stopped in
        (is_running d stopped ≡ false)
        × (setting stopped.world.sys fd ≡ disarmed)
        × (code ≡ ok)
        × (is_running d v' ≡ true)
        × (setting v'.world.sys fd ≡ every (to_timespec (nanoseconds (v.timers d).set_duration)))
  unfolding stop resume is_running
  resume-stop d fd v h r m valid =
      let off : IsValid no_time = (0, 0, refl, omega arith) in
      let stopped = (stop t d v).1 in
      let duration = (v.timers d).set_duration in
      let same : (stopped.timers d).set_duration ≡ duration = ground (arith, h, r) in
      let again = start-IsRunning d fd duration stopped valid (stop-handle d v ∙ h) in
      let run : resume t to_timespec d stopped ≡ start t to_timespec d duration stopped =
        resume_lem t to_timespec d stopped
          (ap (λ x. eq_ℤ x max_duration) same ∙ eq_ℤ-false duration max_duration m)
        ∙ ap (λ x. start t to_timespec d x stopped) same in
      (
        ground (arith, h, r),
        ground (arith, h, r, (k.sets fd disarmed v.world.sys off off).1),
        ap (λ p. p.0) run ∙ again.0,
        ap (λ p. is_running d p.1) run ∙ again.1,
        ap (λ p. setting p.1.world.sys fd) run ∙ again.3,
      )
