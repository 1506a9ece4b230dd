-- ===== src/EventLoop/Timeouts.antt =====
-- The timeouts that `awaitOnce` and `awaitFor` hand to `poll`, and that `awaitFor` ends.
use transport_cpp.Prelude.{
  ℕ, zero, suc, ◌+◌, ◌*◌, ◌^◌, ◌-◌, ◌≤◌, ◌<◌, ◌≡◌, ltb, if◌then◌else◌, Option, none, some, arith,
  inl, inr, Bool-cases, refl,
}
use transport_cpp.Int.{
  ℤ, pos, negsuc, neg_part, ltb_ℤ, nanoseconds, nanoseconds_fit, nanoseconds_wrap, longest,
}
use transport_cpp.Os.{Os, clock}
use transport_cpp.World.{World}
use transport_cpp.EventLoop.{
  Event, int_max, to_int, once_timeout, await_once_upto, await_loop, await_for, remaining_ms,
  elapsed_since,
}

-- A value of a 32-bit `int`.
abbrev pub IsInt : ℤ → Type 0
IsInt (pos n) = n ≤ int_max
IsInt (negsuc n) = n ≤ int_max

to_int-IsInt : (z : ℤ) → IsInt (to_int z)
unfolding to_int
to_int-IsInt (pos n) = ground arith
to_int-IsInt (negsuc n) = ground arith

-- Every timeout handed to `poll` is a value of `int`.
pub once_timeout-IsInt : (duration : Option ℤ) → IsInt (once_timeout duration)
unfolding once_timeout
once_timeout-IsInt none = omega arith
once_timeout-IsInt (some (pos n)) = ground (arith, to_int-IsInt (pos n))
once_timeout-IsInt (some (negsuc n)) = ground (arith, to_int-IsInt (negsuc n))

-- A duration that is no less than the least `int` is clamped from above and otherwise passed on
-- unchanged.
pub once_timeout_clamps :
    (z : ℤ)
    → neg_part z ≤ 2 ^ 31
    → once_timeout (some z) ≡ (if ltb_ℤ (pos int_max) z then pos int_max else z)
unfolding once_timeout to_int
once_timeout_clamps (pos n) h = ground arith
once_timeout_clamps (negsuc n) h = ground arith

module _ {S : Type 0} (os : Os S) (ready : Event → ℕ → World S → World S) (e : ℕ)
    (monotone : (s : S) → clock os s ≤ clock os (os.now s).1)
    (ticks : (ms : ℕ) (w : World S)
      → clock os w.sys < clock os (await_once_upto ready e os (pos ms) w).1.sys) where
  -- One turn of the loop, or its end, where the duration in nanoseconds is `limit`.
  await_loop_lem :
      (fuel start limit elapsed : ℕ) (duration : ℤ) (w : World S)
      → nanoseconds duration ≡ pos limit
      → await_loop os ready e (suc fuel) start duration (elapsed, w) ≡ (
          if ltb elapsed limit
          then await_loop os ready e fuel start duration (
              elapsed_since os start
                (await_once_upto ready e os (pos (remaining_ms limit elapsed)) w).1)
          else some w)
  unfolding await_loop
  await_loop_lem fuel start limit elapsed duration w same = rw same refl

  loop-returns :
      (fuel start limit elapsed : ℕ) (duration : ℤ) (w : World S)
      → nanoseconds duration ≡ pos limit
      → limit - elapsed < fuel
      → start + elapsed ≤ clock os w.sys
      → (w' : World S) × (await_loop os ready e fuel start duration (elapsed, w) ≡ some w')
        × (start + limit ≤ clock os w'.sys)
  loop-returns zero start limit elapsed duration w same f c = absurd (omega arith)
  loop-returns (suc fuel) start limit elapsed duration w same f c =
      elim (Bool-cases (ltb elapsed limit)) [
        | inl going ↦
            let turn : World S =
              (await_once_upto ready e os (pos (remaining_ms limit elapsed)) w).1 in
            let later = ticks (remaining_ms limit elapsed) w in
            let t : ℕ = clock os turn.sys in
            let less : elapsed < limit = ground arith in
            rw (await_loop_lem fuel start limit elapsed duration w same, going)
              (loop-returns fuel start limit (t - start) duration
                (record turn { sys = (os.now turn.sys).1 }) same (omega arith)
                (omega (arith, monotone turn.sys)))
        | inr over ↦ (
          w,
          rw (await_loop_lem fuel start limit elapsed duration w same, over) refl,
          ground arith,
        )
      ]

  -- For a longer duration the nanoseconds overflow: up to 18446744073709 milliseconds they wrap around
  -- to a negative number, and `awaitFor` returns at once, without a call of `poll`.
  await_for-overflows :
      (duration : ℕ) (w : World S)
      → longest < duration
      → duration ≤ 18446744073709
      → await_for os ready e 1 (pos duration) w
        ≡ some (record w { sys = (os.now (os.now w.sys).1).1 })
  unfolding await_for await_loop
  await_for-overflows duration w long upto =
      let (m, same) = nanoseconds_wrap duration long upto in rw same refl

  -- For a duration of at most 9223372036854 milliseconds, the longest whose nanoseconds fit 64 bits,
  -- `awaitFor` returns, and not before the duration has passed, if the clock never goes back and
  -- every turn of the event loop takes some time.
  pub await_for-returns :
      (duration : ℕ) (w : World S)
      → duration ≤ longest
      → (w' : World S) × (await_for os ready e (suc (duration * 1000000)) (pos duration) w
          ≡ some w')
        × (clock os w.sys + duration * 1000000 ≤ clock os w'.sys)
  unfolding await_for
  await_for-returns duration w fits =
      let s1 : S = (os.now w.sys).1 in
      let limit : ℕ = duration * 1000000 in
      loop-returns (suc limit) (clock os w.sys) limit (clock os s1 - clock os w.sys) (pos duration)
        (record w { sys = (os.now s1).1 }) (nanoseconds_fit duration fits) (omega arith)
        (omega (arith, monotone w.sys, monotone s1))
