-- ===== src/IoDevice/Timed.antt =====
-- `syncReceive` with a time limit comes back, and not early.
use transport_cpp.Prelude.{
  ℕ, zero, suc, ◌+◌, ◌*◌, ◌-◌, ◌≤◌, ◌<◌, ◌≡◌, refl, ltb, true, false, Option, none, some, [], ◌∷◌,
  arith, inl, inr, Bool-cases, ap,
}
use transport_cpp.Int.{ℤ, pos, nanoseconds, nanoseconds_fit, longest}
use transport_cpp.Types.{ErrorCode, internal, nok, Bytes}
use transport_cpp.Os.{Os, clock, Outcome, value}
use transport_cpp.World.{World, set_error}
use transport_cpp.EventLoop.{remaining_ms}
use transport_cpp.IoDevice.Receive.{
  receive_loop, sync_receive_timed, receive_entry, ReceivedData, round_over,
}

-- A kernel on which a handle stays silent: every `poll` of it comes back with nothing, after some
-- time, and the clock never goes back.
pub record Silent {S : Type 0} (os : Os S) (h : ℕ) : Type 0 where
  pub nothing : (ms : ℕ) (s : S) → (os.poll (receive_entry h ∷ []) (pos ms) s).0 ≡ value 0
  pub takes_time :
      (ms : ℕ) (s : S) → clock os s < clock os (os.poll (receive_entry h ∷ []) (pos ms) s).2
  pub monotone : (s : S) → clock os s ≤ clock os (os.now s).1

module _ {S : Type 0} (os : Os S) (d h : ℕ) (k : Silent os h) where
  -- What a call that ran out of time returns, with a limit in nanoseconds.
  pub record TimedOut (start limit : ℕ) (r : Option (ReceivedData × World S)) : Type 0 where
    pub result : ReceivedData × World S
    pub returned : r ≡ some result
    pub code : result.0.code ≡ nok
    pub error : (result.1.devices d).last_error.code ≡ internal ErrorCode.timeout
    pub late : start + limit ≤ clock os result.1.sys

  -- The state after a silent round, the clock read.
  abbrev polled : ℕ → ℕ → World S → S
  polled limit elapsed w =
      (os.poll (receive_entry h ∷ []) (pos (remaining_ms limit elapsed)) w.sys).2

  silent_round :
      (rounds fuel start limit elapsed : ℕ) (timeout : ℤ) (bytes : Option Bytes) (w : World S)
      → nanoseconds timeout ≡ pos limit
      → ltb elapsed limit ≡ true
      → let s = polled limit elapsed w in
        receive_loop os (suc rounds) fuel d h start timeout bytes elapsed w
        ≡ receive_loop os rounds fuel d h start timeout
            (some [])
            (clock os s - start)
            (record w { sys = (os.now s).1 })
  unfolding receive_loop
  silent_round rounds fuel start limit elapsed timeout bytes w same t =
      rw (same, t)
        (ap
          (λ (r : Outcome ℕ).
            round_over os fuel d
              (λ u.
                receive_loop os rounds fuel d h start timeout (some []) ((os.now u.sys).0 - start)
                  (record u { sys = (os.now u.sys).1 }))
              (
                r,
                (os.poll (receive_entry h ∷ []) (pos (remaining_ms limit elapsed)) w.sys).1,
                polled limit elapsed w,
              )
              w)
          (k.nothing (remaining_ms limit elapsed) w.sys))

  last_round :
      (rounds fuel start limit elapsed : ℕ) (timeout : ℤ) (bytes : Option Bytes) (w : World S)
      → nanoseconds timeout ≡ pos limit
      → ltb elapsed limit ≡ false
      → receive_loop os (suc rounds) fuel d h start timeout bytes elapsed w
        ≡ some (
          record { code = nok; bytes = bytes },
          set_error d (internal ErrorCode.timeout) "sync read reached timeout" w,
        )
  unfolding receive_loop
  last_round rounds fuel start limit elapsed timeout bytes w same t = rw (same, t) refl

  loop-TimedOut :
      (rounds fuel start limit elapsed : ℕ) (timeout : ℤ) (bytes : Option Bytes) (w : World S)
      → nanoseconds timeout ≡ pos limit
      → limit - elapsed < rounds
      → start + elapsed ≤ clock os w.sys
      → TimedOut start limit (receive_loop os rounds fuel d h start timeout bytes elapsed w)
  loop-TimedOut zero fuel start limit elapsed timeout bytes w same r c = absurd (omega arith)
  loop-TimedOut (suc rounds) fuel start limit elapsed timeout bytes w same r c =
      elim (Bool-cases (ltb elapsed limit)) [
        | inl going ↦
            let s : S = polled limit elapsed w in
            let less : elapsed < limit = ground arith in
            let later = k.takes_time (remaining_ms limit elapsed) w.sys in
            rw (silent_round rounds fuel start limit elapsed timeout bytes w same going) (
              loop-TimedOut rounds fuel start limit (clock os s - start) timeout (some [])
                (record w { sys = (os.now s).1 }) same (omega arith) (omega (arith, k.monotone s)))
        | inr over ↦
            rw (last_round rounds fuel start limit elapsed timeout bytes w same over) (record {
              result = (
                record { code = nok; bytes = bytes },
                set_error d (internal ErrorCode.timeout) "sync read reached timeout" w,
              );
              returned = refl;
              code = refl;
              error = ground arith;
              late = ground arith;
            })
      ]

  -- On a handle that stays silent `syncReceive` with a time limit of at most 9223372036854
  -- milliseconds, the longest whose nanoseconds fit 64 bits, returns, reports a time-out, and does so
  -- no earlier than the limit.
  pub sync_receive_timed-TimedOut :
      (fuel timeout : ℕ) (w : World S)
      → (w.devices d).handle ≡ some h
      → timeout ≤ longest
      → let limit = timeout * 1000000 in
        TimedOut (clock os w.sys) limit (sync_receive_timed os (suc limit) fuel d (pos timeout) w)
  unfolding sync_receive_timed
  sync_receive_timed-TimedOut fuel timeout w has fits =
      let s : S = (os.now w.sys).1 in
      let limit : ℕ = timeout * 1000000 in
      rw (has, sync_receive_timed)
        (loop-TimedOut (suc limit) fuel (clock os w.sys) limit (clock os s - clock os w.sys)
          (pos timeout) none (record w { sys = (os.now s).1 }) (nanoseconds_fit timeout fits)
          (omega arith) (omega (arith, k.monotone w.sys, k.monotone s)))
