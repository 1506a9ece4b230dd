-- ===== src/IoDevice/Waiting.antt =====
-- `syncReceive` with a time limit (src/iodevice.cpp) keeps what the single changes and reading the clock
-- keep.
use transport_cpp.Prelude.{
  ℕ, zero, suc, ◌-◌, Option, none, some, [], ◌∷◌, List, inl, inr, Option-cases, Bool-cases,
}
use transport_cpp.Int.{ℤ, pos, pos_part, ltb_ℤ, nanoseconds}
use transport_cpp.Types.{Bytes, PollFd}
use transport_cpp.Os.{Os, Outcome, value, failed}
use transport_cpp.World.{World}
use transport_cpp.EventLoop.{remaining_ms}
use transport_cpp.IoDevice.Receive.{
  ReceivedData, receive_entry, round_over, receive_loop, sync_receive_timed,
}
use transport_cpp.IoDevice.Stable.{Stable, After, received-Stable, read_io_data-Stable}

module _ {S : Type 0} (os : Os S) (d : ℕ) (P : World S → Type 0) (k : Stable os d P)
    (clocks : (w : World S) → P w → P (record w { sys = (os.now w.sys).1 })) where
  round_over-Stable :
      (fuel : ℕ) (again : World S → Option (ReceivedData × World S))
      (r : Outcome ℕ × List PollFd × S) (w : World S)
      → ((u : World S) → P u → After P (again u))
      → P (record w { sys = r.2 })
      → After P (round_over os fuel d again r w)
  round_over-Stable fuel again (failed errno, fds, s) w rest p = k.errs _ _ (record w { sys = s }) p
  round_over-Stable fuel again (value zero, fds, s) w rest p = rest (record w { sys = s }) p
  round_over-Stable fuel again (value (suc n), fds, s) w rest p =
      received-Stable os d P k _ (read_io_data-Stable os d P k fuel (record w { sys = s }) p)

  receive_loop-Stable :
      (rounds fuel h start : ℕ) (timeout : ℤ) (bytes : Option Bytes) (elapsed : ℕ) (w : World S)
      → P w
      → After P (receive_loop os rounds fuel d h start timeout bytes elapsed w)
  unfolding receive_loop
  receive_loop-Stable zero fuel h start timeout bytes elapsed w p = tt
  receive_loop-Stable (suc rounds) fuel h start timeout bytes elapsed w p =
      elim (Bool-cases (ltb_ℤ (pos elapsed) (nanoseconds timeout))) [
        | inl going ↦
            let ms = pos (remaining_ms (pos_part (nanoseconds timeout)) elapsed) in
            let ps = receive_entry h ∷ [] in
            let again = λ (u : World S).
              receive_loop os rounds fuel d h start timeout (some []) ((os.now u.sys).0 - start)
                (record u { sys = (os.now u.sys).1 }) in
            rw going (
              round_over-Stable fuel again (os.poll ps ms w.sys) w
                (λ u q.
                  receive_loop-Stable rounds fuel h start timeout (some [])
                    ((os.now u.sys).0 - start) (record u { sys = (os.now u.sys).1 }) (clocks u q))
                (k.polls ps ms w p))
        | inr over ↦ rw over (k.errs _ _ w p)
      ]

  pub sync_receive_timed-Stable :
      (rounds fuel : ℕ) (timeout : ℤ) (w : World S)
      → P w
      → After P (sync_receive_timed os rounds fuel d timeout w)
  unfolding sync_receive_timed
  sync_receive_timed-Stable rounds fuel timeout w p = elim (Option-cases (w.devices d).handle) [
    | inl absent ↦ rw (absent, After) (k.errs _ _ w p)
    | inr (h, found) ↦
        let (start, s) = os.now w.sys in
        let (t, s') = os.now s in
        rw (found, After)
          (receive_loop-Stable rounds fuel h start timeout none (t - start) (record w { sys = s' })
            (clocks (record w { sys = s }) (clocks w p)))
  ]
