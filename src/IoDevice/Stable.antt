-- ===== src/IoDevice/Stable.antt =====
-- What reading and writing keep: a property that each single change keeps is kept by the whole calls
-- (src/iodevice.cpp).
use transport_cpp.Prelude.{
  ℕ, zero, suc, true, Option, none, some, List, [], ◌∷◌, ◌++◌, String, inl, inr, Option-cases,
  Bool-cases,
}
use transport_cpp.Int.{ℤ, negsuc}
use transport_cpp.Types.{Error, DeviceError, Bytes, PollFd}
use transport_cpp.Os.{Os, Outcome, value, failed}
use transport_cpp.World.{World, set_error}
use transport_cpp.Devices.{request_read}
use transport_cpp.IoDevice.{write_bytes, after_write}
use transport_cpp.IoDevice.Receive.{
  ReadData, buffer_size, first_error, read_loop, with_error, receive_polled, read_io_data,
  receive_entry, received, sync_receive, is_no_error,
}

-- Each change that reading from the device `d` or writing to it makes.
pub record Stable {S : Type 0} (os : Os S) (d : ℕ) (P : World S → Type 0) : Type 0 where
  pub polls :
      (ps : List PollFd) (ms : ℤ) (w : World S)
      → P w
      → P (record w { sys = (os.poll ps ms w.sys).2 })
  pub reads : (h n : ℕ) (w : World S) → P w → P (record w { sys = (os.read h n w.sys).1 })
  pub writes :
      (h : ℕ) (b : Bytes) (w : World S) → P w → P (record w { sys = (os.write h b w.sys).1 })
  pub faults : (w : World S) → P w → P (record w { fault = true })
  pub errs : (code : DeviceError) (text : String) (w : World S) → P w → P (set_error d code text w)
  pub requests : (w : World S) → P w → P (request_read d w)

-- Of the state that a call leaves which may run out of fuel.
abbrev pub After : {S A : Type 0} → (World S → Type 0) → Option (A × World S) → Type 0
After P none = Unit {0}
After P (some (a, u)) = P u

module _ {S : Type 0} (os : Os S) (d : ℕ) (P : World S → Type 0) (k : Stable os d P) where
  abbrev AfterLoop : World S → Option (Bytes × S) → Type 0
  AfterLoop w none = Unit {0}
  AfterLoop w (some (b, s)) = P (record w { sys = s })

  read_loop-Stable :
      (w : World S) (fuel h : ℕ) (acc : Bytes) (r : Outcome Bytes × S)
      → P (record w { sys = r.1 })
      → AfterLoop w (read_loop os fuel h acc r)
  unfolding read_loop
  read_loop-Stable w zero h acc r p = tt
  read_loop-Stable w (suc fuel) h acc (failed errno, s) p = p
  read_loop-Stable w (suc fuel) h acc (value [], s) p = p
  read_loop-Stable w (suc fuel) h acc (value (b ∷ bs), s) p =
      read_loop-Stable w fuel h (acc ++ b ∷ bs) (os.read h buffer_size s)
        (k.reads h buffer_size (record w { sys = s }) p)

  with_error-Stable :
      (error : Error) (o : Option (Bytes × S)) (w : World S)
      → AfterLoop w o
      → After P (with_error os error o w)
  with_error-Stable error none w p = tt
  with_error-Stable error (some (b, s)) w p = p

  pub read_io_data-Stable : (fuel : ℕ) (w : World S) → P w → After P (read_io_data os fuel d w)
  unfolding read_io_data
  read_io_data-Stable fuel w p = elim (Option-cases (w.devices d).handle) [
    | inl absent ↦ rw (absent, After) (k.faults w p)
    | inr (h, found) ↦
        let r = os.read h buffer_size w.sys in
        rw (found, After)
          (with_error-Stable (first_error r.0) (read_loop os fuel h [] r) w
            (read_loop-Stable w fuel h [] r (k.reads h buffer_size w p)))
  ]

  pub received-Stable : (o : Option (ReadData × World S)) → After P o → After P (received os d o)
  unfolding is_no_error
  received-Stable none p = tt
  received-Stable (some (r, u)) p = elim (Bool-cases (is_no_error r.error.code)) [
    | inl good ↦ rw good p
    | inr bad ↦ rw bad (k.errs r.error.code r.error.description u p)
  ]

  receive_polled-Stable :
      (fuel : ℕ) (r : Outcome ℕ × List PollFd × S) (w : World S)
      → P (record w { sys = r.2 })
      → After P (receive_polled os fuel d r w)
  receive_polled-Stable fuel (failed errno, fds, s) w p = k.errs _ _ (record w { sys = s }) p
  receive_polled-Stable fuel (value zero, fds, s) w p = k.errs _ _ (record w { sys = s }) p
  receive_polled-Stable fuel (value (suc n), fds, s) w p =
      received-Stable _ (read_io_data-Stable fuel (record w { sys = s }) p)

  pub sync_receive-Stable : (fuel : ℕ) (w : World S) → P w → After P (sync_receive os fuel d w)
  unfolding sync_receive
  sync_receive-Stable fuel w p = elim (Option-cases (w.devices d).handle) [
    | inl absent ↦ rw (absent, After) (k.errs _ _ w p)
    | inr (h, found) ↦
        let ps = receive_entry h ∷ [] in
        rw (found, After)
          (receive_polled-Stable fuel (os.poll ps (negsuc 0) w.sys) w (k.polls ps (negsuc 0) w p))
  ]

  after_write-Stable :
      (r : Outcome ℕ × S) (w : World S) → P (record w { sys = r.1 }) → P (after_write os d r w).1
  after_write-Stable (failed errno, s) w p = k.errs _ _ (record w { sys = s }) p
  after_write-Stable (value n, s) w p = k.requests (record w { sys = s }) p

  pub write_bytes-Stable :
      (h : ℕ) (o : Option Bytes) (w : World S) → P w → P (write_bytes os d h o w).1
  write_bytes-Stable h none w p = k.faults w p
  write_bytes-Stable h (some b) w p = after_write-Stable (os.write h b w.sys) w (k.writes h b w p)
