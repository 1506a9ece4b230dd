-- ===== src/IoDevice/Receive.antt =====
-- Reading (src/iodevice.cpp): a handle is read until it has nothing more, by the event loop or by a
-- call that waits. Log lines are left out.
use transport_cpp.Prelude.{
  ℕ, zero, suc, ◌-◌, if◌then◌else◌, Bool, true, false, Option, none, some, List, [], ◌∷◌, ◌++◌,
  String,
}
use transport_cpp.Int.{ℤ, pos, negsuc, pos_part, ltb_ℤ, nanoseconds}
use transport_cpp.Types.{
  ReturnCode, ok, nok, ErrorCode, DeviceError, internal, system, Error, PollFd, Bytes, pollin,
}
use transport_cpp.Os.{Os, Outcome, value, failed}
use transport_cpp.World.{World, set_error}
use transport_cpp.EventLoop.{remaining_ms}

pub record ReceivedData : Type 0 where
  pub code : ReturnCode
  pub bytes : Option Bytes

-- What `readIOData` reports: an error, and the bytes that it appended.
pub record ReadData : Type 0 where
  pub error : Error
  pub bytes : Bytes

-- The size of its buffer.
abbrev pub buffer_size : ℕ
buffer_size = 2048

-- `std::holds_alternative<ERROR_CODE>(code) && std::get<ERROR_CODE>(code) == NO_ERROR`
unfoldable pub is_no_error : DeviceError → Bool
is_no_error (internal ErrorCode.no_error) = true
is_no_error _ = false

-- Only a failure of the first `read` is reported.
abbrev pub first_error : Outcome Bytes → Error
first_error (failed errno) = record { code = system errno; description = "read error" }
first_error (value b) = record { code = internal ErrorCode.no_error; description = "" }

abbrev pub receive_entry : ℕ → PollFd
receive_entry h = record { fd = h; events = pollin; revents = 0 }

-- `notifyIOCallback`
unfoldable pub notify_io_callback :
    {S : Type 0} → (ℕ → Bytes → World S → World S) → ℕ → Bytes → World S → World S
notify_io_callback io_callback d bytes w =
    if (w.io d).has_callback then io_callback d bytes w else w

module _ {S : Type 0} (os : Os S) where
  -- The `while` loop over the result of the last `read`; `none` when the fuel is used up.
  unfoldable pub read_loop : ℕ → ℕ → Bytes → Outcome Bytes × S → Option (Bytes × S)
  read_loop zero h acc r = none
  read_loop (suc fuel) h acc (failed errno, s) = some (acc, s)
  read_loop (suc fuel) h acc (value [], s) = some (acc, s)
  read_loop (suc fuel) h acc (value (b ∷ bs), s) =
      read_loop fuel h (acc ++ b ∷ bs) (os.read h buffer_size s)

  abbrev pub with_error : Error → Option (Bytes × S) → World S → Option (ReadData × World S)
  with_error error none w = none
  with_error error (some (bytes, s)) w =
      some (record { error = error; bytes = bytes }, record w { sys = s })

  abbrev pub read_from : ℕ → ℕ → Outcome Bytes × S → World S → Option (ReadData × World S)
  read_from fuel h (r, s) w = with_error (first_error r) (read_loop fuel h [] (r, s)) w

  -- `IODevice::readIOData`. Without a handle `value()` throws out of a `noexcept` function.
  unfoldable pub read_io_data : ℕ → ℕ → World S → Option (ReadData × World S)
  unfolding read_loop
  read_io_data fuel d w = elim (w.devices d).handle [
    | none ↦ some (record { error = first_error (value []); bytes = [] }, record w { fault = true })
    | some h ↦ read_from fuel h (os.read h buffer_size w.sys) w
  ]

  module _ (io_callback : ℕ → Bytes → World S → World S) where
    abbrev after_read : ℕ → Option (ReadData × World S) → Option (World S)
    after_read d none = none
    after_read d (some (r, w)) =
        some (if is_no_error r.error.code then notify_io_callback io_callback d r.bytes w else w)

    -- `IODevice::readyRead`
    unfoldable pub ready_read : ℕ → ℕ → World S → Option (World S)
    unfolding read_io_data is_no_error notify_io_callback
    ready_read fuel d w = after_read d (read_io_data fuel d w)

  -- The end of `syncReceive`, with what `readIOData` returned.
  abbrev pub received : ℕ → Option (ReadData × World S) → Option (ReceivedData × World S)
  received d none = none
  received d (some (r, w)) = some (
      if is_no_error r.error.code then (record { code = ok; bytes = some r.bytes }, w) else (
        record { code = nok; bytes = some r.bytes },
        set_error d r.error.code r.error.description w,
      ))

  abbrev not_ready : ℕ → World S → ReceivedData × World S
  not_ready d w = (
    record { code = nok; bytes = none },
    set_error d (internal ErrorCode.device_not_ready)
        "Device has not been configured yet. Unable to receive" w,
  )

  abbrev pub poll_failed : ℕ → String → World S → Option (ReceivedData × World S)
  poll_failed d description w = some (
    record { code = nok; bytes = some [] },
    set_error d (internal ErrorCode.poll_error) description w,
  )

  abbrev pub receive_polled :
      ℕ → ℕ → Outcome ℕ × List PollFd × S → World S → Option (ReceivedData × World S)
  receive_polled fuel d (failed errno, fds, s) w =
      poll_failed d "Unknown error in poll" (record w { sys = s })
  receive_polled fuel d (value zero, fds, s) w =
      poll_failed d "Unknown error in poll" (record w { sys = s })
  receive_polled fuel d (value (suc n), fds, s) w =
      received d (read_io_data fuel d (record w { sys = s }))

  -- `syncReceive()`
  unfoldable pub sync_receive : ℕ → ℕ → World S → Option (ReceivedData × World S)
  unfolding read_io_data is_no_error
  sync_receive fuel d w = elim (w.devices d).handle [
    | none ↦ some (not_ready d w)
    | some h ↦ receive_polled fuel d (os.poll (receive_entry h ∷ []) (negsuc 0) w.sys) w
  ]

  -- `syncReceive(timeout)`: polls until input comes or the time, in milliseconds, is over. `bytes` is
  -- `ret.data`, which each round sets to no bytes.
  abbrev timed_out : ℕ → Option Bytes → World S → Option (ReceivedData × World S)
  timed_out d bytes w = some (
    record { code = nok; bytes = bytes },
    set_error d (internal ErrorCode.timeout) "sync read reached timeout" w,
  )

  abbrev pub round_over :
      ℕ
      → ℕ
      → (World S → Option (ReceivedData × World S))
      → Outcome ℕ × List PollFd × S
      → World S
      → Option (ReceivedData × World S)
  round_over fuel d again (failed errno, fds, s) w =
      poll_failed d "Poll returned an error" (record w { sys = s })
  round_over fuel d again (value zero, fds, s) w = again (record w { sys = s })
  round_over fuel d again (value (suc n), fds, s) w =
      received d (read_io_data fuel d (record w { sys = s }))

  unfoldable pub receive_loop :
      ℕ → ℕ → ℕ → ℕ → ℕ → ℤ → Option Bytes → ℕ → World S → Option (ReceivedData × World S)
  unfolding nanoseconds
  receive_loop zero fuel d h start timeout bytes elapsed w = none
  receive_loop (suc rounds) fuel d h start timeout bytes elapsed w =
      let again = λ (u : World S).
        let (t, s) = os.now u.sys in
        receive_loop rounds fuel d h start timeout (some []) (t - start) (record u { sys = s }) in
      let limit = nanoseconds timeout in
      let ms = pos (remaining_ms (pos_part limit) elapsed) in
      if ltb_ℤ (pos elapsed) limit
      then round_over fuel d again (os.poll (receive_entry h ∷ []) ms w.sys) w
      else timed_out d bytes w

  unfoldable pub sync_receive_timed : ℕ → ℕ → ℕ → ℤ → World S → Option (ReceivedData × World S)
  unfolding receive_loop
  sync_receive_timed rounds fuel d timeout w = elim (w.devices d).handle [
    | none ↦ some (not_ready d w)
    | some h ↦
        let (start, s) = os.now w.sys in
        let (t, s') = os.now s in
        receive_loop rounds fuel d h start timeout none (t - start) (record w { sys = s' })
  ]
