-- ===== src/IoDevice.antt =====
-- `IODevice` (src/iodevice.cpp, include/transport-cpp/iodevice.h): the queue of outgoing data, the
-- blocking send, and what the event loop calls. Log lines are left out. A call of a method that a
-- subclass may override goes through `Virtual`; the user's callbacks are a parameter.
pub mod Receive
pub mod Queue
pub mod Write
pub mod Reading
pub mod Timed
pub mod Waiting
pub mod Stable
pub mod Opening
use Prim.Native.Nat.{bit_or}
use transport_cpp.Prelude.{
  ℕ, zero, suc, ◌==◌, if◌then◌else◌, Bool, true, false, not, ◌&&◌, Option, none, some, is_some,
  List, [], ◌∷◌, ◌++◌, String, update, tail,
}
use transport_cpp.Int.{ℤ, pos, negsuc}
use transport_cpp.Types.{
  ReturnCode, ok, nok, passable, ErrorCode, DeviceError, internal, system, Error, PollFd, Bytes,
  IoDataChoice, shared, plain, unique, IoPart, pollin, pollout, pollerr, pollhup, pollrdhup,
}
use transport_cpp.Os.{Os, Outcome, value, failed}
use transport_cpp.World.{World, Device, set_error}
use transport_cpp.Registry.{deload_engine}
use transport_cpp.Devices
use transport_cpp.Devices.{request_read, request_write, close_handle}

-- The methods that are called on `this` and may be overridden.
pub record Virtual (S : Type 0) : Type 0 where
  pub device_is_ready : ℕ → World S → Bool
  pub ready_error : ℕ → World S → World S
  pub ready_hangup : ℕ → World S → World S
  pub ready_peer_disconnect : ℕ → World S → World S
  pub perform_sync_send : ℕ → IoDataChoice → World S → ReturnCode × World S

-- A pointer that is not null.
unfoldable pub io_data_choice_valid : IoDataChoice → Bool
io_data_choice_valid (shared p) = is_some p
io_data_choice_valid (plain b) = true
io_data_choice_valid (unique p) = is_some p

-- The events of the one entry that was polled.
abbrev pub first_revents : List PollFd → ℕ
first_revents [] = 0
first_revents (p ∷ ps) = p.revents

abbrev pub send_entry : ℕ → PollFd
send_entry h = record { fd = h; events = pollout; revents = 0 }

module _ {S : Type 0} where
  abbrev pub set_io : ℕ → IoPart → World S → World S
  set_io d r w = record w { io = update w.io d r }

  -- `IODevice::setIODataCallback`, with whether the function that is given is one, and the virtual
  -- `ioDataCallbackSet`, which `hook` stands for.
  abbrev pub set_io_data_callback : (ℕ → World S → World S) → ℕ → Bool → World S → World S
  set_io_data_callback hook d callable w =
      hook d (set_io d (record (w.io d) { has_callback = callable }) w)

  -- The bytes that `data_ptr` points to; `none` where it is null.
  unfoldable pub data_ptr : IoDataChoice → World S → Option Bytes
  data_ptr (shared none) w = none
  data_ptr (shared (some p)) w = some (w.heap p)
  data_ptr (plain b) w = some b
  data_ptr (unique p) w = p

  -- `IODevice::deviceIsReady`
  unfoldable pub device_is_ready : ℕ → World S → Bool
  device_is_ready d w = is_some (w.devices d).handle

  unfoldable pub is_valid_for_outgoing_async : ℕ → World S → Bool × World S
  is_valid_for_outgoing_async d w = if is_some (w.devices d).engine then (true, w) else (
    false,
    set_error d (internal ErrorCode.invalid_logic)
        "Asynchronous sends can only be performed when a device is loaded into an engine. Message will be dropped"
        w,
  )

  -- `mIOOutgoingQueue.emplace(data); requestWrite(); return OK`
  abbrev enqueue : ℕ → IoDataChoice → World S → ReturnCode × World S
  enqueue d message w = (
    ok,
    request_write d (set_io d (record (w.io d) { queue = (w.io d).queue ++ message ∷ [] }) w),
  )

  -- The three overloads of `asyncSend`, which differ in the kind of pointer only.
  unfoldable pub async_send : Virtual S → ℕ → IoDataChoice → World S → ReturnCode × World S
  unfolding is_valid_for_outgoing_async io_data_choice_valid
  async_send v d message w =
      let (loaded, w1) = is_valid_for_outgoing_async d w in
      if not loaded && not (v.device_is_ready d w1)
      then (
        nok,
        set_error d (internal ErrorCode.invalid_logic)
            "Device is not ready or is not valid for async" w1,
      )
      else if not (io_data_choice_valid message)
      then (
        nok,
        set_error d (internal ErrorCode.invalid_logic) "Provided data has not been initialised" w1,
      )
      else enqueue d message w1

  unfoldable pub sync_send : Virtual S → ℕ → IoDataChoice → World S → ReturnCode × World S
  sync_send v d message w =
      if not (io_data_choice_valid message)
      then (
        nok,
        set_error d (internal ErrorCode.invalid_logic) "Provided data has not been initialised" w,
      )
      else if not (v.device_is_ready d w)
      then (nok, set_error d (internal ErrorCode.invalid_logic) "Device is not ready" w)
      else v.perform_sync_send d message w

  module _ (os : Os S) where
    -- The result of `write`; how much was written is not looked at.
    abbrev pub after_write : ℕ → Outcome ℕ × S → World S → ReturnCode × World S
    after_write d (failed errno, s) w = (
      nok,
      set_error d (system errno) "Unable to write to provided file descriptor"
          (record w { sys = s }),
    )
    after_write d (value n, s) w = (ok, request_read d (record w { sys = s }))

    abbrev pub write_bytes : ℕ → ℕ → Option Bytes → World S → ReturnCode × World S
    write_bytes d h none w = (nok, record w { fault = true })
    write_bytes d h (some b) w = after_write d (os.write h b w.sys) w

  module _ (os : Os S) (v : Virtual S) where
    abbrev pub send_ready : ℕ → ℕ → ℕ → IoDataChoice → World S → ReturnCode × World S
    send_ready revents d h message w =
        if revents == pollerr
        then (
          nok,
          set_error d (internal ErrorCode.poll_error) "Poll had an error" (v.ready_error d w),
        )
        else if revents == pollhup
        then (nok, set_error d (internal ErrorCode.poll_error) "Peer hung up" (v.ready_hangup d w))
        else if revents == pollrdhup
        then (
          nok,
          set_error d (internal ErrorCode.poll_error) "Peer disconnected"
              (v.ready_peer_disconnect d w),
        )
        else write_bytes os d h (data_ptr message w) w

    abbrev pub send_polled :
        ℕ → ℕ → IoDataChoice → Outcome ℕ × List PollFd × S → World S → ReturnCode × World S
    send_polled d h message (failed errno, fds, s) w = (
      nok,
      set_error d (system errno) "Device cannot be polled for pollout" (record w { sys = s }),
    )
    send_polled d h message (value zero, fds, s) w = (
      nok,
      set_error d (internal ErrorCode.poll_error)
          "Poll returned 0 available devices for a forever timeout on sync send"
          (record w { sys = s }),
    )
    send_polled d h message (value (suc n), fds, s) w =
        send_ready (first_revents fds) d h message (record w { sys = s })

    -- `IODevice::performSyncSend`
    unfoldable pub perform_sync_send : ℕ → IoDataChoice → World S → ReturnCode × World S
    unfolding data_ptr
    perform_sync_send d message w = elim (w.devices d).handle [
      | none ↦ (
        nok,
        set_error d (internal ErrorCode.device_not_ready)
            "Device has not been configured yet. Unable to send. Dropping message" w,
      )
      | some h ↦ send_polled d h message (os.poll (send_entry h ∷ []) (negsuc 0) w.sys) w
    ]

  -- `mIOOutgoingQueue.pop()`
  abbrev pub pop_queue : ℕ → World S → World S
  pop_queue d w = set_io d (record (w.io d) { queue = tail (w.io d).queue }) w

  abbrev pub write_front : Virtual S → ℕ → List IoDataChoice → World S → World S
  write_front v d [] w = request_read d w
  write_front v d (message ∷ rest) w =
      if is_some (w.devices d).handle
      then request_write d (pop_queue d (v.perform_sync_send d message w).1)
      else w

  -- `IODevice::readyWrite`
  unfoldable pub ready_write : Virtual S → ℕ → World S → World S
  ready_write v d w = write_front v d (w.io d).queue w

-- `O_NONBLOCK`
abbrev pub o_nonblock : ℕ
o_nonblock = 2048

module _ {S : Type 0} (os : Os S) where
  abbrev pub add_nonblock : ℕ → Outcome ℕ × S → World S → World S
  add_nonblock h (failed errno, s) w = record w { sys = s }
  add_nonblock h (value flags, s) w = record w {
    sys = (os.set_flags h (bit_or flags o_nonblock) s).1;
  }

  abbrev set_nonblock : Option ℕ → World S → World S
  set_nonblock none w = w
  set_nonblock (some h) w = add_nonblock h (os.get_flags h w.sys) w

  -- `IODevice::registerNewHandle`
  unfoldable pub register_new_handle : ℕ → Option ℕ → World S → World S
  register_new_handle d handle w = set_nonblock handle (Devices.register_new_handle d handle w)

  -- `~IODevice`, and `~Device` after it.
  unfoldable pub destroy_io_device : ℕ → World S → World S
  destroy_io_device d w = Devices.destroy_device d (close_handle os d w)
