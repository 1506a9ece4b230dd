-- ===== src/Multicaster/Send.antt =====
-- `readyWrite` and `performSyncSend` of the multicaster (src/udpmulticaster.cpp), which send to the
-- group that was published last. Errors, hangups and disconnects that are polled are only logged.
use transport_cpp.Prelude.{
  ℕ, zero, suc, ◌==◌, if◌then◌else◌, Option, none, some, List, [], ◌∷◌, tail,
}
use transport_cpp.Int.{negsuc}
use transport_cpp.Types.{
  ReturnCode, ok, ErrorCode, internal, system, PollFd, Bytes, IoDataChoice, pollerr, pollhup,
  pollrdhup,
}
use transport_cpp.Os.{Os, Outcome, value, failed}
use transport_cpp.Devices.{request_write}
use transport_cpp.IoDevice.{Virtual, data_ptr, send_entry, first_revents, set_io}
use transport_cpp.NetworkDevice
use transport_cpp.Sockets.{NetOs}
use transport_cpp.Multicaster.{CasterWorld, in_world, fail, crash}

-- A null address has no bytes.
abbrev address_bytes : Option Bytes → Bytes
address_bytes none = []
address_bytes (some b) = b

module _ {S : Type 0} (net : NetOs S) where
  -- `sendto` to the published group, without its result.
  abbrev send_group : ℕ → ℕ → Bytes → CasterWorld S → Outcome ℕ × S
  send_group d sock b u =
      net.send_to sock b (address_bytes (u.casters d).published_sock_addr) u.world.sys

  abbrev pop_and_request : ℕ → CasterWorld S → CasterWorld S
  pop_and_request d u = in_world u (
      request_write d
        (set_io d (record (u.world.io d) { queue = tail (u.world.io d).queue }) u.world))

  abbrev write_front : ℕ → Option ℕ → Option Bytes → CasterWorld S → CasterWorld S
  write_front d none b u = (crash u).1
  write_front d (some sock) none u = (crash u).1
  write_front d (some sock) (some b) u =
      pop_and_request d (in_world u (record u.world { sys = (send_group d sock b u).1 }))

  unfoldable pub write_queued : Virtual S → ℕ → List IoDataChoice → CasterWorld S → CasterWorld S
  unfolding NetworkDevice.ready_write data_ptr
  write_queued v d [] u = in_world u (NetworkDevice.ready_write net v d u.world)
  write_queued v d (m ∷ rest) u = write_front d (u.world.devices d).handle (data_ptr m u.world) u

  -- `readyWrite`
  unfoldable pub ready_write : Virtual S → ℕ → CasterWorld S → CasterWorld S
  unfolding write_queued
  ready_write v d u = write_queued v d (u.world.io d).queue u

  abbrev after_send : ℕ → Outcome ℕ × S → CasterWorld S → ReturnCode × CasterWorld S
  after_send d (failed errno, s) u =
      fail d (system errno) "Unable to write to provided file descriptor"
        (in_world u (record u.world { sys = s }))
  after_send d (value n, s) u = (ok, in_world u (record u.world { sys = s }))

  abbrev send_bytes : ℕ → ℕ → Option Bytes → CasterWorld S → ReturnCode × CasterWorld S
  send_bytes d sock none u = crash u
  send_bytes d sock (some b) u = after_send d (send_group d sock b u) u

  abbrev send_ready : ℕ → ℕ → ℕ → IoDataChoice → CasterWorld S → ReturnCode × CasterWorld S
  unfolding data_ptr
  send_ready revents d sock m u =
      if revents == pollerr
      then fail d (internal ErrorCode.poll_error) "Poll had an error" u
      else if revents == pollhup
      then fail d (internal ErrorCode.poll_error) "Peer hung up" u
      else if revents == pollrdhup
      then fail d (internal ErrorCode.poll_error) "Peer disconnected" u
      else send_bytes d sock (data_ptr m u.world) u

  abbrev send_polled :
      ℕ
      → ℕ
      → IoDataChoice
      → Outcome ℕ × List PollFd × S
      → CasterWorld S
      → ReturnCode × CasterWorld S
  unfolding send_ready
  send_polled d sock m (failed errno, fds, s) u =
      fail d (system errno) "Device cannot be polled for pollout"
        (in_world u (record u.world { sys = s }))
  send_polled d sock m (value zero, fds, s) u =
      fail d (internal ErrorCode.poll_error)
        "Poll returned 0 available devices for a forever timeout on sync send"
        (in_world u (record u.world { sys = s }))
  send_polled d sock m (value (suc n), fds, s) u =
      send_ready (first_revents fds) d sock m (in_world u (record u.world { sys = s }))

  -- `performSyncSend`
  unfoldable pub perform_sync_send :
      Os S → ℕ → IoDataChoice → CasterWorld S → ReturnCode × CasterWorld S
  unfolding send_polled
  perform_sync_send os d m u = elim (u.world.devices d).handle [
    | none ↦
        fail d (internal ErrorCode.device_not_ready)
          "Device has not been configured yet. Unable to send. Dropping message" u
    | some sock ↦ send_polled d sock m (os.poll (send_entry sock ∷ []) (negsuc 0) u.world.sys) u
  ]
