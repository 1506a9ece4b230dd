-- ===== src/Endpoints/Exchange.antt =====
-- Sending at once from an endpoint (src/iodevice.cpp), where what the endpoint does on an error, a
-- hangup or a disconnect reaches its own fields and the user's handlers, and `syncRequestResponse` of
-- the clients (src/tcpclient.cpp, src/udpclient.cpp).
use transport_cpp.Prelude.{
  ℕ, zero, suc, ◌==◌, if◌then◌else◌, not, Option, none, some, List, [], ◌∷◌, String,
}
use transport_cpp.Int.{ℤ, negsuc}
use transport_cpp.Types.{
  ReturnCode, nok, ErrorCode, DeviceError, internal, system, PollFd, Bytes, IoDataChoice, plain,
  pollerr, pollhup, pollrdhup,
}
use transport_cpp.Os.{Os, Outcome, value, failed}
use transport_cpp.World.{World, set_error}
use transport_cpp.IoDevice.{
  io_data_choice_valid, device_is_ready, data_ptr, send_entry, first_revents, write_bytes,
}
use transport_cpp.IoDevice.Receive.{ReceivedData, sync_receive, sync_receive_timed}
use transport_cpp.Endpoints.{NetWorld, with_world}

-- What a class does when it is polled for an error, a hangup or a disconnect. Reconnecting, which
-- some do on an error, may use up its fuel.
pub record Hooks (S : Type 0) : Type 0 where
  pub ready_error : ℕ → NetWorld S → Option (NetWorld S)
  pub ready_hangup : ℕ → NetWorld S → NetWorld S
  pub ready_peer_disconnect : ℕ → NetWorld S → NetWorld S

module _ {S : Type 0} where
  abbrev pub fail : ℕ → DeviceError → String → NetWorld S → ReturnCode × NetWorld S
  fail d code description v = (nok, with_world v (set_error d code description v.world))

  abbrev pub hooked : ℕ → String → Option (NetWorld S) → Option (ReturnCode × NetWorld S)
  hooked d description none = none
  hooked d description (some v) = some (fail d (internal ErrorCode.poll_error) description v)

  abbrev pub lifted : NetWorld S → ReturnCode × World S → ReturnCode × NetWorld S
  lifted v (code, w) = (code, with_world v w)

  module _ (os : Os S) (hooks : Hooks S) where
    abbrev pub send_ready : ℕ → ℕ → ℕ → IoDataChoice → NetWorld S → Option (ReturnCode × NetWorld S)
    send_ready revents d h message v =
        if revents == pollerr
        then hooked d "Poll had an error" (hooks.ready_error d v)
        else if revents == pollhup
        then hooked d "Peer hung up" (some (hooks.ready_hangup d v))
        else if revents == pollrdhup
        then hooked d "Peer disconnected" (some (hooks.ready_peer_disconnect d v))
        else some (lifted v (write_bytes os d h (data_ptr message v.world) v.world))

    abbrev pub send_polled :
        ℕ
        → ℕ
        → IoDataChoice
        → Outcome ℕ × List PollFd × S
        → NetWorld S
        → Option (ReturnCode × NetWorld S)
    send_polled d h message (failed errno, fds, s) v = some (
        fail d (system errno) "Device cannot be polled for pollout"
          (with_world v (record v.world { sys = s })))
    send_polled d h message (value zero, fds, s) v = some (
        fail d (internal ErrorCode.poll_error)
          "Poll returned 0 available devices for a forever timeout on sync send"
          (with_world v (record v.world { sys = s })))
    send_polled d h message (value (suc n), fds, s) v =
        send_ready (first_revents fds) d h message (with_world v (record v.world { sys = s }))

    unfoldable pub perform_sync_send :
        ℕ → IoDataChoice → NetWorld S → Option (ReturnCode × NetWorld S)
    unfolding data_ptr
    perform_sync_send d message v = elim (v.world.devices d).handle [
      | none ↦ some (
          fail d (internal ErrorCode.device_not_ready)
            "Device has not been configured yet. Unable to send. Dropping message" v)
      | some h ↦ send_polled d h message (os.poll (send_entry h ∷ []) (negsuc 0) v.world.sys) v
    ]

    unfoldable pub sync_send : ℕ → IoDataChoice → NetWorld S → Option (ReturnCode × NetWorld S)
    unfolding io_data_choice_valid device_is_ready perform_sync_send
    sync_send d message v =
        if not (io_data_choice_valid message)
        then some
            (fail d (internal ErrorCode.invalid_logic) "Provided data has not been initialised" v)
        else if not (device_is_ready d v.world)
        then some (fail d (internal ErrorCode.invalid_logic) "Device is not ready" v)
        else perform_sync_send d message v

    abbrev pub received :
        NetWorld S → Option (ReceivedData × World S) → Option (ReceivedData × NetWorld S)
    received v none = none
    received v (some (r, w)) = some (r, with_world v w)

    abbrev pub after_request :
        (World S → Option (ReceivedData × World S))
        → Option (ReturnCode × NetWorld S)
        → Option (ReceivedData × NetWorld S)
    after_request receive none = none
    after_request receive (some (nok, v)) = some (record { code = nok; bytes = none }, v)
    after_request receive (some (_, v)) = received v (receive v.world)

    -- `syncRequestResponse` of the TCP and of the UDP client.
    unfoldable pub sync_request_response :
        ℕ → ℕ → Bytes → NetWorld S → Option (ReceivedData × NetWorld S)
    unfolding sync_send sync_receive
    sync_request_response fuel d bytes v =
        after_request (sync_receive os fuel d) (sync_send d (plain bytes) v)

    -- The overload with a timeout.
    unfoldable pub sync_request_response_timed :
        ℕ → ℕ → ℕ → Bytes → ℤ → NetWorld S → Option (ReceivedData × NetWorld S)
    unfolding sync_send sync_receive_timed
    sync_request_response_timed rounds fuel d bytes timeout v =
        after_request (sync_receive_timed os rounds fuel d timeout) (sync_send d (plain bytes) v)
