-- ===== src/NetworkDevice.antt =====
-- `NetworkDevice` (src/networkdevice.cpp, include/transport-cpp/networking/networkdevice.h): the queue
-- of addressed data, receiving with the sender's address, and opening a socket. Log lines are left
-- out.
pub mod Receive
pub mod Open
pub mod Queue
pub mod Sending
pub mod Datagrams
pub mod Opening
pub mod Steady
pub mod Writing
use transport_cpp.Prelude.{
  ℕ, zero, suc, ◌==◌, if◌then◌else◌, Bool, true, false, not, Option, none, some, List, [], ◌∷◌,
  ◌++◌, String, update, tail,
}
use transport_cpp.Text.{joined}
use transport_cpp.Types.{
  ReturnCode, ok, nok, ErrorCode, DeviceError, internal, system, Error, Bytes, IoDataChoice,
  IpVersion, HostAddr, NetworkMessage, OutgoingMessage, NetPart,
}
use transport_cpp.Os.{Os, Outcome, value, failed}
use transport_cpp.World.{World, set_error}
use transport_cpp.Devices.{request_write}
use transport_cpp.IoDevice.{
  Virtual, data_ptr, io_data_choice_valid, is_valid_for_outgoing_async, register_new_handle,
}
use transport_cpp.IoDevice
use transport_cpp.Sockets.{NetOs, Address, AddrInfo, hints_of, load_hints, next}

module _ {S : Type 0} where
  abbrev pub set_net : ℕ → NetPart → World S → World S
  set_net d r w = record w { net = update w.net d r }

  -- `setGenericNetworkCallback`, with whether the function that is given is one.
  abbrev pub set_generic_network_callback : ℕ → Bool → World S → World S
  set_generic_network_callback d callable w =
      set_net d (record (w.net d) { has_network_callback = callable }) w

  abbrev pub refuse : ℕ → String → World S → ReturnCode × World S
  refuse d description w = (nok, set_error d (internal ErrorCode.invalid_logic) description w)

  abbrev enqueue_to : ℕ → OutgoingMessage → World S → ReturnCode × World S
  enqueue_to d m w = (
    ok,
    request_write d (set_net d (record (w.net d) { outgoing = (w.net d).outgoing ++ m ∷ [] }) w),
  )

  -- The three overloads of `sendTo`, which differ in the kind of pointer only.
  unfoldable pub send_to : ℕ → HostAddr → IoDataChoice → IpVersion → World S → ReturnCode × World S
  unfolding is_valid_for_outgoing_async io_data_choice_valid
  send_to d dest message ip_hint w =
      let (loaded, w1) = is_valid_for_outgoing_async d w in
      if not loaded
      then (nok, w1)
      else if not (io_data_choice_valid message)
      then refuse d "Provided data has not been initialised" w1
      else enqueue_to d (record { addr = dest; message = message; ip_hint = ip_hint }) w1

  module _ (net : NetOs S) where
    abbrev pub unresolved : ℕ → ℕ → World S → ReturnCode × World S
    unresolved d status w = (
      nok,
      set_error d (internal ErrorCode.general_error)
          (joined "unable to get address information: " (net.gai_strerror status)) w,
    )

    abbrev pub no_addresses : ℕ → World S → ReturnCode × World S
    no_addresses d w =
        (nok, set_error d (internal ErrorCode.general_error) "No addresses return in getaddrinfo" w)

    abbrev pub after_send : ℕ → Outcome ℕ × S → World S → ReturnCode × World S
    after_send d (failed errno, s) w = (
      nok,
      set_error d (system errno) "System error returned when performing a sendTo"
          (record w { sys = s }),
    )
    after_send d (value n, s) w = (ok, record w { sys = s })

    abbrev pub send_bytes : ℕ → ℕ → Option Bytes → Address → World S → ReturnCode × World S
    send_bytes d sock none a w = (nok, record w { fault = true })
    send_bytes d sock (some b) a w = after_send d (net.send_to sock b a.addr w.sys) w

    abbrev pub send_first : ℕ → ℕ → IoDataChoice → Option Address → World S → ReturnCode × World S
    send_first d sock message none w = no_addresses d w
    send_first d sock message (some a) w = send_bytes d sock (data_ptr message w) a w

    abbrev pub send_resolved :
        ℕ → ℕ → IoDataChoice → ℕ × AddrInfo × S → World S → ReturnCode × World S
    send_resolved d sock message (status, info, s) w =
        let u = record w { sys = s } in
        if status == 0 then send_first d sock message (next info).0 u else unresolved d status u

    -- `NetworkDevice::performSendTo`
    unfoldable pub perform_send_to :
        ℕ → HostAddr → IoDataChoice → IpVersion → World S → ReturnCode × World S
    unfolding load_hints next data_ptr
    perform_send_to d dest message ip_hint w = elim (w.devices d).handle [
      | none ↦ refuse d "Cannot send without first initialising a socket" w
      | some sock ↦ send_resolved d sock message (load_hints net (hints_of ip_hint 0) dest w.sys) w
    ]

    unfoldable pub sync_send_to :
        ℕ → HostAddr → IoDataChoice → IpVersion → World S → ReturnCode × World S
    unfolding perform_send_to io_data_choice_valid
    sync_send_to d dest message ip_hint w =
        if not (io_data_choice_valid message)
        then refuse d "Provided data has not been initialised" w
        else perform_send_to d dest message ip_hint w

    -- `mOutgoingQueue.pop(); requestWrite();`
    abbrev pub pop_and_request : ℕ → World S → World S
    pop_and_request d w =
        request_write d (set_net d (record (w.net d) { outgoing = tail (w.net d).outgoing }) w)

    abbrev pub write_queued : Virtual S → ℕ → List OutgoingMessage → World S → World S
    write_queued v d [] w = IoDevice.ready_write v d w
    write_queued v d (m ∷ rest) w =
        pop_and_request d (perform_send_to d m.addr m.message m.ip_hint w).1

    -- `NetworkDevice::readyWrite`
    unfoldable pub ready_write : Virtual S → ℕ → World S → World S
    unfolding perform_send_to IoDevice.ready_write
    ready_write v d w = write_queued v d (w.net d).outgoing w
