-- ===== src/NetworkDevice/Receive.antt =====
-- Receiving with the sender's address (src/networkdevice.cpp).
use transport_cpp.Prelude.{
  ℕ, zero, suc, if◌then◌else◌, Bool, true, Option, none, some, [], ◌∷◌, ◌++◌, String,
}
use transport_cpp.Types.{ErrorCode, internal, system, Error, Bytes, HostAddr, NetworkMessage}
use transport_cpp.Types.{ReturnCode, ok, nok}
use transport_cpp.Os.{Outcome, value, failed}
use transport_cpp.World.{World, set_error}
use transport_cpp.IoDevice.Receive.{is_no_error, notify_io_callback}
use transport_cpp.Sockets.{NetOs, Peer, inet, inet6, unknown}

-- `RECV_BUFFER_LEN`
abbrev pub recv_buffer_len : ℕ
recv_buffer_len = 65536

abbrev pub no_error : Error
no_error = record { code = internal ErrorCode.no_error; description = "" }

-- `notifyCallback`: the device's own callback first, then that of `IODevice`.
unfoldable pub notify_callback :
    {S : Type 0}
    → (ℕ → NetworkMessage → World S → World S)
    → (ℕ → Bytes → World S → World S)
    → ℕ
    → NetworkMessage
    → World S
    → World S
unfolding notify_io_callback
notify_callback network_callback io_callback d m w =
    notify_io_callback io_callback d m.bytes
      (if (w.net d).has_network_callback then network_callback d m w else w)

module _ {S : Type 0} (net : NetOs S) where
  -- The address of the sender: the port is stored before `inet_ntop` fails, and the text only
  -- after it succeeds.
  abbrev peer_text : String → Outcome String → HostAddr → Error × HostAddr
  peer_text description (failed errno) peer =
      (record { code = system errno; description = description }, peer)
  peer_text description (value ip) peer = (no_error, record peer { ip = ip })

  abbrev read_peer : Peer → HostAddr → Error × HostAddr
  read_peer (inet text port) peer =
      peer_text "Unable to convert peer ipv4 addr to string" text (record peer { port = port })
  read_peer (inet6 text port) peer =
      peer_text "Unable to convert peer ipv6 addr to string" text (record peer { port = port })
  read_peer unknown peer = (
    record { code = internal ErrorCode.general_error; description = "Unknown peer address type" },
    peer,
  )

  -- The `while` loop over the result of the last `recvfrom`; `none` when the fuel is used up.
  unfoldable pub receive_loop : ℕ → ℕ → Bytes → Outcome (Bytes × Peer) × S → Option (Bytes × S)
  receive_loop zero h acc r = none
  receive_loop (suc fuel) h acc (failed errno, s) = some (acc, s)
  receive_loop (suc fuel) h acc (value ([], p), s) = some (acc, s)
  receive_loop (suc fuel) h acc (value (b ∷ bs, p), s) =
      receive_loop fuel h (acc ++ b ∷ bs) (net.recv_from h recv_buffer_len s)

  abbrev received :
      Error → HostAddr → Option (Bytes × S) → World S → Option (Error × NetworkMessage × World S)
  received error peer none w = none
  received error peer (some (bytes, s)) w =
      some (error, record { bytes = bytes; peer = peer }, record w { sys = s })

  abbrev received_from :
      ℕ
      → ℕ
      → Error × HostAddr
      → NetworkMessage
      → Outcome (Bytes × Peer) × S
      → World S
      → Option (Error × NetworkMessage × World S)
  received_from fuel h (error, peer) message r w =
      if is_no_error error.code
      then received error peer (receive_loop fuel h message.bytes r) w
      else some (error, record message { peer = peer }, record w { sys = r.1 })

  abbrev first_received :
      ℕ
      → ℕ
      → NetworkMessage
      → Outcome (Bytes × Peer) × S
      → World S
      → Option (Error × NetworkMessage × World S)
  first_received fuel h message (failed errno, s) w =
      some
        (record { code = system errno; description = "read error" }, message, record w { sys = s })
  first_received fuel h message (value (b, p), s) w =
      received_from fuel h (read_peer p message.peer) message (value (b, p), s) w

  -- `NetworkDevice::receiveMessage`. Without a handle `value()` throws.
  unfoldable pub receive_message :
      ℕ → ℕ → NetworkMessage → World S → Option (Error × NetworkMessage × World S)
  unfolding receive_loop is_no_error
  receive_message fuel d message w = elim (w.devices d).handle [
    | none ↦ some (no_error, message, record w { fault = true })
    | some h ↦ first_received fuel h message (net.recv_from h recv_buffer_len w.sys) w
  ]

  abbrev pub empty_message : NetworkMessage
  empty_message = record { bytes = []; peer = record { ip = ""; port = 0 } }

  module _ (network_callback : ℕ → NetworkMessage → World S → World S)
      (io_callback : ℕ → Bytes → World S → World S) where
    abbrev pub notify_if : ℕ → Option (Error × NetworkMessage × World S) → Option (World S)
    notify_if d none = none
    notify_if d (some (error, m, w)) =
        some
          (if is_no_error error.code then notify_callback network_callback io_callback d m w else w)

    -- `NetworkDevice::readyRead`
    unfoldable pub ready_read : ℕ → ℕ → World S → Option (World S)
    unfolding receive_message is_no_error notify_callback
    ready_read fuel d w = notify_if d (receive_message fuel d empty_message w)

  -- `NetworkDevice::getLocalAddress`: the address goes to `addr`, of which the port is written also
  -- when the text is not.
  abbrev local_text : ℕ → Outcome String → HostAddr → World S → ReturnCode × HostAddr × World S
  local_text d (failed errno) addr w =
      (nok, addr, set_error d (system errno) "Unable to convert binary address to string" w)
  local_text d (value ip) addr w = (ok, record addr { ip = ip }, w)

  abbrev local_peer : ℕ → Peer → HostAddr → World S → ReturnCode × HostAddr × World S
  local_peer d (inet text port) addr w = local_text d text (record addr { port = port }) w
  local_peer d (inet6 text port) addr w = local_text d text (record addr { port = port }) w
  local_peer d unknown addr w =
      (nok, addr, set_error d (internal ErrorCode.general_error) "Unknown address family" w)

  abbrev local_address : ℕ → HostAddr → Outcome Peer × S → World S → ReturnCode × HostAddr × World S
  local_address d addr (failed errno, s) w = (
    nok,
    addr,
    set_error d (system errno) "Unable to get socket addr info" (record w { sys = s }),
  )
  local_address d addr (value p, s) w = local_peer d p addr (record w { sys = s })

  -- `deviceIsReady`, which `ready` stands for, may be overridden.
  unfoldable pub get_local_address :
      (ℕ → World S → Bool) → ℕ → HostAddr → World S → ReturnCode × HostAddr × World S
  get_local_address ready d addr w =
      if ready d w
      then elim (w.devices d).handle [
        | none ↦ (nok, addr, record w { fault = true })
        | some sock ↦ local_address d addr (net.get_sock_name sock w.sys) w
      ]
      else (
        nok,
        addr,
        set_error d (internal ErrorCode.invalid_logic)
            "Device is not ready, unable to get local address" w,
      )
