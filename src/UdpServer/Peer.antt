-- ===== src/UdpServer/Peer.antt =====
-- Sending through a `UDP::Peer` (src/udpserver.cpp), which uses its server's socket.
use transport_cpp.Prelude.{ℕ, Bool, none, some}
use transport_cpp.Types.{
  ReturnCode, nok, ErrorCode, internal, HostAddr, IpVersion, any, IoDataChoice,
}
use transport_cpp.World.{set_error}
use transport_cpp.NetworkDevice
use transport_cpp.Sockets.{NetOs}
use transport_cpp.UdpServer.{UdpWorld, set_peer, in_world, code_in}

module _ {S : Type 0} where
  -- `setMessageHandler`, with whether the function that is given is one.
  abbrev pub set_message_handler : ℕ → Bool → UdpWorld S → UdpWorld S
  set_message_handler p callable u =
      set_peer p (record (u.peers p) { has_message_handler = callable }) u

  abbrev pub get_peer_address : ℕ → UdpWorld S → HostAddr
  get_peer_address p u = (u.peers p).address

  unfoldable pub is_valid : ℕ → UdpWorld S → Bool
  is_valid p u = (u.peers p).valid

  abbrev pub needs_server : ℕ → UdpWorld S → ReturnCode × UdpWorld S
  needs_server p u = (
    nok,
    in_world u (
        set_error p (internal ErrorCode.device_not_ready)
          "This peer requires a valid server instance" u.net.world),
  )

  -- The three overloads of `sendTo`, which differ in the kind of pointer only.
  unfoldable pub send_to :
      ℕ → HostAddr → IoDataChoice → IpVersion → UdpWorld S → ReturnCode × UdpWorld S
  unfolding NetworkDevice.send_to
  send_to p dest message ip_hint u = elim (u.peers p).server [
    | none ↦ needs_server p u
    | some d ↦ code_in u (NetworkDevice.send_to d dest message ip_hint u.net.world)
  ]

  unfoldable pub sync_send_to :
      NetOs S → ℕ → HostAddr → IoDataChoice → IpVersion → UdpWorld S → ReturnCode × UdpWorld S
  unfolding NetworkDevice.sync_send_to
  sync_send_to net p dest message ip_hint u = elim (u.peers p).server [
    | none ↦ needs_server p u
    | some d ↦ code_in u (NetworkDevice.sync_send_to net d dest message ip_hint u.net.world)
  ]

  -- The three overloads of `asyncSend`, to the peer's own address.
  unfoldable pub async_send : ℕ → IoDataChoice → UdpWorld S → ReturnCode × UdpWorld S
  unfolding send_to
  async_send p message u = send_to p (u.peers p).address message any u

  unfoldable pub sync_send : NetOs S → ℕ → IoDataChoice → UdpWorld S → ReturnCode × UdpWorld S
  unfolding sync_send_to
  sync_send net p message u = sync_send_to net p (u.peers p).address message any u
