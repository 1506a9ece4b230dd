-- ===== src/UdpEndpoints.antt =====
-- `UDP::Client`, `UDP::Sender` and `UDP::Receiver` (src/udpclient.cpp, src/udpsender.cpp,
-- src/udpreceiver.cpp and their headers). Log lines are left out; `syncRequestResponse` is in
-- `Endpoints`. `UDP::Broadcaster` has a constructor only.
pub mod Reconnect
pub mod Lifetime
use transport_cpp.Prelude.{ℕ, Bool, false, Option, none, some}
use transport_cpp.Types.{ReturnCode, HostAddr, IpVersion, any, ipv4, ipv6}
use transport_cpp.Os.{Os}
use transport_cpp.World.{World}
use transport_cpp.Devices.{destroy_handle}
use transport_cpp.Sockets.{NetOs}
use transport_cpp.NetworkDevice.Open.{create_and_connect_socket, create_and_bind_socket}
use transport_cpp.Endpoints.{
  ConnectedHost, NetWorld, any_address, sock_dgram, with_world, set_active, close_endpoint, settled,
}

module _ {S : Type 0} where
  -- `isConnected` of all three classes.
  unfoldable pub is_connected : ℕ → NetWorld S → Bool
  is_connected d v = (v.endpoints d).active

  -- `getSetHostAddr` and `getBoundAddr`
  abbrev pub get_set_host_addr : ℕ → NetWorld S → ConnectedHost
  get_set_host_addr d v = (v.endpoints d).host

module _ {S : Type 0} (os : Os S) where
  -- `mIsConnected = false; destroyHandle();`
  unfoldable pub disconnect_client : ℕ → NetWorld S → NetWorld S
  unfolding destroy_handle
  disconnect_client d v =
      let off = set_active d false v in with_world off (destroy_handle os d off.world)

  unfoldable pub disconnect_sender : ℕ → NetWorld S → NetWorld S
  unfolding close_endpoint
  disconnect_sender d v = close_endpoint os d v

  unfoldable pub disconnect_receiver : ℕ → NetWorld S → NetWorld S
  unfolding close_endpoint
  disconnect_receiver d v = close_endpoint os d v

  module _ (net : NetOs S) (fuel d : ℕ) where
    unfoldable pub connect_client :
        HostAddr → IpVersion → NetWorld S → Option (ReturnCode × NetWorld S)
    unfolding disconnect_client create_and_connect_socket
    connect_client host ip_hint v =
        let closed = disconnect_client d v in
        settled d (record { addr = host; ip_hint = ip_hint }) closed
          (create_and_connect_socket os net fuel d host ip_hint sock_dgram closed.world)

    unfoldable pub connect_sender :
        HostAddr → IpVersion → NetWorld S → Option (ReturnCode × NetWorld S)
    unfolding disconnect_sender create_and_connect_socket
    connect_sender host ip_hint v =
        let closed = disconnect_sender d v in
        settled d (record { addr = host; ip_hint = ip_hint }) closed
          (create_and_connect_socket os net fuel d host ip_hint sock_dgram closed.world)

    abbrev pub state_of : Option (ReturnCode × NetWorld S) → Option (NetWorld S)
    state_of none = none
    state_of (some (code, v)) = some v

    -- `readyError`: the client and the sender connect to their host again.
    unfoldable pub client_ready_error : NetWorld S → Option (NetWorld S)
    unfolding connect_client
    client_ready_error v =
        state_of (connect_client (v.endpoints d).host.addr (v.endpoints d).host.ip_hint v)

    unfoldable pub sender_ready_error : NetWorld S → Option (NetWorld S)
    unfolding connect_sender
    sender_ready_error v =
        state_of (connect_sender (v.endpoints d).host.addr (v.endpoints d).host.ip_hint v)

    unfoldable pub bind_receiver :
        HostAddr → IpVersion → NetWorld S → Option (ReturnCode × NetWorld S)
    unfolding disconnect_receiver create_and_bind_socket
    bind_receiver host ip_hint v =
        let closed = disconnect_receiver d v in
        settled d (record { addr = host; ip_hint = ip_hint }) closed
          (create_and_bind_socket os net fuel d host ip_hint sock_dgram closed.world)

    -- The overloads that take a `ConnectedHost` and a port.
    abbrev pub bind_receiver_host : ConnectedHost → NetWorld S → Option (ReturnCode × NetWorld S)
    unfolding bind_receiver
    bind_receiver_host host v = bind_receiver host.addr host.ip_hint v

    abbrev pub bind_receiver_port : ℕ → IpVersion → NetWorld S → Option (ReturnCode × NetWorld S)
    unfolding bind_receiver
    bind_receiver_port port ip_hint v =
        let host = any_address port ip_hint in bind_receiver host.addr host.ip_hint v
