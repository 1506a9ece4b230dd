-- ===== src/TcpClient.antt =====
-- `TCP::Client` (src/tcpclient.cpp, include/transport-cpp/networking/tcpclient.h). Log lines are left
-- out; `syncRequestResponse` is in `Endpoints`.
pub mod Reading
pub mod Reconnect
pub mod Handling
pub mod Writing
pub mod Lifetime
use transport_cpp.Prelude.{ℕ, if◌then◌else◌, Bool, true, false, Option, none, some, List, [], ◌∷◌}
use transport_cpp.Types.{ReturnCode, Bytes, HostAddr, IpVersion, NetworkMessage}
use transport_cpp.Os.{Os}
use transport_cpp.World.{World}
use transport_cpp.Sockets.{NetOs}
use transport_cpp.IoDevice.Receive.{ReadData, read_io_data, is_no_error}
use transport_cpp.NetworkDevice.Open.{create_and_connect_socket}
use transport_cpp.Endpoints.{
  ConnectedHost, Endpoint, NetWorld, Handlers, sock_stream, with_world, set_endpoint,
  close_endpoint, settled, notify,
}

module _ {S : Type 0} where
  -- `setDisconnectNotification`, with whether the function that is given is one.
  abbrev pub set_disconnect_notification : ℕ → Bool → NetWorld S → NetWorld S
  set_disconnect_notification d callable v =
      set_endpoint d (record (v.endpoints d) { has_disconnect_handler = callable }) v

  module _ (os : Os S) where
    unfoldable pub disconnect : ℕ → NetWorld S → NetWorld S
    unfolding close_endpoint
    disconnect d v = close_endpoint os d v

    module _ (net : NetOs S) where
      unfoldable pub connect_to_host :
          ℕ → ℕ → HostAddr → IpVersion → NetWorld S → Option (ReturnCode × NetWorld S)
      unfolding disconnect create_and_connect_socket
      connect_to_host fuel d host ip_hint v =
          let closed = disconnect d v in
          settled d (record { addr = host; ip_hint = ip_hint }) closed
            (create_and_connect_socket os net fuel d host ip_hint sock_stream closed.world)

      -- The overload that takes a `ConnectedHost`.
      abbrev pub connect_to_stored :
          ℕ → ℕ → ConnectedHost → NetWorld S → Option (ReturnCode × NetWorld S)
      unfolding connect_to_host
      connect_to_stored fuel d host v = connect_to_host fuel d host.addr host.ip_hint v

    module _ (h : Handlers S) where
      abbrev notify_of_disconnect : ℕ → NetWorld S → NetWorld S
      notify_of_disconnect d v =
          if (v.endpoints d).has_disconnect_handler then h.disconnected d v else v

      -- `mIsConnected = false; destroyHandle(); notifyOfDisconnect();`
      unfoldable pub peer_disconnected : ℕ → NetWorld S → NetWorld S
      unfolding close_endpoint
      peer_disconnected d v = notify_of_disconnect d (close_endpoint os d v)

      abbrev pub message_read : ℕ → ReadData → NetWorld S → NetWorld S
      unfolding peer_disconnected is_no_error notify
      message_read d r v = elim r.bytes [
        | [] ↦ peer_disconnected d v
        | b ∷ bs ↦
            if is_no_error r.error.code
            then notify h d (record { bytes = b ∷ bs; peer = (v.endpoints d).host.addr }) v
            else v
      ]

      abbrev pub after_read : ℕ → NetWorld S → Option (ReadData × World S) → Option (NetWorld S)
      unfolding message_read
      after_read d v none = none
      after_read d v (some (r, w)) = some (message_read d r (with_world v w))

      unfoldable pub ready_read : ℕ → ℕ → NetWorld S → Option (NetWorld S)
      unfolding after_read read_io_data
      ready_read fuel d v = after_read d v (read_io_data os fuel d v.world)

      unfoldable pub ready_hangup : ℕ → NetWorld S → NetWorld S
      unfolding peer_disconnected
      ready_hangup d v = peer_disconnected d v

      unfoldable pub ready_peer_disconnect : ℕ → NetWorld S → NetWorld S
      unfolding peer_disconnected
      ready_peer_disconnect d v = peer_disconnected d v
