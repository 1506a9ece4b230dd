-- ===== src/TcpClient/Reconnect.antt =====
-- Connecting a TCP client, also one that is connected.
use transport_cpp.Prelude.{ℕ, ◌≡◌, ◌<◌, Bool, some, length}
use transport_cpp.Types.{ReturnCode, HostAddr, IpVersion}
use transport_cpp.Os.{Os}
use transport_cpp.Os.OpenFiles.{Files}
use transport_cpp.Sockets.{NetOs, hints_of}
use transport_cpp.NetworkDevice.Opening.{SocketFiles, create_and_connect_socket-Opened}
use transport_cpp.Endpoints.{NetWorld, sock_stream}
use transport_cpp.Endpoints.Reopening.{
  Reopened, without_optional, settled-Reopened, close_endpoint-Closed,
}
use transport_cpp.TcpClient.{connect_to_host, disconnect}

module _ {S : Type 0} (os : Os S) (net : NetOs S) (is_open : S → ℕ → Bool) (k : Files os is_open)
    (t : SocketFiles net is_open) where
  -- `connectToHost` of a client with an engine ends when the fuel is more than the number of
  -- addresses. The handle that the client had is closed. On success there is one new handle, the
  -- client's, it counts as connected, and the host is kept; on failure it has no handle and does not
  -- count as connected, and no handle is left open.
  pub connect_to_host-Reopened :
      (fuel d e : ℕ) (host : HostAddr) (ip_hint : IpVersion) (v : NetWorld S)
      → (v.world.devices d).engine ≡ some e
      → length
          (net.get_addr_info (hints_of ip_hint sock_stream) host (disconnect os d v).world.sys).0.1
        < fuel
      → (r : ReturnCode × NetWorld S) × (connect_to_host os net fuel d host ip_hint v ≡ some r)
        × Reopened is_open d
            (some e)
            (without_optional (v.world.devices d).handle (is_open v.world.sys))
            (record { addr = host; ip_hint = ip_hint })
            r
  unfolding connect_to_host disconnect
  connect_to_host-Reopened fuel d e host ip_hint v loaded f =
      settled-Reopened is_open d (some e) _ _ _ _ (close_endpoint-Closed os is_open k d e v loaded)
        (create_and_connect_socket-Opened os net is_open k t fuel d host ip_hint sock_stream _ f)
