-- ===== src/UdpEndpoints/Reconnect.antt =====
-- Connecting and binding the UDP endpoints, also those that are connected.
use transport_cpp.Prelude.{ℕ, ◌≡◌, ◌<◌, Bool, Option, some, length, ap}
use transport_cpp.Types.{ReturnCode, HostAddr, IpVersion}
use transport_cpp.Os.{Os}
use transport_cpp.Os.OpenFiles.{Files}
use transport_cpp.Sockets.{NetOs, hints_of}
use transport_cpp.NetworkDevice.Opening.{
  SocketFiles, create_and_connect_socket-Opened, create_and_bind_socket-Opened,
}
use transport_cpp.Endpoints.{ConnectedHost, NetWorld, sock_dgram, close_endpoint}
use transport_cpp.Endpoints.Reopening.{
  Reopened, without_optional, settled-Reopened, close_endpoint-Closed,
}
use transport_cpp.UdpEndpoints.{
  connect_client, connect_sender, bind_receiver, client_ready_error, sender_ready_error,
  disconnect_client, disconnect_sender, disconnect_receiver, state_of,
}

module _ {S : Type 0} (os : Os S) (net : NetOs S) (is_open : S → ℕ → Bool) (k : Files os is_open)
    (t : SocketFiles net is_open) (fuel d e : ℕ) (v : NetWorld S) where
  -- A run ends, and the endpoint is as `Reopened` says.
  abbrev pub Reopens : ConnectedHost → Option (ReturnCode × NetWorld S) → Type 0
  Reopens host o =
      (r : ReturnCode × NetWorld S) × (o ≡ some r)
      × Reopened is_open d (some e)
          (without_optional (v.world.devices d).handle (is_open v.world.sys)) host r

  -- The fuel is more than the number of addresses of the host.
  abbrev pub EnoughFor : ConnectedHost → Type 0
  EnoughFor host =
      length
        (net.get_addr_info (hints_of host.ip_hint sock_dgram) host.addr
          (close_endpoint os d v).world.sys).0.1
      < fuel

  -- Connecting a client or a sender and binding a receiver, each of which has an engine, end when
  -- the fuel is more than the number of addresses. The handle that the endpoint had is closed. On
  -- success there is one new handle, the endpoint's, it counts as connected, and the host is kept;
  -- on failure it has no handle and does not count as connected, and no handle is left open.
  pub opening-Reopens :
      (host : HostAddr) (ip_hint : IpVersion)
      → (v.world.devices d).engine ≡ some e
      → EnoughFor (record { addr = host; ip_hint = ip_hint })
      → Reopens
          (record { addr = host; ip_hint = ip_hint })
          (connect_client os net fuel d host ip_hint v)
        × Reopens
            (record { addr = host; ip_hint = ip_hint })
            (connect_sender os net fuel d host ip_hint v)
        × Reopens
            (record { addr = host; ip_hint = ip_hint })
            (bind_receiver os net fuel d host ip_hint v)
  unfolding connect_client connect_sender bind_receiver disconnect_client disconnect_sender
      disconnect_receiver close_endpoint
  opening-Reopens host ip_hint loaded f =
      let closed = close_endpoint-Closed os is_open k d e v loaded in
      let connects =
        settled-Reopened is_open d (some e) _ _ _ _ closed (
          create_and_connect_socket-Opened os net is_open k t fuel d host ip_hint sock_dgram _ f) in
      let binds =
        settled-Reopened is_open d (some e) _ _ _ _ closed
          (create_and_bind_socket-Opened os net is_open k t fuel d host ip_hint sock_dgram _ f) in
      (connects, connects, binds)

  -- A run ends, and the state that it leaves is as `Reopened` says, for some return code.
  abbrev pub EndsReopened : ConnectedHost → Option (NetWorld S) → Type 0
  EndsReopened host o =
      (r : ReturnCode × NetWorld S) × (o ≡ some r.1)
      × Reopened is_open d (some e)
          (without_optional (v.world.devices d).handle (is_open v.world.sys)) host r

  state_of-Reopens :
      (host : ConnectedHost) (o : Option (ReturnCode × NetWorld S))
      → Reopens host o
      → EndsReopened host (state_of os net fuel d o)
  state_of-Reopens host o (r, ends, reopened) = (r, ap (state_of os net fuel d) ends, reopened)

  -- An error makes a client and a sender that have an engine connect again to the host that they
  -- had: the call ends when the fuel is more than the number of addresses, the old handle is closed,
  -- and the endpoint either has a new one and counts as connected, or has none and does not.
  pub ready_error-Reopens :
      (v.world.devices d).engine ≡ some e
      → EnoughFor (v.endpoints d).host
      → EndsReopened (v.endpoints d).host (client_ready_error os net fuel d v)
        × EndsReopened (v.endpoints d).host (sender_ready_error os net fuel d v)
  unfolding client_ready_error sender_ready_error
  ready_error-Reopens loaded f =
      let host = (v.endpoints d).host in
      let all = opening-Reopens host.addr host.ip_hint loaded f in
      (state_of-Reopens host _ all.0, state_of-Reopens host _ all.1)
