-- ===== src/UdpServer/Arrivals.antt =====
-- A server of UDP reads all the datagrams that are waiting.
use transport_cpp.Prelude.{
  ℕ, ◌+◌, ◌<◌, ◌≡◌, ◌≢◌, false, some, List, [], ◌∷◌, length, mem, ap, String,
}
use transport_cpp.Types.{Bytes, NetworkMessage}
use transport_cpp.Os.{value}
use transport_cpp.Sockets.{NetOs, inet}
use transport_cpp.IoDevice.Reading.{concat}
use transport_cpp.IoDevice.Receive.{is_no_error}
use transport_cpp.NetworkDevice.Receive.{recv_buffer_len}
use transport_cpp.NetworkDevice.Datagrams.{Arrive, receive_message-Arrive}
use transport_cpp.UdpServer.{UdpWorld, in_world}
use transport_cpp.UdpServer.Receive.{UdpHandlers, route, after_receive, ready_read}
use transport_cpp.UdpServer.Table.{KeepTable, DistinctHosts}
use transport_cpp.UdpServer.Routing.{route-DistinctHosts}

module _ {S : Type 0} (h : UdpHandlers S) (d : ℕ) (k : KeepTable d h) (net : NetOs S) where
  ready_read-route :
      (fuel fd port p : ℕ) (ip : String) (c : Bytes) (cs : List Bytes) (u : UdpWorld S) (s end : S)
      → (u.net.world.devices d).handle ≡ some fd
      → length cs + 1 < fuel
      → net.recv_from fd recv_buffer_len u.net.world.sys ≡ (value (c, inet (value ip) port), s)
      → c ≢ []
      → Arrive net fd cs (net.recv_from fd recv_buffer_len s) end
      → ready_read h net fuel d p u
        ≡ some (
            route h d p
              (record { bytes = concat (c ∷ cs); peer = record { ip = ip; port = port } })
              (in_world u (record u.net.world { sys = end })))
  unfolding ready_read after_receive is_no_error
  ready_read-route fuel fd port p ip c cs u s end has f first some_c rest =
      ap (after_receive h net d p u) (
        receive_message-Arrive net fuel d fd port ip c cs u.net.world s end has f first some_c rest)

  -- `readyRead`, when something has come from an IPv4 address that can be written as text and the
  -- fuel is more than the number of datagrams, ends with a table in which no two peers have the same
  -- address if that was so before, the memory of the new peer is not that of a peer that the server
  -- knows, and the user's handlers neither destroy peers nor make the server receive.
  pub ready_read-DistinctHosts :
      (fuel fd port p : ℕ) (ip : String) (c : Bytes) (cs : List Bytes) (u : UdpWorld S) (s end : S)
      → (u.net.world.devices d).handle ≡ some fd
      → length cs + 1 < fuel
      → net.recv_from fd recv_buffer_len u.net.world.sys ≡ (value (c, inet (value ip) port), s)
      → c ≢ []
      → Arrive net fd cs (net.recv_from fd recv_buffer_len s) end
      → mem p (u.servers d).peers ≡ false
      → DistinctHosts u.peers (u.servers d).peers
      → (u' : UdpWorld S) × (ready_read h net fuel d p u ≡ some u')
        × DistinctHosts u'.peers (u'.servers d).peers
  ready_read-DistinctHosts fuel fd port p ip c cs u s end has f first some_c rest fresh distinct =
      let m : NetworkMessage = record {
        bytes = concat (c ∷ cs);
        peer = record { ip = ip; port = port };
      } in
      let v = in_world u (record u.net.world { sys = end }) in
      (
        route h d p m v,
        ready_read-route fuel fd port p ip c cs u s end has f first some_c rest,
        route-DistinctHosts h d k p m v fresh distinct,
      )
