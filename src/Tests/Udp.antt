-- ===== src/Tests/Udp.antt =====
-- A server of UDP with one peer, and the theorems on its table.
use transport_cpp.Prelude.{ℕ, arith, ◌≡◌, refl, true, false, none, some, [], ◌∷◌}
use transport_cpp.Engine.{initial}
use transport_cpp.Registry.{register_device}
use transport_cpp.Devices.{register_new_handle}
use transport_cpp.Types.{nok, HostAddr, NetworkMessage, ErrorCode, internal, plain}
use transport_cpp.UdpServer.{PeerPart, UdpWorld, disconnect, destroy_peer}
use transport_cpp.UdpServer.Peer.{async_send, is_valid}
use transport_cpp.UdpServer.Receive.{
  ready_read, UdpHandlers, find_peer, notify, notify_new_data, route, heard_from,
}
use transport_cpp.UdpServer.Table.{KeepTable, DistinctHosts}
use transport_cpp.UdpServer.Routing.{route_twice}
use transport_cpp.UdpServer.Receive.{found}
use transport_cpp.UdpServer.Map.{lookup_peer, lookup_peer-route}
use transport_cpp.UdpServer.Arrivals.{ready_read-DistinctHosts}
use transport_cpp.Tests.Network.{post}
use transport_cpp.UdpServer.Lifetime.{disconnect_after_destroy, disconnect-invalidates}
use transport_cpp.Tests.{boot, quiet, opened, loaded}
use transport_cpp.Tests.Peers.{device}

abbrev first : HostAddr
first = record { ip = "10.0.0.1"; port = 5000 }

abbrev second : HostAddr
second = record { ip = "10.0.0.2"; port = 5000 }

abbrev peer : PeerPart
peer = record {
  alive = true;
  valid = true;
  server = some 3;
  destruction_notifier = none;
  address = first;
  has_message_handler = true;
}

-- Server 3 has the peer 9.
abbrev one_peer : UdpWorld ℕ
one_peer = record {
  net = device boot;
  peers = λ q. peer;
  servers = λ d. record { last_peer = first; peer_connected = true; peers = 9 ∷ [] };
}

abbrev nothing : UdpHandlers ℕ
nothing = record {
  message = λ d m u. u;
  data_arrived = λ d b u. u;
  new_peer = λ d m p u. u;
  new_data = λ p m u. u;
}

nothing-KeepTable : KeepTable 3 nothing
nothing-KeepTable = record {
  message = λ e m u. (refl, λ q. (refl, refl));
  data_arrived = λ e b u. (refl, λ q. (refl, refl));
  new_peer = λ e m p u. (refl, λ q. (refl, refl));
  new_data = λ q m u. (refl, λ q'. (refl, refl));
}

abbrev datagram : ℕ → NetworkMessage
datagram b = record { bytes = b ∷ []; peer = second }

ready_read-DistinctHosts_example :
    (u' : UdpWorld ℕ) × (ready_read nothing post 3 3 12 one_peer ≡ some u')
    × DistinctHosts u'.peers (u'.servers 3).peers
unfolding loaded opened register_device register_new_handle initial
ready_read-DistinctHosts_example =
    ready_read-DistinctHosts nothing 3 nothing-KeepTable post 3 7 1000 12 "10.0.0.1" (65 ∷ [])
      ((66 ∷ []) ∷ []) one_peer 1 2 refl (omega arith) refl (λ e. cc) ((λ e. cc), refl, refl) refl
      (tt, tt)

lookup_peer-route_example :
    lookup_peer 3 second (route nothing 3 12 (datagram 1) one_peer) ≡ found 12
unfolding find_peer notify loaded opened register_device register_new_handle initial
lookup_peer-route_example =
    lookup_peer-route nothing 3 nothing-KeepTable 12 (datagram 1) one_peer second refl (λ e. cc)
      refl

route_twice_example :
    let u1 = route nothing 3 12 (datagram 1) one_peer in
    ((u1.servers 3).peers ≡ 9 ∷ 12 ∷ [])
    × (route nothing 3 15 (datagram 2) u1
        ≡ notify_new_data nothing 12
            (datagram 2)
            (heard_from nothing 3 second (notify nothing 3 (datagram 2) u1)))
unfolding find_peer notify loaded opened register_device register_new_handle initial
route_twice_example =
    route_twice nothing 3 nothing-KeepTable 12 15 (datagram 1) (datagram 2) one_peer refl refl refl
      refl

disconnect_after_destroy_example :
    (((destroy_peer quiet 9 one_peer).servers 3).peers ≡ 9 ∷ [])
    × ((disconnect quiet 3 (destroy_peer quiet 9 one_peer)).net.world.fault ≡ true)
disconnect_after_destroy_example = disconnect_after_destroy quiet 3 9 one_peer refl

disconnect-invalidates_example :
    let u' = disconnect quiet 3 one_peer in
    (is_valid 9 u' ≡ false)
    × ((u'.servers 3).peers ≡ 9 ∷ [])
    × ((async_send 9 (plain (1 ∷ [])) u').0 ≡ nok)
    × (((async_send 9 (plain (1 ∷ [])) u').1.net.world.devices 9).last_error.code
        ≡ internal ErrorCode.device_not_ready)
disconnect-invalidates_example =
    disconnect-invalidates quiet 3 9 (plain (1 ∷ [])) one_peer (refl, tt) refl
