-- ===== src/UdpServer/Receive.antt =====
-- `UDP::Server::readyRead` (src/udpserver.cpp): datagrams by the peer that sent them.
use text.Mathlib.Text.{◌==◌ as str_eq}
use transport_cpp.Prelude.{
  ℕ, ◌==◌, ◌&&◌, ◌++◌, if◌then◌else◌, Bool, true, false, Option, none, some, List, [], ◌∷◌,
}
use transport_cpp.Types.{Error, Bytes, HostAddr, NetworkMessage}
use transport_cpp.World.{World, set_device}
use transport_cpp.Devices.Steps.{new_device}
use transport_cpp.IoDevice.{set_io}
use transport_cpp.IoDevice.Receive.{is_no_error}
use transport_cpp.NetworkDevice.{set_net}
use transport_cpp.NetworkDevice.Receive.{receive_message, empty_message}
use transport_cpp.Sockets.{NetOs}
use transport_cpp.UdpServer.{PeerPart, UdpWorld, in_world, set_peer, set_server, fault}

-- The user's handlers, which may do anything: those of the server's device, the one for new peers,
-- which is given the peer's `unique_ptr`, and that of a peer.
pub record UdpHandlers (S : Type 0) : Type 0 where
  pub message : ℕ → NetworkMessage → UdpWorld S → UdpWorld S
  pub data_arrived : ℕ → Bytes → UdpWorld S → UdpWorld S
  pub new_peer : ℕ → NetworkMessage → ℕ → UdpWorld S → UdpWorld S
  pub new_data : ℕ → NetworkMessage → UdpWorld S → UdpWorld S

abbrev pub same_host : HostAddr → HostAddr → Bool
same_host a b = str_eq a.ip b.ip && a.port == b.port

-- What the search through the pointers meets first: a peer with the address, one that does not exist
-- any more, or neither.
pub data Found : Type 0 where
  found : ℕ → Found
  dangling absent : Found

unfoldable pub find_peer : (ℕ → PeerPart) → HostAddr → List ℕ → Found
find_peer peers host [] = absent
find_peer peers host (p ∷ ps) =
    let rest = find_peer peers host ps in
    if (peers p).alive then if same_host (peers p).address host then found p else rest else dangling

module _ {S : Type 0} (h : UdpHandlers S) where
  -- `NetworkDevice::notifyCallback`
  unfoldable pub notify : ℕ → NetworkMessage → UdpWorld S → UdpWorld S
  notify d m u =
      let told = if (u.net.world.net d).has_network_callback then h.message d m u else u in
      if (told.net.world.io d).has_callback then h.data_arrived d m.bytes told else told

  -- `mLastPeer = data.peer; mPeerConnected = true;`
  abbrev pub heard_from : ℕ → HostAddr → UdpWorld S → UdpWorld S
  heard_from d host u =
      set_server d (record (u.servers d) { last_peer = host; peer_connected = true }) u

  -- `new Peer()` at the address `p`, and what the server sets in it.
  abbrev pub make_peer : ℕ → ℕ → HostAddr → UdpWorld S → UdpWorld S
  make_peer d p host u =
      in_world
        (set_peer p
          (record {
            alive = true;
            valid = true;
            server = some d;
            destruction_notifier = none;
            address = host;
            has_message_handler = false;
          })
          u)
        (set_device p new_device (
          set_io p (record { has_callback = false; queue = [] })
            (set_net p (record { has_network_callback = false; outgoing = [] }) u.net.world)))

  -- `mPeers.push_back(new_peer_raw)`
  abbrev pub keep_peer : ℕ → ℕ → UdpWorld S → UdpWorld S
  keep_peer d p u = set_server d (record (u.servers d) { peers = (u.servers d).peers ++ p ∷ [] }) u

  unfoldable pub notify_new_data : ℕ → NetworkMessage → UdpWorld S → UdpWorld S
  notify_new_data p m u = if (u.peers p).has_message_handler then h.new_data p m u else u

  unfoldable pub deliver : ℕ → ℕ → NetworkMessage → Found → UdpWorld S → UdpWorld S
  unfolding notify_new_data
  deliver d p m (found q) u = notify_new_data q m (heard_from d m.peer u)
  deliver d p m dangling u = fault u
  deliver d p m absent u =
      let heard = heard_from d m.peer u in
      if (heard.net.endpoints d).has_new_peer_handler
      then keep_peer d p (h.new_peer d m p (make_peer d p m.peer heard))
      else heard

  -- The part of `readyRead` for what was received, with the address `p` at which `new` makes a peer.
  unfoldable pub route : ℕ → ℕ → NetworkMessage → UdpWorld S → UdpWorld S
  unfolding notify find_peer deliver
  route d p m u =
      let told = notify d m u in
      deliver d p m (find_peer told.peers m.peer (told.servers d).peers) told

  module _ (net : NetOs S) where
    unfoldable pub after_receive :
        ℕ → ℕ → UdpWorld S → Option (Error × NetworkMessage × World S) → Option (UdpWorld S)
    unfolding is_no_error route
    after_receive d p u none = none
    after_receive d p u (some (error, m, w)) =
        some (if is_no_error error.code then route d p m (in_world u w) else in_world u w)

    unfoldable pub ready_read : ℕ → ℕ → ℕ → UdpWorld S → Option (UdpWorld S)
    unfolding after_receive receive_message
    ready_read fuel d p u =
        after_receive d p u (receive_message net fuel d (empty_message net) u.net.world)
