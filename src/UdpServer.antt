-- ===== src/UdpServer.antt =====
-- `UDP::Server` and what its peers share with it (src/udpserver.cpp,
-- include/transport-cpp/networking/udpserver.h). Log lines are left out.
pub mod Peer
pub mod Receive
pub mod Table
pub mod Routing
pub mod Arrivals
pub mod Map
pub mod Lifetime
use transport_cpp.Prelude.{
  ℕ, if◌then◌else◌, Bool, true, false, Option, none, some, List, [], ◌∷◌, update, erase_first,
}
use transport_cpp.Types.{
  ReturnCode, ok, nok, ErrorCode, internal, HostAddr, IpVersion, any, IoDataChoice,
}
use transport_cpp.Os.{Os}
use transport_cpp.World.{World, set_error}
use transport_cpp.IoDevice.{destroy_io_device}
use transport_cpp.NetworkDevice.{send_to, sync_send_to}
use transport_cpp.NetworkDevice.Open.{create_and_bind_socket}
use transport_cpp.Sockets.{NetOs}
use transport_cpp.Endpoints.{
  ConnectedHost, NetWorld, sock_dgram, with_world, set_endpoint, any_address, close_endpoint,
  settled,
}

-- A peer at an address. The four functions that send are set and cleared together: `server` is the
-- server that they belong to. `destruction_notifier` is the server that the destructor would tell.
pub record PeerPart : Type 0 where
  pub alive : Bool
  pub valid : Bool
  pub server : Option ℕ
  pub destruction_notifier : Option ℕ
  pub address : HostAddr
  pub has_message_handler : Bool

pub record ServerPart : Type 0 where
  pub last_peer : HostAddr
  pub peer_connected : Bool
  -- Raw pointers: the user owns the peers.
  pub peers : List ℕ

pub record UdpWorld (S : Type 0) : Type 0 where
  pub net : NetWorld S
  pub peers : ℕ → PeerPart
  pub servers : ℕ → ServerPart

module _ {S : Type 0} where
  abbrev pub with_net : UdpWorld S → NetWorld S → UdpWorld S
  with_net u v = record u { net = v }

  abbrev pub in_world : UdpWorld S → World S → UdpWorld S
  in_world u w = with_net u (with_world u.net w)

  abbrev pub set_peer : ℕ → PeerPart → UdpWorld S → UdpWorld S
  set_peer p r u = record u { peers = update u.peers p r }

  abbrev pub set_server : ℕ → ServerPart → UdpWorld S → UdpWorld S
  set_server d r u = record u { servers = update u.servers d r }

  abbrev pub fault : UdpWorld S → UdpWorld S
  fault u = in_world u (record u.net.world { fault = true })

  abbrev pub code_in : UdpWorld S → ReturnCode × World S → ReturnCode × UdpWorld S
  code_in u (code, w) = (code, in_world u w)

  -- `setNewPeerHandler`, with whether the function that is given is one.
  abbrev pub set_new_peer_handler : ℕ → Bool → UdpWorld S → UdpWorld S
  set_new_peer_handler d callable u =
      with_net u
        (set_endpoint d (record (u.net.endpoints d) { has_new_peer_handler = callable }) u.net)

  -- `Peer::invalidate`
  unfoldable pub invalidate : ℕ → UdpWorld S → UdpWorld S
  invalidate p u =
      set_peer p (record (u.peers p) { destruction_notifier = none; server = none; valid = false })
        u

  -- The loop of `disconnect` over the peers, each of which must still exist.
  unfoldable pub invalidate_all : List ℕ → UdpWorld S → UdpWorld S
  unfolding invalidate
  invalidate_all [] u = u
  invalidate_all (p ∷ ps) u =
      let rest = invalidate_all ps (invalidate p u) in if (u.peers p).alive then rest else fault u

  -- `Server::peerDestroyed`
  unfoldable pub peer_destroyed : ℕ → ℕ → UdpWorld S → UdpWorld S
  peer_destroyed d p u =
      set_server d (record (u.servers d) { peers = erase_first p (u.servers d).peers }) u

  module _ (os : Os S) where
    unfoldable pub disconnect : ℕ → UdpWorld S → UdpWorld S
    unfolding close_endpoint invalidate_all
    disconnect d u = invalidate_all (u.servers d).peers (with_net u (close_endpoint os d u.net))

    -- `~Server`, and the destructors of its bases.
    unfoldable pub destroy_server : ℕ → UdpWorld S → UdpWorld S
    unfolding disconnect destroy_io_device
    destroy_server d u =
        let closed = disconnect d u in in_world closed (destroy_io_device os d closed.net.world)

    abbrev told_of : Option ℕ → ℕ → UdpWorld S → UdpWorld S
    unfolding peer_destroyed
    told_of none p u = u
    told_of (some d) p u = peer_destroyed d p u

    -- `~Peer`, and the destructors of its bases.
    unfoldable pub destroy_peer : ℕ → UdpWorld S → UdpWorld S
    unfolding invalidate told_of destroy_io_device
    destroy_peer p u =
        let gone = invalidate p u in
        let told = told_of (gone.peers p).destruction_notifier p gone in
        let dead = set_peer p (record (told.peers p) { alive = false }) told in
        in_world dead (destroy_io_device os p dead.net.world)

    module _ (net : NetOs S) where
      abbrev bound :
          UdpWorld S → Option (ReturnCode × NetWorld S) → Option (ReturnCode × UdpWorld S)
      bound u none = none
      bound u (some (code, v)) = some (code, with_net u v)

      unfoldable pub bind :
          ℕ → ℕ → HostAddr → IpVersion → UdpWorld S → Option (ReturnCode × UdpWorld S)
      unfolding disconnect create_and_bind_socket
      bind fuel d host ip_hint u =
          let closed = disconnect d u in
          bound closed (
            settled d (record { addr = host; ip_hint = ip_hint }) closed.net
              (create_and_bind_socket os net fuel d host ip_hint sock_dgram closed.net.world))

      -- The overloads that take a `ConnectedHost` and a port.
      abbrev pub bind_host : ℕ → ℕ → ConnectedHost → UdpWorld S → Option (ReturnCode × UdpWorld S)
      unfolding bind
      bind_host fuel d host u = bind fuel d host.addr host.ip_hint u

      abbrev pub bind_port : ℕ → ℕ → ℕ → IpVersion → UdpWorld S → Option (ReturnCode × UdpWorld S)
      unfolding bind
      bind_port fuel d port ip_hint u =
          let host = any_address port ip_hint in bind fuel d host.addr host.ip_hint u

  abbrev no_peer_yet : ℕ → UdpWorld S → ReturnCode × UdpWorld S
  no_peer_yet d u = (
    nok,
    in_world u (
        set_error d (internal ErrorCode.device_not_ready)
          "We need to first receive a message from a peer before we can send messages" u.net.world),
  )

  -- The three overloads of `Server::asyncSend`, which differ in the kind of pointer only.
  unfoldable pub async_send : ℕ → IoDataChoice → UdpWorld S → ReturnCode × UdpWorld S
  unfolding send_to
  async_send d message u =
      if (u.servers d).peer_connected
      then code_in u (send_to d (u.servers d).last_peer message any u.net.world)
      else no_peer_yet d u

  unfoldable pub sync_send : NetOs S → ℕ → IoDataChoice → UdpWorld S → ReturnCode × UdpWorld S
  unfolding sync_send_to
  sync_send net d message u =
      if (u.servers d).peer_connected
      then code_in u (sync_send_to net d (u.servers d).last_peer message any u.net.world)
      else no_peer_yet d u
