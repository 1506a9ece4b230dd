-- ===== src/TcpServer.antt =====
-- `TCP::Server::Acceptor` (src/tcpserver.cpp, include/transport-cpp/networking/tcpserver.h). Log lines
-- are left out.
pub mod Peer
pub mod Accepting
pub mod Requests
pub mod Handling
pub mod Binding
pub mod Hangup
use transport_cpp.Prelude.{ℕ, if◌then◌else◌, Bool, true, false, Option, none, some, [], update}
use transport_cpp.Types.{ReturnCode, ok, nok, HostAddr, IpVersion, any}
use transport_cpp.Os.{Os, Outcome, value, failed}
use transport_cpp.World.{World, set_device}
use transport_cpp.Devices.{register_child_device, destroy_handle}
use transport_cpp.Devices.Steps.{new_device}
use transport_cpp.IoDevice.{register_new_handle, destroy_io_device, set_io}
use transport_cpp.NetworkDevice.{set_net}
use transport_cpp.NetworkDevice.Open.{create_and_bind_socket}
use transport_cpp.Sockets
use transport_cpp.Sockets.{NetOs, inet, inet6, unknown}
use transport_cpp.Endpoints.{
  ConnectedHost, NetWorld, Handlers, any_address, sock_stream, with_world, set_endpoint, set_active,
  close_endpoint, settled,
}

-- `listen` with the longest queue, and `accept`, with what it leaves in `their_addr`.
pub record ServerOs (S : Type 0) : Type 0 where
  pub listen : ℕ → S → Outcome (Unit {0}) × S
  pub accept : ℕ → S → Outcome ℕ × Sockets.Peer × S

-- The handle that `accept` returns, which is not looked at: -1 where it fails.
abbrev pub accepted_handle : Outcome ℕ → ℕ
accepted_handle (failed errno) = 4294967295
accepted_handle (value fd) = fd

-- The text is not looked at either: where `inet_ntop` fails, an array that was never written is read.
abbrev pub peer_address : Sockets.Peer → Option HostAddr
peer_address (inet (value ip) port) = some (record { ip = ip; port = port })
peer_address (inet (failed errno) port) = none
peer_address (inet6 (value ip) port) = some (record { ip = ip; port = port })
peer_address (inet6 (failed errno) port) = none
peer_address unknown = some (record { ip = "Unknown AF"; port = 0 })

module _ {S : Type 0} where
  -- `setNewPeerHandler`, with whether the function that is given is one.
  abbrev pub set_new_peer_handler : ℕ → Bool → NetWorld S → NetWorld S
  set_new_peer_handler d callable v =
      set_endpoint d (record (v.endpoints d) { has_new_peer_handler = callable }) v

  abbrev pub is_bound : ℕ → NetWorld S → Bool
  is_bound d v = (v.endpoints d).active

  -- The base classes of a peer that is made at the address `p`, before the body of its constructor.
  abbrev pub constructed : ℕ → HostAddr → NetWorld S → NetWorld S
  constructed p addr v =
      set_endpoint p
        (record {
          active = false;
          host = record { addr = addr; ip_hint = any };
          has_disconnect_handler = false;
          has_request_handler = false;
          has_new_peer_handler = false;
        })
        (with_world v (
          set_device p new_device (
            set_io p (record { has_callback = false; queue = [] })
              (set_net p (record { has_network_callback = false; outgoing = [] }) v.world))))

  abbrev pub settled_listening :
      (NetWorld S → NetWorld S)
      → Option (ReturnCode × NetWorld S)
      → Option (ReturnCode × NetWorld S)
  settled_listening listen none = none
  settled_listening listen (some (ok, v)) = some (ok, listen v)
  settled_listening listen (some (code, v)) = some (code, v)

  module _ (os : Os S) where
    -- `Peer::Peer`
    unfoldable pub new_peer : ℕ → ℕ → HostAddr → NetWorld S → NetWorld S
    unfolding register_new_handle
    new_peer p handle addr v =
        let made = constructed p addr v in
        set_active p true (with_world made (register_new_handle os p (some handle) made.world))

    unfoldable pub disconnect : ℕ → NetWorld S → NetWorld S
    unfolding close_endpoint
    disconnect d v = close_endpoint os d v

    unfoldable pub ready_hangup : ℕ → NetWorld S → NetWorld S
    unfolding destroy_handle
    ready_hangup d v = with_world v (destroy_handle os d v.world)

    module _ (server : ServerOs S) where
      unfoldable pub after_listen : ℕ → Outcome (Unit {0}) × S → NetWorld S → NetWorld S
      unfolding disconnect
      after_listen d (failed errno, s) v = disconnect d (with_world v (record v.world { sys = s }))
      after_listen d (value u, s) v = with_world v (record v.world { sys = s })

      unfoldable pub listen : ℕ → NetWorld S → NetWorld S
      unfolding after_listen
      listen d v = elim (v.world.devices d).handle [
        | none ↦ v
        | some sock ↦ after_listen d (server.listen sock v.world.sys) v
      ]

      module _ (net : NetOs S) where
        unfoldable pub bind :
            ℕ → ℕ → HostAddr → IpVersion → NetWorld S → Option (ReturnCode × NetWorld S)
        unfolding disconnect create_and_bind_socket listen
        bind fuel d host ip_hint v =
            let closed = disconnect d v in
            settled_listening (listen d) (
              settled d (record { addr = host; ip_hint = ip_hint }) closed
                (create_and_bind_socket os net fuel d host ip_hint sock_stream closed.world))

        -- The overloads that take a `ConnectedHost` and a port.
        abbrev pub bind_host : ℕ → ℕ → ConnectedHost → NetWorld S → Option (ReturnCode × NetWorld S)
        unfolding bind
        bind_host fuel d host v = bind fuel d host.addr host.ip_hint v

        abbrev pub bind_port : ℕ → ℕ → ℕ → IpVersion → NetWorld S → Option (ReturnCode × NetWorld S)
        unfolding bind
        bind_port fuel d port ip_hint v =
            let host = any_address port ip_hint in bind fuel d host.addr host.ip_hint v

      module _ (h : Handlers S) where
        -- Without a handler the peer is destroyed with the `unique_ptr` that holds it.
        unfoldable pub notify_new_peer : ℕ → ℕ → NetWorld S → NetWorld S
        unfolding destroy_io_device
        notify_new_peer d p v =
            if (v.endpoints d).has_new_peer_handler
            then h.new_peer d p v
            else with_world v (destroy_io_device os p v.world)

        -- The peer for what was accepted, and the engine that is told of it.
        unfoldable pub admit_peer : ℕ → ℕ → ℕ → HostAddr → NetWorld S → NetWorld S
        unfolding new_peer register_child_device
        admit_peer d p handle addr v =
            let made = new_peer p handle addr v in
            with_world made (register_child_device d p made.world)

        abbrev serve_peer : ℕ → ℕ → ℕ → Option HostAddr → NetWorld S → NetWorld S
        unfolding admit_peer notify_new_peer listen
        serve_peer d p handle none v = with_world v (record v.world { fault = true })
        serve_peer d p handle (some addr) v =
            listen d (notify_new_peer d p (admit_peer d p handle addr v))

        abbrev pub after_accept : ℕ → ℕ → Outcome ℕ × Sockets.Peer × S → NetWorld S → NetWorld S
        unfolding serve_peer
        after_accept d p (r, their_addr, s) v =
            serve_peer d p (accepted_handle r) (peer_address their_addr)
              (with_world v (record v.world { sys = s }))

        -- `readyRead`, with the address `p` at which `new` makes the peer. Without a handle `value()`
        -- throws.
        unfoldable pub ready_read : ℕ → ℕ → NetWorld S → NetWorld S
        unfolding after_accept
        ready_read d p v = elim (v.world.devices d).handle [
          | none ↦ with_world v (record v.world { fault = true })
          | some sock ↦ after_accept d p (server.accept sock v.world.sys) v
        ]
