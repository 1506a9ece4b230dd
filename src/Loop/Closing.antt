-- ===== src/Loop/Closing.antt =====
-- One turn of the event loop in which a connection is lost.
use transport_cpp.Prelude.{
  ℕ, suc, ◌≤◌, ◌≡◌, Bool, true, false, some, List, lookup, arith, ◌∙◌, ap, subst,
}
use transport_cpp.Int.{ℤ}
use transport_cpp.Types.{PollFd}
use transport_cpp.Os.{Os, value}
use transport_cpp.Os.OpenFiles.{Files, without_handle}
use transport_cpp.World.Invariant.{IsWellFormed}
use transport_cpp.Engine.Tables.{has_fd}
use transport_cpp.Devices.Handles.{destroy_handle-loaded, destroy_handle-IsWellFormed}
use transport_cpp.Sockets.{NetOs}
use transport_cpp.Endpoints.{NetWorld, close_endpoint}
use transport_cpp.Endpoints.Reopening.{Closed, without_optional, close_endpoint-Closed}
use transport_cpp.EventLoop.{
  Event, ready_read, ready_write, ready_error, ready_hangup, ready_invalid, ready_peer_disconnect,
  await_once_upto,
}
use transport_cpp.EventLoop.Calls.{sorted}
use transport_cpp.EventLoop.Collect.{raised}
use transport_cpp.EventLoop.Polled.{handles, polled-IsWellFormed}
use transport_cpp.TcpServer
use transport_cpp.TcpServer.{ServerOs}
use transport_cpp.TcpServer.Peer
use transport_cpp.TcpClient
use transport_cpp.Loop.{
  join, os_beside, TcpClass, acceptor, peer, client, Program, call, call_hangup,
  call_peer_disconnect, ready,
}
use transport_cpp.Loop.Turn.{only, after, turn-call}

-- The events that end a connection, and the classes that have one.
abbrev pub ends : Event → Bool
ends ready_hangup = true
ends ready_peer_disconnect = true
ends _ = false

abbrev pub has_connection : TcpClass → Bool
has_connection acceptor = false
has_connection peer = true
has_connection client = true

module _ {S : Type 0} (os : Os S) (net : NetOs S) (server : ServerOs S) (prog : Program S)
    (e : ℕ) where
  -- Both classes close, and tell the user, by two methods each.
  call_closes :
      (event : Event) (c : TcpClass) (d : ℕ) (v : NetWorld S)
      → ends event ≡ true
      → has_connection c ≡ true
      → (v.endpoints d).has_disconnect_handler ≡ true
      → call os net server prog c event d (join v)
        ≡ join (prog.handlers.disconnected d (close_endpoint os d v))
  unfolding call call_hangup call_peer_disconnect TcpServer.Peer.peer_disconnected
      TcpClient.ready_hangup TcpClient.ready_peer_disconnect TcpClient.peer_disconnected
      close_endpoint
  call_closes ready_hangup peer d v k has set = ground (arith, set)
  call_closes ready_hangup client d v k has set = ground (arith, set)
  call_closes ready_peer_disconnect peer d v k has set = ground (arith, set)
  call_closes ready_peer_disconnect client d v k has set = ground (arith, set)
  call_closes ready_hangup acceptor d v k has set = cc
  call_closes ready_peer_disconnect acceptor d v k has set = cc
  call_closes ready_read c d v k has set = cc
  call_closes ready_write c d v k has set = cc
  call_closes ready_error c d v k has set = cc
  call_closes ready_invalid c d v k has set = cc

  -- A turn of the event loop in which only the handle `fd` of a peer or a client hangs up, or its other
  -- side disconnects, closes the connection before the user is told: if `poll` reports just that and
  -- keeps the handles of the list, `close` closes as documented, the invariant holds, the engine maps
  -- `fd` to the object at `d`, and that object has the engine, the handle, and a disconnect handler. The
  -- handler gets an object that does not count as connected and has no handle; `fd` is closed and
  -- nothing else, the engine does not poll it, and the invariant holds.
  pub await_once_upto-closes :
      (is_open : S → ℕ → Bool) (event : Event) (ms : ℤ) (v : NetWorld S) (n fd d : ℕ)
      (fds : List PollFd) (s : S) (c : TcpClass)
      → Files os is_open
      → os.poll (v.world.engines e).poll_devices ms v.world.sys ≡ (value (suc n), fds, s)
      → raised fds ≤ suc n
      → sorted fds ≡ only event fd
      → ends event ≡ true
      → lookup fd (v.world.engines e).device_mapping ≡ some d
      → prog.class_of d ≡ c
      → has_connection c ≡ true
      → handles fds ≡ handles (v.world.engines e).poll_devices
      → IsWellFormed v.world
      → (v.world.devices d).engine ≡ some e
      → (v.world.devices d).handle ≡ some fd
      → (v.endpoints d).has_disconnect_handler ≡ true
      → (u : NetWorld S) × (await_once_upto (ready os net server prog) e (os_beside os) ms (join v)
          ≡ (true, join (prog.handlers.disconnected d u)))
        × Closed is_open d (some e) (without_handle fd (is_open s)) u
        × (has_fd fd (u.world.engines e).poll_devices ≡ false)
        × IsWellFormed u.world
  unfolding close_endpoint
  await_once_upto-closes is_open event ms v n fd d fds s c k p few one ending found is connected
        same valid loaded has set =
      let v1 = after os net server prog e fds s v in
      let valid1 = polled-IsWellFormed e fds s v.world same valid in
      (
        close_endpoint os d v1,
        turn-call os net server prog e event ms v n fd d fds s c p few one found is
            ∙ ap (λ w. (true, w)) (call_closes event c d v1 ending connected set),
        subst
            (λ b.
              Closed is_open d (some e) (without_optional b (is_open s)) (close_endpoint os d v1))
            has (close_endpoint-Closed os is_open k d e v1 loaded),
        (destroy_handle-loaded os d e fd v1.world valid1 loaded has).2,
        destroy_handle-IsWellFormed os d v1.world valid1,
      )
