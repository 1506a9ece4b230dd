-- ===== src/Loop/Lasting.antt =====
-- However long a program of TCP clients and peers runs, the invariant that ties its engines to its
-- devices holds.
use transport_cpp.Prelude.{ℕ, ◌≡◌, true, Option, none, some}
use transport_cpp.Types.{NetworkMessage}
use transport_cpp.Os.{Os}
use transport_cpp.World.{World}
use transport_cpp.World.Invariant.{IsWellFormed}
use transport_cpp.Devices.Handles.{destroy_handle-IsWellFormed}
use transport_cpp.Sockets.{NetOs}
use transport_cpp.IoDevice.Stable.{Stable}
use transport_cpp.NetworkDevice.Writing.{IsWellFormed-Stable, IsWellFormed-Steady}
use transport_cpp.NetworkDevice.Steady.{MethodsKeep, perform_sync_send-Steady, ready_write-Steady}
use transport_cpp.Endpoints.{NetWorld, Handlers, with_world, close_endpoint}
use transport_cpp.Endpoints.Exchanging.{AfterEvent}
use transport_cpp.Endpoints.Handling.{ListenersKeep}
use transport_cpp.EventLoop.{
  Event, ready_read, ready_write, ready_error, ready_hangup, ready_invalid, ready_peer_disconnect,
  await_forever,
}
use transport_cpp.EventLoop.Forever.{KeepsHandles, await_forever-IsWellFormed}
use transport_cpp.TcpServer.{ServerOs}
use transport_cpp.TcpServer
use transport_cpp.TcpClient
use transport_cpp.Loop.{
  Joined, join, split, os_beside, net_beside, TcpClass, acceptor, peer, client, Program, or_else,
  call, call_read, call_hangup, call_peer_disconnect, events_of, virtual_of, ready,
}
use transport_cpp.Loop.Closing.{has_connection}

abbrev Q : {S : Type 0} → NetWorld S → Type 0
Q v = IsWellFormed v.world

-- The user's handlers keep the invariant.
pub record UserKeeps {S : Type 0} (h : Handlers S) : Type 0 where
  pub listeners : (d : ℕ) → ListenersKeep d (λ v. IsWellFormed v.world) h
  pub request :
      (d : ℕ) (m : NetworkMessage) (v : NetWorld S)
      → IsWellFormed v.world
      → IsWellFormed (h.request d m v).1.world

join-IsWellFormed : {S : Type 0} (v : NetWorld S) → IsWellFormed v.world → IsWellFormed (join v)
join-IsWellFormed v k = record {
  consistent = k.consistent;
  distinct = k.distinct;
  listed = k.listed;
  owner = k.owner;
}

split-IsWellFormed :
    {S : Type 0} (w : World (Joined S)) → IsWellFormed w → IsWellFormed (split w).world
split-IsWellFormed w k = record {
  consistent = k.consistent;
  distinct = k.distinct;
  listed = k.listed;
  owner = k.owner;
}

module _ {S : Type 0} (os : Os S) (net : NetOs S) (server : ServerOs S) (prog : Program S)
    (user : UserKeeps prog.handlers) (d : ℕ) where
  stable : (v : NetWorld S) → Stable os d (λ u. Q (with_world v u))
  stable v = IsWellFormed-Stable os d

  closes : (v : NetWorld S) → Q v → Q (close_endpoint os d v)
  unfolding close_endpoint
  closes v k = destroy_handle-IsWellFormed os d v.world k

  or_else_keeps :
      (v : NetWorld S) (o : Option (NetWorld S)) → Q v → AfterEvent Q o → Q (or_else v o)
  or_else_keeps v none k k' = k
  or_else_keeps v (some u) k k' = k'

  call_read-keeps :
      (c : TcpClass) (v : NetWorld S)
      → has_connection c ≡ true
      → Q v
      → Q (call_read os net server prog c d v)
  unfolding call_read
  call_read-keeps acceptor v has k = cc
  call_read-keeps peer v has k = or_else_keeps v _ k (
      TcpServer.Handling.ready_read-keeps os prog.handlers d Q stable closes (user.listeners d)
        (user.request d) prog.fuel v k)
  call_read-keeps client v has k = or_else_keeps v _ k (
      TcpClient.Handling.ready_read-keeps os prog.handlers d Q stable closes (user.listeners d)
        prog.fuel v k)

  call_hangup-keeps :
      (c : TcpClass) (v : NetWorld S) → Q v → Q (call_hangup os net server prog c d v)
  unfolding call_hangup TcpClient.ready_hangup TcpServer.ready_hangup
  call_hangup-keeps acceptor v k = destroy_handle-IsWellFormed os d v.world k
  call_hangup-keeps peer v k =
      TcpServer.Handling.peer_disconnected-keeps os prog.handlers d Q stable closes
        (user.listeners d) (user.request d) v k
  call_hangup-keeps client v k =
      TcpClient.Handling.peer_disconnected-keeps os prog.handlers d Q stable closes
        (user.listeners d) v k

  call_peer_disconnect-keeps :
      (c : TcpClass) (v : NetWorld S) → Q v → Q (call_peer_disconnect os net server prog c d v)
  unfolding call_peer_disconnect TcpClient.ready_peer_disconnect
  call_peer_disconnect-keeps acceptor v k = k
  call_peer_disconnect-keeps peer v k =
      TcpServer.Handling.peer_disconnected-keeps os prog.handlers d Q stable closes
        (user.listeners d) (user.request d) v k
  call_peer_disconnect-keeps client v k =
      TcpClient.Handling.peer_disconnected-keeps os prog.handlers d Q stable closes
        (user.listeners d) v k

  events_of-MethodsKeep :
      (c : TcpClass) → MethodsKeep d IsWellFormed (events_of os net server prog c)
  unfolding events_of
  events_of-MethodsKeep c = record {
    error = λ w k. k;
    hangup = λ w k. join-IsWellFormed _ (call_hangup-keeps c (split w) (split-IsWellFormed w k));
    peer_disconnect = λ w k.
        join-IsWellFormed _ (call_peer_disconnect-keeps c (split w) (split-IsWellFormed w k));
  }

  call-keeps :
      (c : TcpClass) (event : Event) (w : World (Joined S))
      → has_connection c ≡ true
      → IsWellFormed w
      → IsWellFormed (call os net server prog c event d w)
  unfolding call virtual_of
  call-keeps c ready_read w has k =
      join-IsWellFormed _ (call_read-keeps c (split w) has (split-IsWellFormed w k))
  call-keeps c ready_write w has k =
      let steady = IsWellFormed-Steady (os_beside os) (net_beside net) d in
      ready_write-Steady (os_beside os) (net_beside net) d IsWellFormed steady
        (virtual_of os net server prog c)
        (perform_sync_send-Steady (os_beside os) (net_beside net) d IsWellFormed steady
          (events_of os net server prog c) (events_of-MethodsKeep c))
        w k
  call-keeps c ready_error w has k = k
  call-keeps c ready_hangup w has k =
      join-IsWellFormed _ (call_hangup-keeps c (split w) (split-IsWellFormed w k))
  call-keeps c ready_invalid w has k = k
  call-keeps c ready_peer_disconnect w has k =
      join-IsWellFormed _ (call_peer_disconnect-keeps c (split w) (split-IsWellFormed w k))

module _ {S : Type 0} (os : Os S) (net : NetOs S) (server : ServerOs S) (prog : Program S) where
  -- However many turns of the event loop a program of TCP clients and peers makes, the tables of the
  -- engines fit one another and the devices, if they did before the first: if the user's handlers keep
  -- that, `poll` gives the entries back with the handles that they had, and no object is an acceptor,
  -- whose `readyRead` needs an address and a handle that are new.
  pub await_forever_lasts :
      (e turns : ℕ) (v : NetWorld S)
      → KeepsHandles os
      → UserKeeps prog.handlers
      → ((d : ℕ) → has_connection (prog.class_of d) ≡ true)
      → IsWellFormed v.world
      → IsWellFormed (await_forever (os_beside os) (ready os net server prog) e turns (join v))
  unfolding ready
  await_forever_lasts e turns v same user connected k =
      await_forever-IsWellFormed (os_beside os) (ready os net server prog) e turns (join v)
        (λ ps ms j. same ps ms j.kernel)
        (λ event d h w k' loaded has.
          call-keeps os net server prog user d (prog.class_of d) event w (connected d) k')
        (join-IsWellFormed v k)
