-- ===== src/Loop.antt =====
-- The TCP classes in the event loop: which method the virtual call of the loop reaches
-- (src/engine.cpp, include/transport-cpp/device.h, include/transport-cpp/iodevice.h,
-- include/transport-cpp/networking/networkdevice.h, include/transport-cpp/networking/tcpclient.h,
-- include/transport-cpp/networking/tcpserver.h). The fields of the endpoints stand beside the
-- kernel's state, so that the loop's state has both.
pub mod Turn
pub mod Closing
pub mod Lasting
use transport_cpp.Prelude.{ℕ, Option, none, some, List}
use transport_cpp.Types.{ReturnCode, Bytes, IoDataChoice, PollFd, HostAddr}
use transport_cpp.Os.{Os, Outcome}
use transport_cpp.World.{World}
use transport_cpp.Sockets.{NetOs}
use transport_cpp.IoDevice
use transport_cpp.IoDevice.{Virtual}
use transport_cpp.NetworkDevice
use transport_cpp.Endpoints.{Endpoint, NetWorld, Handlers}
use transport_cpp.TcpServer
use transport_cpp.TcpServer.{ServerOs}
use transport_cpp.TcpServer.Peer
use transport_cpp.TcpClient
use transport_cpp.EventLoop.{
  Event, ready_read, ready_write, ready_error, ready_hangup, ready_invalid, ready_peer_disconnect,
}

pub record Joined (S : Type 0) : Type 0 where
  pub kernel : S
  pub endpoints : ℕ → Endpoint

module _ {S : Type 0} where
  abbrev pub join : NetWorld S → World (Joined S)
  join v = record {
    engines = v.world.engines;
    devices = v.world.devices;
    io = v.world.io;
    net = v.world.net;
    heap = v.world.heap;
    fault = v.world.fault;
    sys = record { kernel = v.world.sys; endpoints = v.endpoints };
  }

  abbrev pub split : World (Joined S) → NetWorld S
  split w = record {
    world = record {
      engines = w.engines;
      devices = w.devices;
      io = w.io;
      net = w.net;
      heap = w.heap;
      fault = w.fault;
      sys = w.sys.kernel;
    };
    endpoints = w.sys.endpoints;
  }

  -- A call of the kernel leaves the endpoints alone.
  abbrev pub beside : Joined S → {A : Type 0} → A × S → A × Joined S
  beside j (a, s) = (a, record j { kernel = s })

  abbrev pub beside_poll :
      Joined S → Outcome ℕ × List PollFd × S → Outcome ℕ × List PollFd × Joined S
  beside_poll j (r, fds, s) = (r, fds, record j { kernel = s })

  abbrev pub os_beside : Os S → Os (Joined S)
  os_beside os = record {
    close = λ h j. record j { kernel = os.close h j.kernel };
    poll = λ ps ms j. beside_poll j (os.poll ps ms j.kernel);
    read = λ h n j. beside j (os.read h n j.kernel);
    write = λ h b j. beside j (os.write h b j.kernel);
    get_flags = λ h j. beside j (os.get_flags h j.kernel);
    set_flags = λ h flags j. beside j (os.set_flags h flags j.kernel);
    now = λ j. beside j (os.now j.kernel);
  }

  abbrev pub net_beside : NetOs S → NetOs (Joined S)
  net_beside net = record {
    get_addr_info = λ hints host j. beside j (net.get_addr_info hints host j.kernel);
    gai_strerror = net.gai_strerror;
    socket = λ a j. beside j (net.socket a j.kernel);
    connect = λ fd b j. beside j (net.connect fd b j.kernel);
    bind = λ fd b j. beside j (net.bind fd b j.kernel);
    reuse_addr = λ fd j. beside j (net.reuse_addr fd j.kernel);
    send_to = λ fd b a j. beside j (net.send_to fd b a j.kernel);
    recv_from = λ fd n j. beside j (net.recv_from fd n j.kernel);
    get_sock_name = λ fd j. beside j (net.get_sock_name fd j.kernel);
    errno = λ j. net.errno j.kernel;
  }

-- The class of an object.
pub data TcpClass : Type 0 where
  acceptor peer client : TcpClass

-- What is left when the fuel of a read is used up.
abbrev pub or_else : {A : Type 0} → A → Option A → A
or_else a none = a
or_else a (some b) = b

-- The program around the library: the class of the object at each address, the address at which
-- `new` makes the next peer, the user's handlers, and the fuel of a read.
pub record Program (S : Type 0) : Type 0 where
  pub class_of : ℕ → TcpClass
  pub fresh : NetWorld S → ℕ
  pub handlers : Handlers S
  pub fuel : ℕ

module _ {S : Type 0} (os : Os S) (net : NetOs S) (server : ServerOs S) (prog : Program S) where
  -- `readyRead`, which the three classes override.
  unfoldable pub call_read : TcpClass → ℕ → NetWorld S → NetWorld S
  unfolding TcpServer.ready_read TcpServer.Peer.ready_read TcpClient.ready_read
  call_read acceptor d v = TcpServer.ready_read os server prog.handlers d (prog.fresh v) v
  call_read peer d v = or_else v (TcpServer.Peer.ready_read os prog.handlers prog.fuel d v)
  call_read client d v = or_else v (TcpClient.ready_read os prog.handlers prog.fuel d v)

  -- `readyHangup`, which the three classes override.
  unfoldable pub call_hangup : TcpClass → ℕ → NetWorld S → NetWorld S
  unfolding TcpServer.ready_hangup TcpServer.Peer.peer_disconnected TcpClient.ready_hangup
  call_hangup acceptor d v = TcpServer.ready_hangup os d v
  call_hangup peer d v = TcpServer.Peer.peer_disconnected os prog.handlers d v
  call_hangup client d v = TcpClient.ready_hangup os prog.handlers d v

  -- `readyPeerDisconnect`: that of `Device`, which the acceptor has, logs.
  unfoldable pub call_peer_disconnect : TcpClass → ℕ → NetWorld S → NetWorld S
  unfolding TcpServer.Peer.peer_disconnected TcpClient.ready_peer_disconnect
  call_peer_disconnect acceptor d v = v
  call_peer_disconnect peer d v = TcpServer.Peer.peer_disconnected os prog.handlers d v
  call_peer_disconnect client d v = TcpClient.ready_peer_disconnect os prog.handlers d v

  -- The methods that `IODevice` calls on `this`; `readyError` is that of `IODevice`, which logs. Only
  -- `performSyncSend`, which these methods do not call, is left open here.
  unfoldable pub events_of : TcpClass → Virtual (Joined S)
  unfolding IoDevice.device_is_ready call_hangup call_peer_disconnect
  events_of c = record {
    device_is_ready = IoDevice.device_is_ready;
    ready_error = λ d w. w;
    ready_hangup = λ d w. join (call_hangup c d (split w));
    ready_peer_disconnect = λ d w. join (call_peer_disconnect c d (split w));
    perform_sync_send = λ d message w. (ReturnCode.nok, w);
  }

  unfoldable pub virtual_of : TcpClass → Virtual (Joined S)
  unfolding IoDevice.perform_sync_send events_of
  virtual_of c = record (events_of c) {
    perform_sync_send = IoDevice.perform_sync_send (os_beside os) (events_of c);
  }

  -- The virtual call on an object of a class: `readyWrite` is that of `NetworkDevice`, `readyError`
  -- and `readyInvalidRequest` log.
  unfoldable pub call : TcpClass → Event → ℕ → World (Joined S) → World (Joined S)
  unfolding call_read call_hangup call_peer_disconnect NetworkDevice.ready_write
  call c ready_read d w = join (call_read c d (split w))
  call c ready_write d w = NetworkDevice.ready_write (net_beside net) (virtual_of c) d w
  call c ready_error d w = w
  call c ready_hangup d w = join (call_hangup c d (split w))
  call c ready_invalid d w = w
  call c ready_peer_disconnect d w = join (call_peer_disconnect c d (split w))

  unfoldable pub ready : Event → ℕ → World (Joined S) → World (Joined S)
  unfolding call
  ready event d w = call (prog.class_of d) event d w
