-- ===== src/Tests/Peers.antt =====
-- A server's peer and the clients of TCP and UDP at concrete states.
use transport_cpp.Prelude.{
  ℕ, ◌+◌, ◌≡◌, refl, ◌==◌, if◌then◌else◌, true, none, some, List, [], ◌∷◌, length, arith,
}
use transport_cpp.Types.{ok, Bytes, PollFd, any}
use transport_cpp.Engine
use transport_cpp.Os.{Os, value, failed}
use transport_cpp.Registry.{register_device}
use transport_cpp.Devices.{register_new_handle, request_read}
use transport_cpp.Endpoints.{Endpoint, NetWorld, Handlers, with_world, notify}
use transport_cpp.Endpoints.Exchange.{Hooks, sync_request_response}
use transport_cpp.Endpoints.Answers.{sync_request_response-answers}
use transport_cpp.TcpServer.{ServerOs, listen, notify_new_peer, is_bound}
use transport_cpp.TcpServer
use transport_cpp.TcpServer.Peer
use transport_cpp.TcpServer.Requests.{ready_read_no_value}
use transport_cpp.UdpEndpoints.Reconnect.{}
use transport_cpp.UdpEndpoints.{}
use transport_cpp.Tests.{opened, loaded}
use transport_cpp.Tests.Ports.{host}

program : Unit {0}
unfolding opened loaded register_device register_new_handle Engine.register_new_handle
    Engine.initial notify
program = tt

abbrev all_ready : List PollFd → List PollFd
all_ready [] = []
all_ready (p ∷ ps) = record p { revents = p.events } ∷ all_ready ps

-- A kernel that takes what is written, and has two pieces to read; its state counts the reads, and
-- the bytes that were written.
abbrev pub talk : Os (ℕ × ℕ)
talk = record {
  close = λ h s. s;
  poll = λ ps ms s. (value 1, all_ready ps, s);
  read = λ h n s.
      if s.0 == 0
      then (value (65 ∷ 66 ∷ []), (1, s.1))
      else if s.0 == 1
      then (value (67 ∷ []), (2, s.1))
      else (failed 11, s);
  write = λ h b s. (value (length b), (s.0, s.1 + length b));
  get_flags = λ h s. (value 2, s);
  set_flags = λ h flags s. (value 0, s);
  now = λ s. (0, s);
}

abbrev pub put : Bytes → ℕ × ℕ → ℕ × ℕ
put b s = (s.0, s.1 + length b)

abbrev pub with_handlers : Endpoint
with_handlers = record {
  active = true;
  host = record { addr = host; ip_hint = any };
  has_disconnect_handler = true;
  has_request_handler = true;
  has_new_peer_handler = true;
}

-- Device 3 with handle 7 and engine 1, and all handlers.
abbrev pub device : {S : Type 0} → S → NetWorld S
device s = record { world = loaded s; endpoints = λ d. with_handlers }

-- Requests are answered by themselves.
abbrev pub echoing : {S : Type 0} → Handlers S
echoing = record {
  message = λ d m v. v;
  data_arrived = λ d b v. v;
  disconnected = λ d v. v;
  request = λ d m v. (some m.bytes, v);
  new_peer = λ d p v. v;
}

-- And here not at all.
abbrev silent : {S : Type 0} → Handlers S
silent = record echoing { request = λ d m v. (none, v) }

abbrev no_hooks : {S : Type 0} → Hooks S
no_hooks = record {
  ready_error = λ d v. some v;
  ready_hangup = λ d v. v;
  ready_peer_disconnect = λ d v. v;
}

abbrev abc : Bytes
abc = 65 ∷ 66 ∷ 67 ∷ []

abbrev pub pieces : List Bytes
pieces = (67 ∷ []) ∷ []

abbrev pub heard : NetWorld (ℕ × ℕ)
heard = with_world (device (0, 0)) (record (loaded (0, 0)) { sys = (2, 0) })

sync_request_response-answers_example :
    sync_request_response talk no_hooks 9 3 (1 ∷ []) (device (0, 0))
    ≡ some (
      record { code = ok; bytes = some abc },
      with_world
          (device (0, 0))
          (record (request_read 3 (record (loaded (0, 0)) { sys = (0, 1) })) { sys = (2, 1) }),
    )
unfolding program
sync_request_response-answers_example =
    sync_request_response-answers talk no_hooks 3 7 put
      (record { polls = λ s. refl; writes = λ b s. refl }) 9 0 (1 ∷ []) (65 ∷ 66 ∷ []) pieces _ _ _
      (device (0, 0)) refl refl (omega arith) ((λ e. cc), refl, ((λ e. cc), refl, refl))

ready_read_no_value_example :
    (w : _) × (TcpServer.Peer.ready_read talk silent 9 3 (device (0, 0)) ≡ some w)
    × (w.world.fault ≡ true)
unfolding program
ready_read_no_value_example =
    ready_read_no_value talk silent 9 3 7 (65 ∷ 66 ∷ []) pieces (device (0, 0)) (2, 0) heard refl
      refl (omega arith) ((λ e. cc), refl, ((λ e. cc), refl, refl)) refl
