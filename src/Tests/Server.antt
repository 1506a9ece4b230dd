-- ===== src/Tests/Server.antt =====
-- A TCP server in the event loop at concrete states, and a run of two turns: a connection, and the
-- first request on it.
use transport_cpp.Prelude.{
  Bool, fun_ext, some, false, ℕ, zero, suc, ◌+◌, ◌≡◌, refl, ◌==◌, if◌then◌else◌, true, List, [],
  ◌∷◌, length, arith,
}
use transport_cpp.Int.{pos}
use transport_cpp.Types.{Bytes, PollFd, pollin, pollhup}
use transport_cpp.Engine
use transport_cpp.Os.{Os, value, failed}
use transport_cpp.World.{World}
use transport_cpp.Registry.{register_device}
use transport_cpp.Devices.{register_new_handle, request_read}
use transport_cpp.Sockets.{NetOs, inet, unknown}
use transport_cpp.Endpoints.{NetWorld, with_world, notify}
use transport_cpp.EventLoop.{await_once_upto, await_forever, classify, ready_hangup}
use transport_cpp.TcpServer.{ServerOs, listen, notify_new_peer}
use transport_cpp.TcpServer.Accepting.{Serves}
use transport_cpp.TcpServer.Peer.{set_request_handler}
use transport_cpp.Loop.{Joined, Program, acceptor, peer, client, join, os_beside, ready}
use transport_cpp.Loop.Lasting.{UserKeeps, await_forever_lasts}
use transport_cpp.Tests.Loop.{handles-with_input}
use transport_cpp.Loop.Closing.{await_once_upto-closes}
use transport_cpp.Os.OpenFiles.{Files, without_handle}
use transport_cpp.Engine.Tables.{has_fd}
use transport_cpp.World.Invariant.{IsWellFormed}
use transport_cpp.Endpoints.Reopening.{Closed}
use transport_cpp.Loop.Turn.{await_once_upto-answers, await_once_upto-accepts, after}
use transport_cpp.Tests.{boot, quiet, with_input, feed, opened, loaded}
use transport_cpp.Tests.Engines.{loaded-valid}
use transport_cpp.Tests.Peers.{talk, put, pieces, device, echoing}
use transport_cpp.Tests.Reconnects.{accepting, caller}

program : Unit {0}
unfolding opened loaded register_device register_new_handle Engine.register_new_handle
    Engine.initial notify request_read Engine.request_read classify
program = tt

-- No call on sockets is made here.
abbrev no_net : {S : Type 0} → NetOs S
no_net = record {
  get_addr_info = λ hints host s. ((1, []), s);
  gai_strerror = λ status. "error";
  socket = λ a s. (failed 24, s);
  connect = λ fd b s. (failed 111, s);
  bind = λ fd b s. (failed 111, s);
  reuse_addr = λ fd s. (value tt, s);
  send_to = λ fd b a s. (failed 111, s);
  recv_from = λ fd n s. (failed 11, s);
  get_sock_name = λ fd s. (value unknown, s);
  errno = λ s. 111;
}

abbrev of_peers : {S : Type 0} → Program S
of_peers = record { class_of = λ d. peer; fresh = λ v. 4; handlers = echoing; fuel = 9 }

abbrev of_acceptors : {S : Type 0} → Program S
of_acceptors = record of_peers { class_of = λ d. acceptor }

abbrev ready_list : List PollFd
ready_list = with_input ((device {S = ℕ × ℕ} (0, 0)).world.engines 1).poll_devices

await_once_upto-answers_example :
    let v = after talk no_net (accepting (value tt)) of_peers 1 ready_list (0, 0) (device (0, 0)) in
    let u = with_world v (record v.world { sys = (2, 0) }) in
    await_once_upto
      (ready talk no_net (accepting (value tt)) of_peers)
      1
      (os_beside talk)
      (pos 100)
      (join (device (0, 0)))
    ≡ (true, join (with_world u (request_read 3 (record u.world { sys = (2, 3) }))))
unfolding program
await_once_upto-answers_example =
    let v = after talk no_net (accepting (value tt)) of_peers 1 ready_list (0, 0) (device (0, 0)) in
    let u = with_world v (record v.world { sys = (2, 0) }) in
    await_once_upto-answers talk no_net (accepting (value tt)) of_peers 1 (pos 100) (device (0, 0))
      u 0 7 3 7 65 ready_list (0, 0) (2, 0) (65 ∷ 66 ∷ []) (66 ∷ 67 ∷ []) pieces put refl
      (omega arith) refl refl refl refl ((λ e. cc), refl, ((λ e. cc), refl, refl)) (omega arith)
      refl refl refl (record { polls = λ s. refl; writes = λ b s. refl })

await_once_upto-accepts_example :
    let server = accepting (value tt) in
    (u : NetWorld ℕ) × (await_once_upto
        (ready feed no_net server of_acceptors)
        1
        (os_beside feed)
        (pos 100)
        (join (device boot))
      ≡ (true, join (listen feed server 3 (notify_new_peer feed server echoing 3 4 u))))
    × Serves feed 1 4 8 caller u
unfolding program
await_once_upto-accepts_example =
    await_once_upto-accepts feed no_net (accepting (value tt)) of_acceptors 1 (pos 100)
      (device boot) 0 7 3 (with_input ((loaded boot).engines 1).poll_devices) boot boot (value 8)
      (inet (value "10.0.0.2") 4000) caller refl (omega arith) refl refl refl refl loaded-valid refl
      refl refl (λ e. cc) refl refl refl

abbrev of_clients : {S : Type 0} → Program S
of_clients = record of_peers { class_of = λ d. client }

abbrev hanging : List PollFd → List PollFd
hanging [] = []
hanging (p ∷ ps) = record p { revents = pollhup } ∷ ps

-- A kernel on which the first handle hangs up, and no handle counts as open.
abbrev hung : Os ℕ
hung = record quiet { poll = λ ps ms s. (value 1, hanging ps, s) }

abbrev none_open : ℕ → ℕ → Bool
none_open s h = false

hung-Files : Files hung none_open
hung-Files = record {
  closes = λ h s. fun_ext (λ k. ground arith);
  get_flags_keeps = λ h s. refl;
  set_flags_keeps = λ h flags s. refl;
  no_minus_one = λ s. refl;
}

await_once_upto-closes_example :
    let server = accepting (value tt) in
    (u : NetWorld ℕ) × (await_once_upto
        (ready hung no_net server of_clients)
        1
        (os_beside hung)
        (pos 100)
        (join (device boot))
      ≡ (true, join (echoing.disconnected 3 u)))
    × Closed none_open 3 (some 1) (without_handle 7 (none_open boot)) u
    × (has_fd 7 (u.world.engines 1).poll_devices ≡ false)
    × IsWellFormed u.world
unfolding program
await_once_upto-closes_example =
    await_once_upto-closes hung no_net (accepting (value tt)) of_clients 1 none_open ready_hangup
      (pos 100) (device boot) 0 7 3 (hanging ((loaded boot).engines 1).poll_devices) boot client
      hung-Files refl (omega arith) refl refl refl refl refl refl loaded-valid refl refl refl

echoing-UserKeeps : {S : Type 0} → UserKeeps {S = S} echoing
echoing-UserKeeps = record {
  listeners =
      λ d. record { message = λ m v k. k; data_arrived = λ b v k. k; disconnected = λ v k. k };
  request = λ d m v k. k;
}

await_forever_lasts_example :
    let server = accepting (value tt) in
    IsWellFormed (
      await_forever
        (os_beside feed)
        (ready feed no_net server of_peers)
        1
        1000
        (join (device boot)))
await_forever_lasts_example =
    await_forever_lasts feed no_net (accepting (value tt)) of_peers 1 1000 (device boot)
      (λ ps ms s. handles-with_input ps) echoing-UserKeeps (λ d. refl) loaded-valid

-- A kernel with the listening handle 7: a connection waits there at first, and then three bytes on
-- the handle 8. Its state counts the accepted connections, the reads, and the bytes written.
record Wire : Type 0 where
  accepted : ℕ
  reads : ℕ
  written : List Bytes

abbrev fill : ℕ → List PollFd → List PollFd
fill h [] = []
fill h (p ∷ ps) = record p { revents = if p.fd == h then pollin else 0 } ∷ fill h ps

abbrev wire : Os Wire
wire = record {
  close = λ h s. s;
  poll = λ ps ms s. (value 1, fill (if s.accepted == 0 then 7 else 8) ps, s);
  read = λ h n s.
      if s.reads == 0 then (value (65 ∷ 66 ∷ 67 ∷ []), record s { reads = 1 }) else (failed 11, s);
  write = λ h b s. (value (length b), record s { written = b ∷ s.written });
  get_flags = λ h s. (value 2, s);
  set_flags = λ h flags s. (value 0, s);
  now = λ s. (0, s);
}

abbrev wire_server : ServerOs Wire
wire_server = record {
  listen = λ fd s. (value tt, s);
  accept = λ fd s. (value 8, inet (value "10.0.0.2") 4000, record s { accepted = s.accepted + 1 });
}

-- The acceptor is at 3, the peers at other addresses; each new peer is given the request handler.
abbrev echo_program : Program Wire
echo_program = record {
  class_of = λ d. if d == 3 then acceptor else peer;
  fresh = λ v. 4;
  handlers = record echoing { new_peer = λ d p v. set_request_handler p true v };
  fuel = 3;
}

abbrev turns : ℕ → World (Joined Wire) → World (Joined Wire)
turns zero w = w
turns (suc n) w =
    turns n
      (await_once_upto (ready wire no_net wire_server echo_program) 1 (os_beside wire) (pos 100)
        w).1

-- What was accepted is polled after the first turn, and answered in the second.
two_turns :
    (turns 2 (join (device (record { accepted = 0; reads = 0; written = [] })))).sys.kernel
    ≡ record { accepted = 1; reads = 1; written = (65 ∷ 66 ∷ 67 ∷ []) ∷ [] }
unfolding program await_once_upto ready
two_turns = refl
