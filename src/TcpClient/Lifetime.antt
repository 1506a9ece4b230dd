-- ===== src/TcpClient/Lifetime.antt =====
-- The life of a TCP client (src/tcpclient.cpp) that has an engine: every sequence of its calls and
-- events, as a step relation. `h` are the user's handlers.
use transport_cpp.Prelude.{ℕ, ◌≡◌, refl, ◌<◌, Bool, some, length, subst, sym, ◌∙◌}
use transport_cpp.Int.{ℤ}
use transport_cpp.Types.{ReturnCode, Bytes, IoDataChoice, HostAddr, IpVersion}
use transport_cpp.Os.{Os}
use transport_cpp.Os.OpenFiles.{Files, Transfers}
use transport_cpp.Sockets.{NetOs, hints_of}
use transport_cpp.NetworkDevice.Opening.{SocketFiles}
use transport_cpp.NetworkDevice.{send_to, sync_send_to}
use transport_cpp.NetworkDevice.Steady.{
  Steady, async_send-Steady, send_to-Steady, sync_send_to-Steady,
}
use transport_cpp.World.{World}
use transport_cpp.TcpServer.{ServerOs}
use transport_cpp.EventLoop.{ready_write}
use transport_cpp.Loop.{join, split, os_beside, net_beside, client, Program, call, virtual_of}
use transport_cpp.IoDevice.{async_send}
use transport_cpp.IoDevice.Receive.{ReceivedData, sync_receive, sync_receive_timed}
use transport_cpp.IoDevice.Stable.{Stable, After}
use transport_cpp.Endpoints.{NetWorld, Handlers, sock_stream, with_world, close_endpoint}
use transport_cpp.Endpoints.Exchange.{sync_send, sync_request_response, sync_request_response_timed}
use transport_cpp.Endpoints.Exchanging.{
  AfterCall, AfterEvent, HooksKeep, sync_send-keeps, sync_request_response-keeps,
  sync_request_response_timed-keeps, sync_receive-keeps, sync_receive_timed-keeps,
}
use transport_cpp.Endpoints.Handling.{ListenersKeep}
use transport_cpp.Endpoints.Lifetime.{
  Holds, Holds-Stable, Elsewhere, close_endpoint-Holds, Reopened-Holds, Elsewhere-Holds,
}
use transport_cpp.TcpClient.{
  disconnect, connect_to_host, ready_read, ready_hangup, ready_peer_disconnect,
}
use transport_cpp.TcpClient.Handling.{hooks, hooks-HooksKeep, ready_read-keeps}
use transport_cpp.TcpClient.Writing.{Traffic, Holds-Steady, ready_write-Holds, same_account}
use transport_cpp.TcpClient.Reconnect.{connect_to_host-Reopened}

module _ {S : Type 0} (os : Os S) (net : NetOs S) (server : ServerOs S) (prog : Program S)
    (is_open : S → ℕ → Bool) (d e : ℕ) where
  abbrev h : Handlers S
  h = prog.handlers

  -- A call or an event, with the other handles that are open before and after it.
  pub data Step (base : ℕ → Bool) (v : NetWorld S) : (ℕ → Bool) → NetWorld S → Type 0 where
    connects :
        (fuel : ℕ) (host : HostAddr) (ip_hint : IpVersion) (r : ReturnCode × NetWorld S)
        → length
            (net.get_addr_info
              (hints_of ip_hint sock_stream)
              host
              (disconnect os d v).world.sys).0.1
          < fuel
        → connect_to_host os net fuel d host ip_hint v ≡ some r
        → Step base v base r.1
    disconnects : Step base v base (disconnect os d v)
    reads : (fuel : ℕ) (u : NetWorld S) → ready_read os h fuel d v ≡ some u → Step base v base u
    hangs_up : Step base v base (ready_hangup os h d v)
    peer_leaves : Step base v base (ready_peer_disconnect os h d v)
    sends :
        (message : IoDataChoice) (r : ReturnCode × NetWorld S)
        → sync_send os (hooks os h) d message v ≡ some r
        → Step base v base r.1
    requests :
        (fuel : ℕ) (bytes : Bytes) (r : ReceivedData × NetWorld S)
        → sync_request_response os (hooks os h) fuel d bytes v ≡ some r
        → Step base v base r.1
    requests_timed :
        (rounds fuel : ℕ) (bytes : Bytes) (timeout : ℤ) (r : ReceivedData × NetWorld S)
        → sync_request_response_timed os (hooks os h) rounds fuel d bytes timeout v ≡ some r
        → Step base v base r.1
    receives :
        (fuel : ℕ) (r : ReceivedData × World S)
        → sync_receive os fuel d v.world ≡ some r
        → Step base v base (with_world v r.1)
    receives_timed :
        (rounds fuel : ℕ) (timeout : ℤ) (r : ReceivedData × World S)
        → sync_receive_timed os rounds fuel d timeout v.world ≡ some r
        → Step base v base (with_world v r.1)
    queues :
        (message : IoDataChoice)
        → Step base v base
            (split (async_send (virtual_of os net server prog client) d message (join v)).1)
    queues_to :
        (dest : HostAddr) (message : IoDataChoice) (ip_hint : IpVersion)
        → Step base v base (split (send_to d dest message ip_hint (join v)).1)
    sends_to :
        (dest : HostAddr) (message : IoDataChoice) (ip_hint : IpVersion)
        → Step base v base (split (sync_send_to (net_beside net) d dest message ip_hint (join v)).1)
    writes : Step base v base (split (call os net server prog client ready_write d (join v)))
    elsewhere :
        (base' : ℕ → Bool) (u : NetWorld S) → Elsewhere is_open base' d v u → Step base v base' u

  pub data Reach (base : ℕ → Bool) (v : NetWorld S) : (ℕ → Bool) → NetWorld S → Type 0 where
    here : Reach base v base v
    next :
        {base' base'' : ℕ → Bool} {u x : NetWorld S}
        → Reach base v base' u
        → Step base' u base'' x
        → Reach base v base'' x

  -- The user's handlers leave the client with its account of the open handles, as its own calls do.
  abbrev pub HandlersKeep : Type 0
  HandlersKeep = (base : ℕ → Bool) → ListenersKeep d (Holds is_open base d e) h

  module _ (k : Files os is_open) (k' : Transfers os is_open) (t : SocketFiles net is_open)
      (c : Traffic os net is_open) (user : HandlersKeep) (base : ℕ → Bool) where
    abbrev Q : NetWorld S → Type 0
    Q = Holds is_open base d e

    stable : (v : NetWorld S) → Stable os d (λ u. Q (with_world v u))
    stable v = Holds-Stable is_open base d e os k' v

    closes : (v : NetWorld S) → Q v → Q (close_endpoint os d v)
    closes v holds = close_endpoint-Holds is_open base d e os k v holds

    keep : HooksKeep d Q (hooks os h)
    keep = hooks-HooksKeep os h d Q stable closes (user base)

    clocks :
        (v : NetWorld S) (w : World S)
        → Q (with_world v w)
        → Q (with_world v (record w { sys = (os.now w.sys).1 }))
    clocks v w holds =
        same_account is_open base d e (with_world v w) _ refl refl refl (c.now_keeps w.sys) holds

    steady : Steady (os_beside os) (net_beside net) d (λ w. Q (split w))
    steady = Holds-Steady is_open base d e os net k' t c

    pub Step-Holds :
        {base' : ℕ → Bool} {v u : NetWorld S}
        → Step base v base' u
        → Holds is_open base d e v
        → Holds is_open base' d e u
    unfolding disconnect ready_hangup ready_peer_disconnect
    Step-Holds {base'} {v} (connects fuel host ip_hint r f run) holds =
        let (q, same, o) =
          connect_to_host-Reopened os net is_open k t fuel d e host ip_hint v holds.engine f in
        subst (λ o'. AfterCall Q o') (sym same ∙ run)
          (Reopened-Holds is_open base d e v _ q holds o)
    Step-Holds {base'} {v} disconnects holds = closes v holds
    Step-Holds {base'} {v} (reads fuel u run) holds =
        subst (λ o. AfterEvent Q o) run
          (ready_read-keeps os h d Q stable closes (user base) fuel v holds)
    Step-Holds {base'} {v} hangs_up holds = keep.hangup v holds
    Step-Holds {base'} {v} peer_leaves holds = keep.peer_disconnect v holds
    Step-Holds {base'} {v} (sends message r run) holds =
        subst (λ o. AfterCall Q o) run
          (sync_send-keeps os d Q stable (hooks os h) keep message v holds)
    Step-Holds {base'} {v} (requests fuel bytes r run) holds =
        subst (λ o. AfterCall Q o) run
          (sync_request_response-keeps os d Q stable (hooks os h) keep fuel bytes v holds)
    Step-Holds {base'} {v} (requests_timed rounds fuel bytes timeout r run) holds =
        subst (λ o. AfterCall Q o) run
          (sync_request_response_timed-keeps os d Q stable (hooks os h) keep clocks rounds fuel
            bytes timeout v holds)
    Step-Holds {base'} {v} (receives fuel r run) holds =
        subst (λ o. After (λ u. Q (with_world v u)) o) run
          (sync_receive-keeps os d Q stable (hooks os h) keep fuel v holds)
    Step-Holds {base'} {v} (receives_timed rounds fuel timeout r run) holds =
        subst (λ o. After (λ u. Q (with_world v u)) o) run
          (sync_receive_timed-keeps os d Q stable (hooks os h) keep clocks rounds fuel timeout v
            holds)
    Step-Holds {base'} {v} (queues message) holds =
        async_send-Steady (os_beside os) (net_beside net) d (λ w. Q (split w)) steady
          (virtual_of os net server prog client) message (join v) holds
    Step-Holds {base'} {v} (queues_to dest message ip_hint) holds =
        send_to-Steady (os_beside os) (net_beside net) d (λ w. Q (split w)) steady dest message
          ip_hint (join v) holds
    Step-Holds {base'} {v} (sends_to dest message ip_hint) holds =
        sync_send_to-Steady (os_beside os) (net_beside net) d (λ w. Q (split w)) steady dest message
          ip_hint (join v) holds
    Step-Holds {base'} {v} writes holds =
        ready_write-Holds is_open base d e os net k' t c server prog keep v holds
    Step-Holds {base'} {v} (elsewhere base'' u w) holds =
        Elsewhere-Holds is_open base d e base'' v u w holds

  -- From a state in which a client has an engine, the flag says whether it has a handle, and the open
  -- handles are the client's and `base`, this stays so whatever sequence follows of connecting,
  -- disconnecting, sending at once, queueing data, receiving and requests with and without a time
  -- limit, and the events of reading, writing, hangup and the peer's disconnect, in which other code
  -- opens and closes other handles and leaves the client's handle, engine and flag alone: if the
  -- kernel's calls open and close handles as they are documented to, the fuel of connecting is more
  -- than the number of addresses, every other call that takes fuel returns, and the user's handlers
  -- leave it so. A client that counts as connected has a handle, one that does not has none, and it
  -- leaves no handle open.
  pub Reach-Holds :
      {base : ℕ → Bool} {v : NetWorld S} {base' : ℕ → Bool} {u : NetWorld S}
      → Files os is_open
      → Transfers os is_open
      → SocketFiles net is_open
      → Traffic os net is_open
      → HandlersKeep
      → Reach base v base' u
      → Holds is_open base d e v
      → Holds is_open base' d e u
  Reach-Holds k k' t c user here holds = holds
  Reach-Holds k k' t c user (next {base'} {base''} r s) holds =
      Step-Holds k k' t c user base' s (Reach-Holds k k' t c user r holds)
