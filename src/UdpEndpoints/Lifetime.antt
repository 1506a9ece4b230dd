-- ===== src/UdpEndpoints/Lifetime.antt =====
-- The life of a UDP client, sender or receiver (src/udpclient.cpp, src/udpsender.cpp,
-- src/udpreceiver.cpp) that has an engine: the calls and events that open and close its handle, as a
-- step relation.
use transport_cpp.Prelude.{ℕ, ◌≡◌, ◌<◌, Bool, Option, some, length, subst, sym, ◌∙◌}
use transport_cpp.Types.{ReturnCode, HostAddr, IpVersion}
use transport_cpp.Os.{Os}
use transport_cpp.Os.OpenFiles.{Files}
use transport_cpp.Sockets.{NetOs, hints_of}
use transport_cpp.NetworkDevice.Opening.{SocketFiles}
use transport_cpp.Endpoints.{ConnectedHost, NetWorld, sock_dgram, close_endpoint}
use transport_cpp.Endpoints.Lifetime.{
  Holds, Elsewhere, close_endpoint-Holds, Reopened-Holds, Elsewhere-Holds,
}
use transport_cpp.Endpoints.Exchanging.{AfterCall, AfterEvent}
use transport_cpp.UdpEndpoints.{
  disconnect_client, disconnect_sender, disconnect_receiver, connect_client, connect_sender,
  bind_receiver, client_ready_error, sender_ready_error,
}
use transport_cpp.UdpEndpoints.Reconnect.{
  Reopens, EndsReopened, opening-Reopens, ready_error-Reopens,
}

module _ {S : Type 0} (os : Os S) (net : NetOs S) (is_open : S → ℕ → Bool) (d e : ℕ) where
  -- The fuel is more than the number of addresses of the host.
  abbrev pub Enough : ℕ → ConnectedHost → NetWorld S → Type 0
  Enough fuel host v =
      length
        (net.get_addr_info (hints_of host.ip_hint sock_dgram) host.addr
          (close_endpoint os d v).world.sys).0.1
      < fuel

  -- A call or an event, with the other handles that are open before and after it.
  pub data Step (base : ℕ → Bool) (v : NetWorld S) : (ℕ → Bool) → NetWorld S → Type 0 where
    client_connects :
        (fuel : ℕ) (host : HostAddr) (ip_hint : IpVersion) (r : ReturnCode × NetWorld S)
        → Enough fuel (record { addr = host; ip_hint = ip_hint }) v
        → connect_client os net fuel d host ip_hint v ≡ some r
        → Step base v base r.1
    sender_connects :
        (fuel : ℕ) (host : HostAddr) (ip_hint : IpVersion) (r : ReturnCode × NetWorld S)
        → Enough fuel (record { addr = host; ip_hint = ip_hint }) v
        → connect_sender os net fuel d host ip_hint v ≡ some r
        → Step base v base r.1
    receiver_binds :
        (fuel : ℕ) (host : HostAddr) (ip_hint : IpVersion) (r : ReturnCode × NetWorld S)
        → Enough fuel (record { addr = host; ip_hint = ip_hint }) v
        → bind_receiver os net fuel d host ip_hint v ≡ some r
        → Step base v base r.1
    client_disconnects : Step base v base (disconnect_client os d v)
    sender_disconnects : Step base v base (disconnect_sender os d v)
    receiver_disconnects : Step base v base (disconnect_receiver os d v)
    client_errs :
        (fuel : ℕ) (u : NetWorld S)
        → Enough fuel (v.endpoints d).host v
        → client_ready_error os net fuel d v ≡ some u
        → Step base v base u
    sender_errs :
        (fuel : ℕ) (u : NetWorld S)
        → Enough fuel (v.endpoints d).host v
        → sender_ready_error os net fuel d v ≡ some u
        → Step base v base u
    elsewhere :
        (base' : ℕ → Bool) (u : NetWorld S) → Elsewhere is_open base' d v u → Step base v base' u

  pub data Life (base : ℕ → Bool) (v : NetWorld S) : (ℕ → Bool) → NetWorld S → Type 0 where
    here : Life base v base v
    next :
        {base' base'' : ℕ → Bool} {u x : NetWorld S}
        → Life base v base' u
        → Step base' u base'' x
        → Life base v base'' x

  module _ (k : Files os is_open) (t : SocketFiles net is_open) (base : ℕ → Bool) where
    opened-Holds :
        (fuel : ℕ) (host : ConnectedHost) (v : NetWorld S) (o : Option (ReturnCode × NetWorld S))
        (r : ReturnCode × NetWorld S)
        → Holds is_open base d e v
        → Reopens os net is_open k t fuel d e v host o
        → o ≡ some r
        → Holds is_open base d e r.1
    opened-Holds fuel host v o r holds (q, same, reopened) run =
        subst (λ o'. AfterCall (Holds is_open base d e) o') (sym same ∙ run)
          (Reopened-Holds is_open base d e v host q holds reopened)

    erred-Holds :
        (fuel : ℕ) (host : ConnectedHost) (v : NetWorld S) (o : Option (NetWorld S))
        (u : NetWorld S)
        → Holds is_open base d e v
        → EndsReopened os net is_open k t fuel d e v host o
        → o ≡ some u
        → Holds is_open base d e u
    erred-Holds fuel host v o u holds (q, same, reopened) run =
        subst (λ o'. AfterEvent (Holds is_open base d e) o') (sym same ∙ run)
          (Reopened-Holds is_open base d e v host q holds reopened)

    Step-Holds :
        {base' : ℕ → Bool} {v u : NetWorld S}
        → Step base v base' u
        → Holds is_open base d e v
        → Holds is_open base' d e u
    unfolding disconnect_client disconnect_sender disconnect_receiver
    Step-Holds {base'} {v} (client_connects fuel host ip_hint r f run) holds =
        opened-Holds fuel _ v _ r holds
          (opening-Reopens os net is_open k t fuel d e v host ip_hint holds.engine f).0 run
    Step-Holds {base'} {v} (sender_connects fuel host ip_hint r f run) holds =
        opened-Holds fuel _ v _ r holds
          (opening-Reopens os net is_open k t fuel d e v host ip_hint holds.engine f).1 run
    Step-Holds {base'} {v} (receiver_binds fuel host ip_hint r f run) holds =
        opened-Holds fuel _ v _ r holds
          (opening-Reopens os net is_open k t fuel d e v host ip_hint holds.engine f).2 run
    Step-Holds {base'} {v} client_disconnects holds =
        close_endpoint-Holds is_open base d e os k v holds
    Step-Holds {base'} {v} sender_disconnects holds =
        close_endpoint-Holds is_open base d e os k v holds
    Step-Holds {base'} {v} receiver_disconnects holds =
        close_endpoint-Holds is_open base d e os k v holds
    Step-Holds {base'} {v} (client_errs fuel u f run) holds =
        erred-Holds fuel _ v _ u holds
          (ready_error-Reopens os net is_open k t fuel d e v holds.engine f).0 run
    Step-Holds {base'} {v} (sender_errs fuel u f run) holds =
        erred-Holds fuel _ v _ u holds
          (ready_error-Reopens os net is_open k t fuel d e v holds.engine f).1 run
    Step-Holds {base'} {v} (elsewhere base'' u w) holds =
        Elsewhere-Holds is_open base d e base'' v u w holds

  -- From a state in which a UDP client, sender or receiver has an engine, the flag says whether it has
  -- a handle, and the open handles are its own and `base`, this stays so whatever sequence of
  -- connecting, binding, disconnecting and errors follows, in which other code opens and closes other
  -- handles: if the kernel's calls open and close handles as they are documented to, and the fuel is
  -- more than the number of addresses each time. The flag says whether there is a handle, and the
  -- endpoint leaves no handle open.
  pub Life-Holds :
      {base : ℕ → Bool} {v : NetWorld S} {base' : ℕ → Bool} {u : NetWorld S}
      → Files os is_open
      → SocketFiles net is_open
      → Life base v base' u
      → Holds is_open base d e v
      → Holds is_open base' d e u
  Life-Holds k t here holds = holds
  Life-Holds k t (next {base'} {base''} r s) holds = Step-Holds k t base' s (Life-Holds k t r holds)
