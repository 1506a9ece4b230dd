-- ===== src/TcpClient/Writing.antt =====
-- Writing and the queues of a TCP client in the event loop (src/networkdevice.cpp, src/iodevice.cpp,
-- src/tcpclient.cpp) leave it with its account of the open handles.
use transport_cpp.Prelude.{ℕ, ◌≡◌, refl, ◌∙◌, Bool, arith}
use transport_cpp.Types.{Bytes}
use transport_cpp.Os.{Os}
use transport_cpp.Os.OpenFiles.{Transfers}
use transport_cpp.World.{World}
use transport_cpp.Sockets.{NetOs}
use transport_cpp.Devices.{request_read, request_write}
use transport_cpp.NetworkDevice.Opening.{SocketFiles}
use transport_cpp.NetworkDevice.Steady.{
  Steady, MethodsKeep, perform_sync_send-Steady, ready_write-Steady,
}
use transport_cpp.IoDevice.Stable.{Stable}
use transport_cpp.Endpoints.{NetWorld}
use transport_cpp.Endpoints.Exchanging.{HooksKeep}
use transport_cpp.Endpoints.Lifetime.{Holds}
use transport_cpp.TcpServer.{ServerOs}
use transport_cpp.TcpClient.{ready_hangup, ready_peer_disconnect}
use transport_cpp.TcpClient.Handling.{hooks}
use transport_cpp.Loop.{
  Joined, join, split, os_beside, net_beside, client, Program, call, call_hangup,
  call_peer_disconnect, events_of, virtual_of,
}
use transport_cpp.EventLoop.{ready_write}

-- `sendto` and the clock open and close no handle.
pub record Traffic {S : Type 0} (os : Os S) (net : NetOs S) (is_open : S → ℕ → Bool) : Type 0 where
  pub send_keeps : (fd : ℕ) (b a : Bytes) (s : S) → is_open (net.send_to fd b a s).1 ≡ is_open s
  pub now_keeps : (s : S) → is_open (os.now s).1 ≡ is_open s

module _ {S : Type 0} (is_open : S → ℕ → Bool) (base : ℕ → Bool) (d e : ℕ) where
  -- The account, with the endpoints beside the kernel's state.
  abbrev pub P : World (Joined S) → Type 0
  P w = Holds is_open base d e (split w)

  pub same_account :
      (v u : NetWorld S)
      → (u.world.devices d).handle ≡ (v.world.devices d).handle
      → (u.world.devices d).engine ≡ (v.world.devices d).engine
      → (u.endpoints d).active ≡ (v.endpoints d).active
      → is_open u.world.sys ≡ is_open v.world.sys
      → Holds is_open base d e v
      → Holds is_open base d e u
  same_account v u handle engine flag files holds = record {
    engine = engine ∙ holds.engine;
    accounts = rw (handle, flag, files) holds.accounts;
  }

  module _ (os : Os S) (net : NetOs S) (k : Transfers os is_open) (t : SocketFiles net is_open)
      (c : Traffic os net is_open) where
    Holds-Stable_joined : Stable (os_beside os) d P
    unfolding request_read
    Holds-Stable_joined = record {
      polls = λ ps ms w holds.
          same_account (split w) _ refl refl refl (k.poll_keeps ps ms w.sys.kernel) holds;
      reads = λ h n w holds.
          same_account (split w) _ refl refl refl (k.read_keeps h n w.sys.kernel) holds;
      writes = λ h b w holds.
          same_account (split w) _ refl refl refl (k.write_keeps h b w.sys.kernel) holds;
      faults = λ w holds. same_account (split w) _ refl refl refl refl holds;
      errs = λ code text w holds.
          same_account (split w) _ (ground arith) (ground arith) refl refl holds;
      requests = λ w holds. rw holds.engine (same_account (split w) _ refl refl refl refl holds);
    }

    pub Holds-Steady : Steady (os_beside os) (net_beside net) d P
    unfolding request_write
    Holds-Steady = record {
      stable = Holds-Stable_joined;
      request_writes =
          λ w holds. rw holds.engine (same_account (split w) _ refl refl refl refl holds);
      io_parts = λ r w holds. same_account (split w) _ refl refl refl refl holds;
      net_parts = λ r w holds. same_account (split w) _ refl refl refl refl holds;
      sends = λ h b a w holds.
          same_account (split w) _ refl refl refl (c.send_keeps h b a w.sys.kernel) holds;
      looks_up = λ hints host w holds.
          same_account (split w) _ refl refl refl (t.get_addr_info_keeps hints host w.sys.kernel)
            holds;
    }

    module _ (server : ServerOs S) (prog : Program S)
        (keep : HooksKeep d (Holds is_open base d e) (hooks os prog.handlers)) where
      events_of-MethodsKeep : MethodsKeep d P (events_of os net server prog client)
      unfolding events_of call_hangup call_peer_disconnect ready_hangup ready_peer_disconnect
      events_of-MethodsKeep = record {
        error = λ w holds. holds;
        hangup = λ w holds. keep.hangup (split w) holds;
        peer_disconnect = λ w holds. keep.peer_disconnect (split w) holds;
      }

      pub ready_write-Holds :
          (v : NetWorld S)
          → Holds is_open base d e v
          → Holds is_open base d e (split (call os net server prog client ready_write d (join v)))
      unfolding call virtual_of
      ready_write-Holds v holds =
          ready_write-Steady (os_beside os) (net_beside net) d P Holds-Steady
            (virtual_of os net server prog client)
            (perform_sync_send-Steady (os_beside os) (net_beside net) d P Holds-Steady
              (events_of os net server prog client) events_of-MethodsKeep)
            (join v) holds
