-- ===== src/TcpServer/Hangup.antt =====
-- A hangup of an acceptor (`Acceptor::readyHangup`, src/tcpserver.cpp).
use transport_cpp.Prelude.{ℕ, ◌≡◌, refl, true, false, none, some, arith}
use transport_cpp.Os.{Os}
use transport_cpp.Devices.{destroy_handle}
use transport_cpp.Endpoints.{NetWorld, close_endpoint}
use transport_cpp.TcpServer.{is_bound, disconnect, ready_hangup}

-- A hangup closes an acceptor as `disconnect` does, but leaves the flag: an acceptor with an engine
-- that is bound when its handle hangs up has no handle after it, and `isBound` still says that it is
-- bound; after `disconnect` `isBound` says that it is not.
pub ready_hangup_stays_bound :
    {S : Type 0} (os : Os S) (d e : ℕ) (v : NetWorld S)
    → (v.world.devices d).engine ≡ some e
    → is_bound d v ≡ true
    → (is_bound d (ready_hangup os d v) ≡ true)
      × (((ready_hangup os d v).world.devices d).handle ≡ none)
      × (is_bound d (disconnect os d v) ≡ false)
      × ((ready_hangup os d v).world ≡ (disconnect os d v).world)
unfolding ready_hangup disconnect close_endpoint destroy_handle
ready_hangup_stays_bound os d e v loaded bound = (bound, ground (arith, loaded), ground arith, refl)
