-- ===== src/TcpClient/Handling.antt =====
-- The events of a TCP client (src/tcpclient.cpp) keep what the single changes, closing, and the user's
-- handlers keep.
use transport_cpp.Prelude.{ℕ, Option, none, some, [], ◌∷◌}
use transport_cpp.Types.{Error, Bytes, NetworkMessage}
use transport_cpp.Os.{Os}
use transport_cpp.World.{World}
use transport_cpp.IoDevice.Receive.{ReadData, read_io_data, is_no_error}
use transport_cpp.IoDevice.Stable.{Stable, After, read_io_data-Stable}
use transport_cpp.Endpoints.{NetWorld, Handlers, with_world, notify, close_endpoint}
use transport_cpp.Endpoints.Exchange.{Hooks}
use transport_cpp.Endpoints.Exchanging.{AfterEvent, HooksKeep}
use transport_cpp.Endpoints.Handling.{ListenersKeep, either_keeps, notify-keeps}
use transport_cpp.TcpClient.{
  peer_disconnected, message_read, after_read, ready_read, ready_hangup, ready_peer_disconnect,
}

module _ {S : Type 0} (os : Os S) (h : Handlers S) where
  -- `readyHangup` and `readyPeerDisconnect`; `readyError` is that of `IODevice`, which logs.
  abbrev pub hooks : Hooks S
  unfolding ready_hangup ready_peer_disconnect
  hooks = record {
    ready_error = λ d v. some v;
    ready_hangup = ready_hangup os h;
    ready_peer_disconnect = ready_peer_disconnect os h;
  }

  module _ (d : ℕ) (Q : NetWorld S → Type 0)
      (k : (v : NetWorld S) → Stable os d (λ u. Q (with_world v u)))
      (closes : (v : NetWorld S) → Q v → Q (close_endpoint os d v))
      (user : ListenersKeep d Q h) where
    pub peer_disconnected-keeps : (v : NetWorld S) → Q v → Q (peer_disconnected os h d v)
    unfolding peer_disconnected
    peer_disconnected-keeps v q =
        let closed = close_endpoint os d v in
        either_keeps d Q (closed.endpoints d).has_disconnect_handler (h.disconnected d closed)
          closed (user.disconnected closed (closes v q)) (closes v q)

    message_read-keeps :
        (error : Error) (bytes : Bytes) (v : NetWorld S)
        → Q v
        → Q (message_read os h d (record { error = error; bytes = bytes }) v)
    unfolding message_read peer_disconnected
    message_read-keeps error [] v q = peer_disconnected-keeps v q
    message_read-keeps error (b ∷ bs) v q =
        let m : NetworkMessage = record { bytes = b ∷ bs; peer = (v.endpoints d).host.addr } in
        either_keeps d Q (is_no_error error.code) (notify h d m v) v (notify-keeps d Q h m v user q)
          q

    after_read-keeps :
        (v : NetWorld S) (o : Option (ReadData × World S))
        → After (λ u. Q (with_world v u)) o
        → AfterEvent Q (after_read os h d v o)
    unfolding after_read
    after_read-keeps v none q = tt
    after_read-keeps v (some (r, w)) q = message_read-keeps r.error r.bytes (with_world v w) q

    pub ready_read-keeps :
        (fuel : ℕ) (v : NetWorld S) → Q v → AfterEvent Q (ready_read os h fuel d v)
    unfolding ready_read
    ready_read-keeps fuel v q =
        after_read-keeps v (read_io_data os fuel d v.world)
          (read_io_data-Stable os d (λ u. Q (with_world v u)) (k v) fuel v.world q)

    pub hooks-HooksKeep : HooksKeep d Q hooks
    unfolding ready_hangup ready_peer_disconnect
    hooks-HooksKeep = record {
      error = λ v q. q;
      hangup = peer_disconnected-keeps;
      peer_disconnect = peer_disconnected-keeps;
    }
