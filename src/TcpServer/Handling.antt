-- ===== src/TcpServer/Handling.antt =====
-- The events of a server's peer (src/tcpserver.cpp) keep what the single changes, closing, and the
-- user's handlers keep.
use transport_cpp.Prelude.{ℕ, Option, none, some, [], ◌∷◌, inl, inr, Bool-cases}
use transport_cpp.Types.{ReturnCode, Error, Bytes, NetworkMessage, plain}
use transport_cpp.Os.{Os}
use transport_cpp.World.{World}
use transport_cpp.IoDevice.Receive.{ReadData, read_io_data, is_no_error}
use transport_cpp.IoDevice.Stable.{Stable, After, read_io_data-Stable}
use transport_cpp.Endpoints.{NetWorld, Handlers, with_world, notify, close_endpoint}
use transport_cpp.Endpoints.Exchange.{sync_send}
use transport_cpp.Endpoints.Exchanging.{AfterCall, AfterEvent, HooksKeep, sync_send-keeps}
use transport_cpp.Endpoints.Handling.{ListenersKeep, either_keeps, notify-keeps}
use transport_cpp.TcpServer.Peer.{
  peer_disconnected, hooks, sent, answer, notify_server_handler, message_read, after_read,
  ready_read,
}

module _ {S : Type 0} (os : Os S) (h : Handlers S) (d : ℕ) (Q : NetWorld S → Type 0)
    (k : (v : NetWorld S) → Stable os d (λ u. Q (with_world v u)))
    (closes : (v : NetWorld S) → Q v → Q (close_endpoint os d v)) (user : ListenersKeep d Q h)
    (requests : (m : NetworkMessage) (v : NetWorld S) → Q v → Q (h.request d m v).1) where
  pub peer_disconnected-keeps : (v : NetWorld S) → Q v → Q (peer_disconnected os h d v)
  unfolding peer_disconnected
  peer_disconnected-keeps v q =
      let closed = close_endpoint os d v in
      either_keeps d Q (closed.endpoints d).has_disconnect_handler (h.disconnected d closed) closed
        (user.disconnected closed (closes v q)) (closes v q)

  hooks-HooksKeep : HooksKeep d Q (hooks os h)
  unfolding hooks
  hooks-HooksKeep = record {
    error = λ v q. q;
    hangup = peer_disconnected-keeps;
    peer_disconnect = peer_disconnected-keeps;
  }

  sent-keeps : (o : Option (ReturnCode × NetWorld S)) → AfterCall Q o → AfterEvent Q (sent os h o)
  sent-keeps none q = tt
  sent-keeps (some (code, v)) q = q

  answer-keeps : (r : Option Bytes × NetWorld S) → Q r.1 → AfterEvent Q (answer os h d r)
  unfolding answer
  answer-keeps (none, v) q = (k v).faults v.world q
  answer-keeps (some [], v) q = q
  answer-keeps (some (b ∷ bs), v) q =
      sent-keeps (sync_send os (hooks os h) d (plain (b ∷ bs)) v)
        (sync_send-keeps os d Q k (hooks os h) hooks-HooksKeep (plain (b ∷ bs)) v q)

  notify_server_handler-keeps :
      (m : NetworkMessage) (v : NetWorld S) → Q v → AfterEvent Q (notify_server_handler os h d m v)
  unfolding notify_server_handler
  notify_server_handler-keeps m v q =
      let told = notify h d m v in
      let kept = notify-keeps d Q h m v user q in
      elim (Bool-cases (told.endpoints d).has_request_handler) [
        | inl set ↦ rw (set, AfterEvent) (answer-keeps (h.request d m told) (requests m told kept))
        | inr unset ↦ rw (unset, AfterEvent) kept
      ]

  message_read-keeps :
      (error : Error) (bytes : Bytes) (v : NetWorld S)
      → Q v
      → AfterEvent Q (message_read os h d (record { error = error; bytes = bytes }) v)
  unfolding message_read
  message_read-keeps error [] v q = peer_disconnected-keeps v q
  message_read-keeps error (b ∷ bs) v q = elim (Bool-cases (is_no_error error.code)) [
    | inl good ↦
        rw (good, AfterEvent)
          (notify_server_handler-keeps (record { bytes = b ∷ bs; peer = (v.endpoints d).host.addr })
            v q)
    | inr bad ↦ rw (bad, AfterEvent) q
  ]

  after_read-keeps :
      (v : NetWorld S) (o : Option (ReadData × World S))
      → After (λ u. Q (with_world v u)) o
      → AfterEvent Q (after_read os h d v o)
  unfolding after_read
  after_read-keeps v none q = tt
  after_read-keeps v (some (r, w)) q = message_read-keeps r.error r.bytes (with_world v w) q

  pub ready_read-keeps : (fuel : ℕ) (v : NetWorld S) → Q v → AfterEvent Q (ready_read os h fuel d v)
  unfolding ready_read
  ready_read-keeps fuel v q =
      after_read-keeps v (read_io_data os fuel d v.world)
        (read_io_data-Stable os d (λ u. Q (with_world v u)) (k v) fuel v.world q)
