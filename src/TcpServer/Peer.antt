-- ===== src/TcpServer/Peer.antt =====
-- `TCP::Server::Peer` (src/tcpserver.cpp, include/transport-cpp/networking/tcpserver.h). Log lines are
-- left out.
use transport_cpp.Prelude.{ℕ, if◌then◌else◌, Bool, true, Option, none, some, [], ◌∷◌}
use transport_cpp.Types.{ReturnCode, Bytes, plain, HostAddr, NetworkMessage}
use transport_cpp.Os.{Os}
use transport_cpp.World.{World}
use transport_cpp.IoDevice.Receive.{ReadData, read_io_data, is_no_error}
use transport_cpp.Endpoints.{NetWorld, Handlers, with_world, set_endpoint, close_endpoint, notify}
use transport_cpp.Endpoints.Exchange.{Hooks, sync_send}

module _ {S : Type 0} where
  -- `setRequestHandler` and `setDisconnectHandler`, with whether the function that is given is one.
  abbrev pub set_request_handler : ℕ → Bool → NetWorld S → NetWorld S
  set_request_handler d callable v =
      set_endpoint d (record (v.endpoints d) { has_request_handler = callable }) v

  abbrev pub set_disconnect_handler : ℕ → Bool → NetWorld S → NetWorld S
  set_disconnect_handler d callable v =
      set_endpoint d (record (v.endpoints d) { has_disconnect_handler = callable }) v

  abbrev pub get_peer_addr : ℕ → NetWorld S → HostAddr
  get_peer_addr d v = (v.endpoints d).host.addr

  module _ (os : Os S) (h : Handlers S) where
    unfoldable pub peer_disconnected : ℕ → NetWorld S → NetWorld S
    unfolding close_endpoint
    peer_disconnected d v =
        let closed = close_endpoint os d v in
        if (closed.endpoints d).has_disconnect_handler then h.disconnected d closed else closed

    -- `readyHangup` and `readyPeerDisconnect`; `readyError` is that of `IODevice`, which logs.
    unfoldable pub hooks : Hooks S
    unfolding peer_disconnected
    hooks = record {
      ready_error = λ d v. some v;
      ready_hangup = peer_disconnected;
      ready_peer_disconnect = peer_disconnected;
    }

    abbrev pub sent : Option (ReturnCode × NetWorld S) → Option (NetWorld S)
    sent none = none
    sent (some (code, v)) = some v

    -- An answer without a value is read as if it had one.
    unfoldable pub answer : ℕ → Option Bytes × NetWorld S → Option (NetWorld S)
    unfolding sync_send hooks
    answer d (none, v) = some (with_world v (record v.world { fault = true }))
    answer d (some [], v) = some v
    answer d (some (b ∷ bs), v) = sent (sync_send os hooks d (plain (b ∷ bs)) v)

    unfoldable pub notify_server_handler : ℕ → NetworkMessage → NetWorld S → Option (NetWorld S)
    unfolding notify answer
    notify_server_handler d m v =
        let told = notify h d m v in
        if (told.endpoints d).has_request_handler then answer d (h.request d m told) else some told

    unfoldable pub message_read : ℕ → ReadData → NetWorld S → Option (NetWorld S)
    unfolding peer_disconnected is_no_error notify_server_handler
    message_read d r v = elim r.bytes [
      | [] ↦ some (peer_disconnected d v)
      | b ∷ bs ↦
          if is_no_error r.error.code
          then notify_server_handler d (record { bytes = b ∷ bs; peer = (v.endpoints d).host.addr })
              v
          else some v
    ]

    unfoldable pub after_read : ℕ → NetWorld S → Option (ReadData × World S) → Option (NetWorld S)
    unfolding message_read
    after_read d v none = none
    after_read d v (some (r, w)) = message_read d r (with_world v w)

    unfoldable pub ready_read : ℕ → ℕ → NetWorld S → Option (NetWorld S)
    unfolding after_read read_io_data
    ready_read fuel d v = after_read d v (read_io_data os fuel d v.world)
