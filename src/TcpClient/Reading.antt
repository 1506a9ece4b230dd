-- ===== src/TcpClient/Reading.antt =====
-- What a TCP client does with what arrives.
use transport_cpp.Prelude.{
  ℕ, suc, ◌+◌, ◌≡◌, ◌<◌, refl, Bool, true, false, some, List, [], ◌∷◌, length, ap, subst, ◌∙◌,
  arith,
}
use transport_cpp.Types.{Bytes}
use transport_cpp.Os.{Os, Outcome, value, failed}
use transport_cpp.Os.OpenFiles.{Files, without_handle}
use transport_cpp.World.Invariant.{IsWellFormed}
use transport_cpp.Devices.Steps.{new_sys-IsWellFormed}
use transport_cpp.Devices.Handles.{destroy_handle-loaded, destroy_handle-IsWellFormed}
use transport_cpp.Engine.Tables.{has_fd}
use transport_cpp.IoDevice.Receive.{buffer_size}
use transport_cpp.IoDevice.Reading.{Feeds, concat, read_io_data-Feeds, read_io_data-nothing}
use transport_cpp.Endpoints.{NetWorld, Handlers, notify, with_world, close_endpoint}
use transport_cpp.Endpoints.Reopening.{Closed, without_optional, close_endpoint-Closed}
use transport_cpp.TcpClient.{ready_read, message_read, after_read, peer_disconnected}

module _ {S : Type 0} (os : Os S) (h : Handlers S) where
  -- What has arrived is handed to `notifyCallback` in one piece, in order, with the client's host as
  -- the peer.
  pub ready_read-notifies :
      (fuel d fd : ℕ) (c : Bytes) (cs : List Bytes) (v : NetWorld S) (end : S)
      → (v.world.devices d).handle ≡ some fd
      → length cs + 1 < fuel
      → Feeds os fd (c ∷ cs) (os.read fd buffer_size v.world.sys) end
      → ready_read os h fuel d v
        ≡ some (
            notify h d
              (record { bytes = concat (c ∷ cs); peer = (v.endpoints d).host.addr })
              (with_world v (record v.world { sys = end })))
  unfolding ready_read after_read
  ready_read-notifies fuel d fd [] cs v end has f k =
      absurd (first_piece (os.read fd buffer_size v.world.sys) k)
    where
      first_piece : (r : Outcome Bytes × S) → Feeds os fd ([] ∷ cs) r end → ⊥
      first_piece (failed errno, s) k = k
      first_piece (value [], s) k = k.0 refl
      first_piece (value (b ∷ bs), s) k = cc
  ready_read-notifies fuel d fd (b ∷ bs) cs v end has f k =
      ap (after_read os h d v) (read_io_data-Feeds os fuel d fd (b ∷ bs) cs v.world end has f k)

  module _ (is_open : S → ℕ → Bool) (k : Files os is_open) where
    -- When the first read gives nothing or fails, a client with an engine and a disconnect handler
    -- closes: the handler gets a client that does not count as connected and has no handle, its handle
    -- is closed and the engine does not poll it, and the invariant still holds if it held.
    pub ready_read-closes :
        (fuel d e fd : ℕ) (v : NetWorld S) (end : S)
        → IsWellFormed v.world
        → (v.world.devices d).engine ≡ some e
        → (v.world.devices d).handle ≡ some fd
        → (v.endpoints d).has_disconnect_handler ≡ true
        → Feeds os fd [] (os.read fd buffer_size v.world.sys) end
        → (u : NetWorld S) × (ready_read os h (suc fuel) d v ≡ some (h.disconnected d u))
          × Closed is_open d (some e) (without_handle fd (is_open end)) u
          × (has_fd fd (u.world.engines e).poll_devices ≡ false)
          × IsWellFormed u.world
    unfolding ready_read after_read message_read peer_disconnected close_endpoint
    ready_read-closes fuel d e fd v end valid loaded has set f =
        let (r, read, empty) = read_io_data-nothing os fuel d fd v.world end has f in
        let v1 = with_world v (record v.world { sys = end }) in
        let valid1 = new_sys-IsWellFormed end v.world valid in
        let closed = close_endpoint-Closed os is_open k d e v1 loaded in
        (
          close_endpoint os d v1,
          ap (after_read os h d v) read ∙ ground (arith, empty, set),
          subst
              (λ b.
                Closed is_open d (some e) (without_optional b (is_open end))
                  (close_endpoint os d v1))
              has closed,
          (destroy_handle-loaded os d e fd v1.world valid1 loaded has).2,
          destroy_handle-IsWellFormed os d v1.world valid1,
        )
