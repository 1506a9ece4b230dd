-- ===== src/TcpServer/Accepting.antt =====
-- The acceptor makes a peer of a connection, and the engine serves it.
use transport_cpp.Prelude.{ℕ, ◌≡◌, ◌≢◌, refl, true, none, some, lookup, arith, ◌∙◌, ap, sym, subst}
use transport_cpp.Types.{HostAddr}
use transport_cpp.Engine.Tables.{has_fd}
use transport_cpp.Os.{Os, Outcome, value, failed}
use transport_cpp.World.{World}
use transport_cpp.World.Invariant.{IsWellFormed, is_handle_free}
use transport_cpp.Registry.{register_device}
use transport_cpp.Registry.Admit.{register_device-IsWellFormed, register_device-serves}
use transport_cpp.Devices
use transport_cpp.Devices.{register_child_device}
use transport_cpp.Devices.Handles.{register_new_handle-IsWellFormed}
use transport_cpp.Devices.Steps.{new_sys-IsWellFormed}
use transport_cpp.IoDevice.{register_new_handle, add_nonblock}
use transport_cpp.Sockets
use transport_cpp.Endpoints.{NetWorld, Handlers, with_world}
use transport_cpp.TcpServer.{
  ServerOs, accepted_handle, peer_address, constructed, new_peer, listen, notify_new_peer,
  admit_peer, after_accept, ready_read,
}

module _ {S : Type 0} where
  constructed-IsWellFormed :
      (p : ℕ) (addr : HostAddr) (v : NetWorld S)
      → IsWellFormed v.world
      → (v.world.devices p).engine ≡ none
      → IsWellFormed (constructed p addr v).world
  constructed-IsWellFormed p addr v valid n = record {
    consistent = valid.consistent;
    distinct = valid.distinct;
    listed = λ e d. ground (arith, valid.listed e d);
    owner = λ e h d. ground (arith, valid.owner e h d);
  }

  module _ (os : Os S) where
    add_nonblock-IsWellFormed :
        (h : ℕ) (r : Outcome ℕ × S) (w : World S)
        → IsWellFormed w
        → IsWellFormed (add_nonblock os h r w)
    add_nonblock-IsWellFormed h (failed errno, s) w valid = new_sys-IsWellFormed s w valid
    add_nonblock-IsWellFormed h (value flags, s) w valid = new_sys-IsWellFormed _ w valid

    -- Setting the flags of a handle changes neither devices nor engines.
    add_nonblock-same :
        (h : ℕ) (r : Outcome ℕ × S) (w : World S)
        → ((add_nonblock os h r w).devices ≡ w.devices)
          × ((add_nonblock os h r w).engines ≡ w.engines)
    add_nonblock-same h (failed errno, s) w = (refl, refl)
    add_nonblock-same h (value flags, s) w = (refl, refl)

    -- The state in which a new peer is registered with the acceptor's engine.
    record Made (p n : ℕ) (v u : NetWorld S) : Type 0 where
      valid : IsWellFormed u.world
      no_engine : (u.world.devices p).engine ≡ none
      handle : (u.world.devices p).handle ≡ some n
      engines : u.world.engines ≡ v.world.engines
      others : (d : ℕ) → p ≢ d → u.world.devices d ≡ v.world.devices d

    new_peer-Made :
        (p n : ℕ) (addr : HostAddr) (v : NetWorld S)
        → IsWellFormed v.world
        → (v.world.devices p).engine ≡ none
        → Made p n v (new_peer os p n addr v)
    unfolding new_peer register_new_handle Devices.register_new_handle
    new_peer-Made p n addr v valid unloaded =
        let w = (constructed p addr v).world in
        let w1 = Devices.register_new_handle p (some n) w in
        let r = os.get_flags n w1.sys in
        let same = add_nonblock-same n r w1 in
        record {
          valid = add_nonblock-IsWellFormed n r w1 (
              register_new_handle-IsWellFormed p n w
                (constructed-IsWellFormed p addr v valid unloaded) (λ e loaded. ground arith));
          no_engine = ap (λ f. (f p).engine) same.0 ∙ ground arith;
          handle = ap (λ f. (f p).handle) same.0 ∙ ground arith;
          engines = same.1 ∙ ground arith;
          others = λ d other. ap (λ f. f d) same.0 ∙ ground arith;
        }

    -- What the handler for new peers finds: the peer at `p` has the handle `n` and the engine `e`, which
    -- polls the handle and maps it to the peer; it counts as connected, to `addr`.
    pub record Serves (e p n : ℕ) (addr : HostAddr) (u : NetWorld S) : Type 0 where
      pub valid : IsWellFormed u.world
      pub engine : (u.world.devices p).engine ≡ some e
      pub mapped : lookup n (u.world.engines e).device_mapping ≡ some p
      pub polled : has_fd n (u.world.engines e).poll_devices ≡ true
      pub active : (u.endpoints p).active ≡ true
      pub address : (u.endpoints p).host.addr ≡ addr

    module _ (server : ServerOs S) (h : Handlers S) (d e p : ℕ) where
      -- The registration of what `new_peer` made.
      admit_peer-Serves :
          (n : ℕ) (addr : HostAddr) (v : NetWorld S)
          → IsWellFormed v.world
          → (v.world.devices d).engine ≡ some e
          → (v.world.devices p).engine ≡ none
          → p ≢ d
          → lookup n (v.world.engines e).device_mapping ≡ none
          → Serves e p n addr (admit_peer os server h d p n addr v)
      unfolding admit_peer register_child_device new_peer
      admit_peer-Serves n addr v valid loaded unloaded other unmapped =
          let made = new_peer os p n addr v in
          let m = new_peer-Made p n addr v valid unloaded in
          let free : is_handle_free e p made.world ≡ true =
            ground (arith, m.handle, ap (λ f. f e) m.engines, unmapped) in
          let child : register_child_device d p made.world ≡ (register_device e p made.world).1 =
            ground (arith, m.others d other, loaded) in
          let s = register_device-serves e p n made.world m.valid free m.handle in
          record {
            valid =
                subst (λ w. IsWellFormed w) (sym child)
                  (register_device-IsWellFormed e p made.world m.valid free);
            engine = ap (λ w. (w.devices p).engine) child ∙ s.0;
            mapped = ap (λ w. lookup n (w.engines e).device_mapping) child ∙ s.2;
            polled = ap (λ w. has_fd n (w.engines e).poll_devices) child ∙ s.3;
            active = ground arith;
            address = ground arith;
          }

      -- `readyRead` of an acceptor with an engine and a handle makes a peer at `p`, an address that no
      -- device with an engine has, with whatever `accept` returned as its handle, also the -1 of a
      -- failure, if the invariant holds, the address of the other side can be written as text, and the
      -- engine has no device under that handle. The handler for new peers then finds the engine
      -- serving the peer and the invariant kept, and `listen` is called after it.
      pub ready_read-Serves :
          (sock : ℕ) (addr : HostAddr) (r : Outcome ℕ) (their_addr : Sockets.Peer) (s : S)
          (v : NetWorld S)
          → IsWellFormed v.world
          → (v.world.devices d).engine ≡ some e
          → (v.world.devices d).handle ≡ some sock
          → (v.world.devices p).engine ≡ none
          → p ≢ d
          → server.accept sock v.world.sys ≡ (r, their_addr, s)
          → peer_address their_addr ≡ some addr
          → lookup (accepted_handle r) (v.world.engines e).device_mapping ≡ none
          → (u : NetWorld S) × (ready_read os server h d p v
              ≡ listen os server d (notify_new_peer os server h d p u))
            × Serves e p (accepted_handle r) addr u
      unfolding ready_read after_accept
      ready_read-Serves sock addr r their_addr s v valid loaded has unloaded other accepts told
            unmapped =
          let v1 = with_world v (record v.world { sys = s }) in
          (
            admit_peer os server h d p (accepted_handle r) addr v1,
            ground (arith, accepts, told),
            admit_peer-Serves (accepted_handle r) addr v1 (new_sys-IsWellFormed s v.world valid)
                loaded unloaded other unmapped,
          )
