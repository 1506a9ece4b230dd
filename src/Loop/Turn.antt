-- ===== src/Loop/Turn.antt =====
-- One turn of the event loop in which one handle is ready for input, and what it does for a peer, an
-- acceptor and a client.
use transport_cpp.Prelude.{
  ℕ, suc, ◌+◌, ◌≤◌, ◌<◌, ◌≡◌, ◌≢◌, refl, true, some, none, List, ◌∷◌, length, lookup, arith, ◌∙◌,
  ap,
}
use transport_cpp.Int.{ℤ}
use transport_cpp.Types.{Bytes, PollFd, HostAddr}
use transport_cpp.Os.{Os, Outcome, value}
use transport_cpp.World.{World}
use transport_cpp.World.Invariant.{IsWellFormed}
use transport_cpp.Devices.{request_read}
use transport_cpp.Sockets
use transport_cpp.Sockets.{NetOs}
use transport_cpp.IoDevice.Receive.{buffer_size}
use transport_cpp.IoDevice.Reading.{Feeds}
use transport_cpp.IoDevice.Write.{Writable}
use transport_cpp.EventLoop.{
  Event, ready_read, ready_write, ready_error, ready_hangup, ready_invalid, ready_peer_disconnect,
  push, Ready, cleared, dispatch, dispatch_all, await_once_upto, after_poll, polled,
}
use transport_cpp.EventLoop.Calls.{sorted}
use transport_cpp.EventLoop.Polled.{handles, polled-IsWellFormed}
use transport_cpp.EventLoop.Collect.{raised, collect-sorted}
use transport_cpp.Endpoints.{NetWorld, with_world}
use transport_cpp.TcpServer.{ServerOs, accepted_handle, peer_address, listen, notify_new_peer}
use transport_cpp.TcpServer.Requests.{told, request_of, ready_read-answers}
use transport_cpp.TcpServer.Accepting.{Serves, ready_read-Serves}
use transport_cpp.Loop.{
  join, os_beside, TcpClass, acceptor, peer, Program, or_else, call_read, call, ready,
}

-- One handle with one event, and no other with any.
abbrev pub only : Event → ℕ → Ready
only event fd = push (some event) fd cleared

module _ {S : Type 0} (ready' : Event → ℕ → World S → World S) (e : ℕ) where
  dispatch_all-only :
      (event : Event) (fd d : ℕ) (w : World S)
      → lookup fd (w.engines e).device_mapping ≡ some d
      → dispatch_all ready' e (only event fd) w ≡ ready' event d w
  unfolding dispatch_all dispatch
  dispatch_all-only ready_read fd d w found = rw found refl
  dispatch_all-only ready_write fd d w found = rw found refl
  dispatch_all-only ready_error fd d w found = rw found refl
  dispatch_all-only ready_hangup fd d w found = rw found refl
  dispatch_all-only ready_invalid fd d w found = rw found refl
  dispatch_all-only ready_peer_disconnect fd d w found = rw found refl

  -- The turn of the loop: one virtual call.
  pub await_once_upto-only :
      (os : Os S) (event : Event) (ms : ℤ) (w : World S) (n fd d : ℕ) (fds : List PollFd) (s : S)
      → os.poll (w.engines e).poll_devices ms w.sys ≡ (value (suc n), fds, s)
      → raised fds ≤ suc n
      → sorted fds ≡ only event fd
      → lookup fd (w.engines e).device_mapping ≡ some d
      → await_once_upto ready' e os ms w ≡ (true, ready' event d (polled e fds s w))
  unfolding await_once_upto
  await_once_upto-only os event ms w n fd d fds s p r one found =
      let same_list : ((polled e fds s w).engines e).poll_devices ≡ fds = ground arith in
      let same_map : lookup fd ((polled e fds s w).engines e).device_mapping ≡ some d =
        ground (arith, found) in
      ap (λ (t : Outcome ℕ × List PollFd × S). after_poll ready' e t.0 (polled e t.1 t.2 w)) p
      ∙ ap (λ k. (true, dispatch_all ready' e k (polled e fds s w)))
          (collect-sorted (suc n) ((polled e fds s w).engines e).poll_devices (rw same_list r)
            ∙ ap sorted same_list
            ∙ one)
      ∙ ap (λ w'. (true, w')) (dispatch_all-only event fd d (polled e fds s w) same_map)

module _ {S : Type 0} (os : Os S) (net : NetOs S) (server : ServerOs S) (prog : Program S)
    (e : ℕ) where
  -- The state after `poll`.
  abbrev pub after : List PollFd → S → NetWorld S → NetWorld S
  after fds s v = with_world v (polled e fds s v.world)

  pub turn-call :
      (event : Event) (ms : ℤ) (v : NetWorld S) (n fd d : ℕ) (fds : List PollFd) (s : S)
      (c : TcpClass)
      → os.poll (v.world.engines e).poll_devices ms v.world.sys ≡ (value (suc n), fds, s)
      → raised fds ≤ suc n
      → sorted fds ≡ only event fd
      → lookup fd (v.world.engines e).device_mapping ≡ some d
      → prog.class_of d ≡ c
      → await_once_upto (ready os net server prog) e (os_beside os) ms (join v)
        ≡ (true, call os net server prog c event d (join (after fds s v)))
  unfolding ready
  turn-call event ms v n fd d fds s c p r one found is =
      await_once_upto-only (ready os net server prog) e (os_beside os) event ms (join v) n fd d fds
        (record { kernel = s; endpoints = v.endpoints })
        (ap
          (λ (t : Outcome ℕ × List PollFd × S).
            (t.0, t.1, record { kernel = t.2; endpoints = v.endpoints }))
          p)
        r one found
      ∙ rw is refl

  -- A turn of the event loop in which only the handle `fd` of a peer has input hands the peer's
  -- request handler everything that has arrived, in one piece and in order, and writes what the
  -- handler answers to the peer's handle: if `poll` reports just that, the engine maps `fd` to the
  -- peer at `d`, which has that handle, the fuel is more than the number of pieces, a request handler
  -- is set and answers with bytes, and the handle that the peer has then takes what is written.
  -- Endpoints, engines and devices are as the handlers left them, but for the request to read.
  pub await_once_upto-answers :
      (ms : ℤ) (v u : NetWorld S) (n fd d h b : ℕ) (fds : List PollFd) (s end : S) (c bs : Bytes)
      (cs : List Bytes) (put : Bytes → S → S)
      → os.poll (v.world.engines e).poll_devices ms v.world.sys ≡ (value (suc n), fds, s)
      → raised fds ≤ suc n
      → sorted fds ≡ only ready_read fd
      → lookup fd (v.world.engines e).device_mapping ≡ some d
      → prog.class_of d ≡ peer
      → (v.world.devices d).handle ≡ some fd
      → Feeds os fd (c ∷ cs) (os.read fd buffer_size s) end
      → length cs + 1 < prog.fuel
      → ((told os prog.handlers prog.fuel d fd c cs (after fds s v) end).endpoints
          d).has_request_handler
        ≡ true
      → prog.handlers.request d
          (request_of os prog.handlers d (c ∷ cs) (after fds s v))
          (told os prog.handlers prog.fuel d fd c cs (after fds s v) end)
        ≡ (some (b ∷ bs), u)
      → (u.world.devices d).handle ≡ some h
      → Writable os h put
      → await_once_upto (ready os net server prog) e (os_beside os) ms (join v) ≡ (
        true,
        join (with_world u (request_read d (record u.world { sys = put (b ∷ bs) u.world.sys }))),
      )
  unfolding call call_read
  await_once_upto-answers ms v u n fd d h b fds s end c bs cs put p r one found is has feeds fuel
        set answers open_still k =
      turn-call ready_read ms v n fd d fds s peer p r one found is
      ∙ ap (λ o. (true, join (or_else (after fds s v) o)))
          (ready_read-answers os prog.handlers prog.fuel d fd c cs (after fds s v) end put h b bs u
            k has set fuel feeds answers open_still)

  -- A turn of the event loop in which only the handle `sock` of an acceptor has input makes a peer of
  -- the connection, at the address that `new` gives: if `poll` reports just that and keeps the handles of the list, the invariant holds,
  -- the acceptor at `d` has the engine and the handle, the new address is not the acceptor's and no
  -- device there has an engine, the other side's address can be written as text, and the engine has
  -- no device under the handle that `accept` returns. The handler for new peers finds the engine
  -- serving the peer, and `listen` is called after it.
  pub await_once_upto-accepts :
      (ms : ℤ) (v : NetWorld S) (n sock d : ℕ) (fds : List PollFd) (s s' : S) (r : Outcome ℕ)
      (their_addr : Sockets.Peer) (addr : HostAddr)
      → os.poll (v.world.engines e).poll_devices ms v.world.sys ≡ (value (suc n), fds, s)
      → raised fds ≤ suc n
      → sorted fds ≡ only ready_read sock
      → lookup sock (v.world.engines e).device_mapping ≡ some d
      → prog.class_of d ≡ acceptor
      → handles fds ≡ handles (v.world.engines e).poll_devices
      → IsWellFormed v.world
      → (v.world.devices d).engine ≡ some e
      → (v.world.devices d).handle ≡ some sock
      → (v.world.devices (prog.fresh (after fds s v))).engine ≡ none
      → prog.fresh (after fds s v) ≢ d
      → server.accept sock s ≡ (r, their_addr, s')
      → peer_address their_addr ≡ some addr
      → lookup (accepted_handle r) (v.world.engines e).device_mapping ≡ none
      → let p = prog.fresh (after fds s v) in
        (u : NetWorld S) × (await_once_upto (ready os net server prog) e (os_beside os) ms (join v)
          ≡ (true, join (listen os server d (notify_new_peer os server prog.handlers d p u))))
        × Serves os e p (accepted_handle r) addr u
  unfolding call call_read
  await_once_upto-accepts ms v n sock d fds s s' r their_addr addr p few one found is same valid
        loaded has unloaded other accepts told unmapped =
      let (u, served, serves) =
        ready_read-Serves os server prog.handlers d e (prog.fresh (after fds s v)) sock addr r
          their_addr s' (after fds s v) (polled-IsWellFormed e fds s v.world same valid) loaded has
          unloaded other accepts told (ground (arith, unmapped)) in
      (
        u,
        turn-call ready_read ms v n sock d fds s acceptor p few one found is
            ∙ ap (λ v'. (true, join v')) served,
        serves,
      )
