-- ===== src/NetworkDevice/Sending.antt =====
-- The queue of addressed data is sent in order.
use transport_cpp.Prelude.{ℕ, ◌≡◌, refl, true, none, some, List, [], ◌∷◌, length, arith, ◌∙◌}
use transport_cpp.Types.{ok, Bytes, HostAddr, OutgoingMessage}
use transport_cpp.Os.{value}
use transport_cpp.World.{World}
use transport_cpp.Devices.{request_write}
use transport_cpp.IoDevice.{Virtual, data_ptr, io_data_choice_valid}
use transport_cpp.IoDevice.Write.{data_ptr-heap, data_ptr-valid}
use transport_cpp.Sockets.{NetOs, Address, Hints, load_hints, hints_of, next}
use transport_cpp.NetworkDevice.{perform_send_to, ready_write}
use transport_cpp.NetworkDevice.Queue.{rounds}

-- A kernel that resolves every host, and takes every datagram that the handle `h` sends.
pub record Takes {S : Type 0} (net : NetOs S) (h : ℕ) (address_of : HostAddr → Address)
    (put : Bytes → Bytes → S → S) : Type 0 where
  pub resolves :
      (hints : Hints) (host : HostAddr) (s : S)
      → net.get_addr_info hints host s ≡ ((0, address_of host ∷ []), s)
  pub sends : (b a : Bytes) (s : S) → net.send_to h b a s ≡ (value (length b), put b a s)

abbrev pub AllValid : List OutgoingMessage → Type 0
AllValid [] = Unit {0}
AllValid (m ∷ ms) = (io_data_choice_valid m.message ≡ true) × AllValid ms

module _ {S : Type 0} (address_of : HostAddr → Address) (put : Bytes → Bytes → S → S) where
  -- The datagrams that a queue stands for, each with the address it goes to.
  abbrev pub datagrams : List OutgoingMessage → World S → List (Bytes × Bytes)
  datagrams [] w = []
  datagrams (m ∷ ms) w = elim (data_ptr m.message w) [
    | none ↦ datagrams ms w
    | some b ↦ (b, (address_of m.addr).addr) ∷ datagrams ms w
  ]

  abbrev pub put_all : List (Bytes × Bytes) → S → S
  put_all [] s = s
  put_all ((b, a) ∷ ds) s = put_all ds (put b a s)

  datagrams-heap :
      (ms : List OutgoingMessage) (w u : World S)
      → u.heap ≡ w.heap
      → datagrams ms u ≡ datagrams ms w
  datagrams-heap [] w u e = refl
  datagrams-heap (m ∷ ms) w u e =
      ground (arith, data_ptr-heap m.message w u e, datagrams-heap ms w u e)

  module _ (net : NetOs S) (v : Virtual S) (d h : ℕ) (k : Takes net h address_of put) where
    perform_send_to-sends :
        (m : OutgoingMessage) (b : Bytes) (w : World S)
        → (w.devices d).handle ≡ some h
        → data_ptr m.message w ≡ some b
        → perform_send_to net d m.addr m.message m.ip_hint w
          ≡ (ok, record w { sys = put b (address_of m.addr).addr w.sys })
    unfolding perform_send_to load_hints next data_ptr
    perform_send_to-sends m b w has p = ground (
      arith,
      k.resolves (hints_of m.ip_hint 0) m.addr w.sys,
      k.sends b (address_of m.addr).addr w.sys,
    )

    -- What a round leaves, with `rest` behind the front of the queue.
    record Sent (m : OutgoingMessage) (rest : List OutgoingMessage) (b : Bytes) (w : World S)
        : Type 0 where
      outgoing : ((ready_write net v d w).net d).outgoing ≡ rest
      handle : ((ready_write net v d w).devices d).handle ≡ some h
      written : (ready_write net v d w).sys ≡ put b (address_of m.addr).addr w.sys
      heap : (ready_write net v d w).heap ≡ w.heap

    round :
        (m : OutgoingMessage) (rest : List OutgoingMessage) (b : Bytes) (w : World S)
        → (w.net d).outgoing ≡ m ∷ rest
        → (w.devices d).handle ≡ some h
        → data_ptr m.message w ≡ some b
        → Sent m rest b w
    unfolding ready_write request_write
    round m rest b w q has p =
        let sends = perform_send_to-sends m b w has p in
        record {
          outgoing = ground (arith, sends);
          handle = ground (arith, sends);
          written = ground (arith, sends);
          heap = ground (arith, sends);
        }

    -- One call of `readyWrite` for each entry sends everything that is queued, in order and each to
    -- its own address, and leaves the queue empty, if the kernel resolves every host and takes
    -- every datagram and no pointer in the queue is null.
    pub rounds-send :
        (queue : List OutgoingMessage) (w : World S)
        → (w.net d).outgoing ≡ queue
        → (w.devices d).handle ≡ some h
        → AllValid queue
        → let w' = rounds net v d (length queue) w in
          ((w'.net d).outgoing ≡ []) × (w'.sys ≡ put_all (datagrams queue w) w.sys)
    rounds-send [] w q has valid = (q, refl)
    rounds-send (m ∷ ms) w q has valid =
        let (b, p) = data_ptr-valid m.message w valid.0 in
        let sent = round m ms b w q has p in
        let later = rounds-send ms (ready_write net v d w) sent.outgoing sent.handle valid.1 in
        (
          later.0,
          later.1
              ∙ ground
                  (arith, sent.written, datagrams-heap ms w (ready_write net v d w) sent.heap, p),
        )
