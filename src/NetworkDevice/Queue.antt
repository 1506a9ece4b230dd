-- ===== src/NetworkDevice/Queue.antt =====
-- The queue of addressed data.
use transport_cpp.Prelude.{
  ℕ, zero, suc, ◌≡◌, refl, true, Option, none, some, List, [], ◌∷◌, ◌++◌, length, tail, arith,
  Option-cases, Bool-cases, ◌==◌, inl, inr,
}
use transport_cpp.Types.{ok, nok, IoDataChoice, HostAddr, IpVersion, OutgoingMessage}
use transport_cpp.World.{World}
use transport_cpp.Devices.{request_write}
use transport_cpp.IoDevice.{Virtual, data_ptr, io_data_choice_valid, is_valid_for_outgoing_async}
use transport_cpp.Sockets.{NetOs, Address, AddrInfo, hints_of, load_hints, next}
use transport_cpp.Os.{Outcome, value, failed}
use transport_cpp.NetworkDevice.{
  send_to, perform_send_to, ready_write, set_net, after_send, send_first, send_resolved,
}

module _ {S : Type 0} where
  -- Valid data for a device with an engine goes to the end of the queue, and nothing else does.
  pub send_to-enqueues :
      (d e : ℕ) (dest : HostAddr) (message : IoDataChoice) (ip_hint : IpVersion) (w : World S)
      → (w.devices d).engine ≡ some e
      → io_data_choice_valid message ≡ true
      → let (code, w') = send_to d dest message ip_hint w in
        (code ≡ ok)
        × ((w'.net d).outgoing
            ≡ (w.net d).outgoing
              ++ record { addr = dest; message = message; ip_hint = ip_hint } ∷ [])
        × (w'.io ≡ w.io)
  unfolding send_to is_valid_for_outgoing_async request_write
  send_to-enqueues d e dest message ip_hint w h valid =
      (ground (arith, h, valid), ground (arith, h, valid), ground (arith, h, valid))

  -- Without an engine, nothing is queued.
  pub send_to_unloaded :
      (d : ℕ) (dest : HostAddr) (message : IoDataChoice) (ip_hint : IpVersion) (w : World S)
      → (w.devices d).engine ≡ none
      → let (code, w') = send_to d dest message ip_hint w in (code ≡ nok) × (w'.net ≡ w.net)
  unfolding send_to is_valid_for_outgoing_async
  send_to_unloaded d dest message ip_hint w h = (ground (arith, h), ground (arith, h))

  -- So many calls of `readyWrite`.
  abbrev pub rounds : NetOs S → Virtual S → ℕ → ℕ → World S → World S
  rounds net v d zero w = w
  rounds net v d (suc n) w = rounds net v d n (ready_write net v d w)

  module _ (net : NetOs S) (v : Virtual S) (d : ℕ) where
    after_send-net : (r : Outcome ℕ × S) (w : World S) → (after_send net d r w).1.net ≡ w.net
    after_send-net (failed errno, s) w = refl
    after_send-net (value n, s) w = refl

    send_first-net :
        (sock : ℕ) (m : IoDataChoice) (a : Option Address) (w : World S)
        → (send_first net d sock m a w).1.net ≡ w.net
    unfolding data_ptr
    send_first-net sock m none w = refl
    send_first-net sock m (some a) w = elim (Option-cases (data_ptr m w)) [
      | inl n ↦ rw n refl
      | inr (b, h) ↦ rw h (after_send-net (net.send_to sock b a.addr w.sys) w)
    ]

    send_resolved-net :
        (sock : ℕ) (m : IoDataChoice) (r : ℕ × AddrInfo × S) (w : World S)
        → (send_resolved net d sock m r w).1.net ≡ w.net
    unfolding next
    send_resolved-net sock m (status, info, s) w = elim (Bool-cases (status == 0)) [
      | inl h ↦ rw h (send_first-net sock m (next info).0 (record w { sys = s }))
      | inr h ↦ rw h refl
    ]

    perform_send_to-net :
        (m : OutgoingMessage) (w : World S)
        → (perform_send_to net d m.addr m.message m.ip_hint w).1.net ≡ w.net
    unfolding perform_send_to load_hints
    perform_send_to-net m w = elim (Option-cases (w.devices d).handle) [
      | inl n ↦ rw (n, perform_send_to) refl
      | inr (h, e) ↦
          rw (e, perform_send_to)
            (send_resolved-net h m.message (load_hints net (hints_of m.ip_hint 0) m.addr w.sys) w)
    ]

    request_write-net : (w : World S) → (request_write d w).net ≡ w.net
    unfolding request_write
    request_write-net w = elim (Option-cases (w.devices d).engine) [
      | inl n ↦ rw n refl
      | inr (e, h) ↦ rw h refl
    ]

    round :
        (m : OutgoingMessage) (rest : List OutgoingMessage) (w : World S)
        → (w.net d).outgoing ≡ m ∷ rest
        → ((ready_write net v d w).net d).outgoing ≡ rest
    unfolding ready_write
    round m rest w q =
        let u = (perform_send_to net d m.addr m.message m.ip_hint w).1 in
        let popped = set_net d (record (u.net d) { outgoing = tail (u.net d).outgoing }) u in
        ground (arith, perform_send_to-net m w, request_write-net popped)

    -- As many calls of `readyWrite` as there are entries take them all off the queue, whether or
    -- not they can be sent.
    pub rounds-clear :
        (queue : List OutgoingMessage) (w : World S)
        → (w.net d).outgoing ≡ queue
        → ((rounds net v d (length queue) w).net d).outgoing ≡ []
    rounds-clear [] w q = q
    rounds-clear (m ∷ ms) w q = rounds-clear ms (ready_write net v d w) (round m ms w q)
