-- ===== src/NetworkDevice/Steady.antt =====
-- Writing and the queues keep what the single changes and the class's own methods keep
-- (src/networkdevice.cpp, src/iodevice.cpp).
use transport_cpp.Prelude.{
  ℕ, zero, suc, ◌==◌, not, ◌&&◌, Option, none, some, is_some, List, [], ◌∷◌, inl, inr, Option-cases,
  Bool-cases,
}
use transport_cpp.Int.{negsuc}
use transport_cpp.Types.{
  HostAddr, IpVersion, IoDataChoice, IoPart, NetPart, OutgoingMessage, PollFd, pollerr, pollhup,
  pollrdhup, Bytes,
}
use transport_cpp.Os.{Os, Outcome, value, failed}
use transport_cpp.World.{World}
use transport_cpp.Devices.{request_write}
use transport_cpp.IoDevice
use transport_cpp.IoDevice.{
  Virtual, data_ptr, set_io, perform_sync_send, send_ready, send_polled, send_entry, first_revents,
  async_send, is_valid_for_outgoing_async, io_data_choice_valid,
}
use transport_cpp.IoDevice.Stable.{Stable, write_bytes-Stable}
use transport_cpp.Sockets.{NetOs, Address, AddrInfo, Hints, load_hints, next, hints_of}
use transport_cpp.NetworkDevice
use transport_cpp.NetworkDevice.{
  set_net, after_send, send_bytes, send_first, send_resolved, perform_send_to, ready_write, send_to,
  sync_send_to,
}

-- Each change that a network device makes on itself, beside those of reading and writing.
pub record Steady {S : Type 0} (os : Os S) (net : NetOs S) (d : ℕ) (P : World S → Type 0)
    : Type 0 where
  pub stable : Stable os d P
  pub request_writes : (w : World S) → P w → P (request_write d w)
  pub io_parts : (r : IoPart) (w : World S) → P w → P (set_io d r w)
  pub net_parts : (r : NetPart) (w : World S) → P w → P (set_net d r w)
  pub sends :
      (h : ℕ) (b a : Bytes) (w : World S) → P w → P (record w { sys = (net.send_to h b a w.sys).1 })
  pub looks_up :
      (hints : Hints) (host : HostAddr) (w : World S)
      → P w
      → P (record w { sys = (net.get_addr_info hints host w.sys).1 })

-- What the methods that a class may override keep.
pub record MethodsKeep {S : Type 0} (d : ℕ) (P : World S → Type 0) (virtual : Virtual S)
    : Type 0 where
  pub error : (w : World S) → P w → P (virtual.ready_error d w)
  pub hangup : (w : World S) → P w → P (virtual.ready_hangup d w)
  pub peer_disconnect : (w : World S) → P w → P (virtual.ready_peer_disconnect d w)

module _ {S : Type 0} (os : Os S) (net : NetOs S) (d : ℕ) (P : World S → Type 0)
    (k : Steady os net d P) where
  module _ (virtual : Virtual S) (keep : MethodsKeep d P virtual) where
    send_ready-Steady :
        (revents h : ℕ) (message : IoDataChoice) (w : World S)
        → P w
        → P (send_ready os virtual revents d h message w).1
    send_ready-Steady revents h message w v = elim (Bool-cases (revents == pollerr)) [
      | inl error ↦ rw error (k.stable.errs _ _ _ (keep.error w v))
      | inr fine ↦ rw fine (elim (Bool-cases (revents == pollhup)) [
        | inl hangup ↦ rw hangup (k.stable.errs _ _ _ (keep.hangup w v))
        | inr there ↦ rw there (elim (Bool-cases (revents == pollrdhup)) [
          | inl left ↦ rw left (k.stable.errs _ _ _ (keep.peer_disconnect w v))
          | inr writes ↦ rw writes (write_bytes-Stable os d P k.stable h (data_ptr message w) w v)
        ])
      ])
    ]

    send_polled-Steady :
        (h : ℕ) (message : IoDataChoice) (r : Outcome ℕ × List PollFd × S) (w : World S)
        → P (record w { sys = r.2 })
        → P (send_polled os virtual d h message r w).1
    send_polled-Steady h message (failed errno, fds, s) w v = k.stable.errs _ _ _ v
    send_polled-Steady h message (value zero, fds, s) w v = k.stable.errs _ _ _ v
    send_polled-Steady h message (value (suc n), fds, s) w v =
        send_ready-Steady (first_revents fds) h message _ v

    pub perform_sync_send-Steady :
        (message : IoDataChoice) (w : World S)
        → P w
        → P (perform_sync_send os virtual d message w).1
    unfolding perform_sync_send
    perform_sync_send-Steady message w v = elim (Option-cases (w.devices d).handle) [
      | inl absent ↦ rw (absent, perform_sync_send) (k.stable.errs _ _ w v)
      | inr (h, found) ↦
          rw (found, perform_sync_send)
            (send_polled-Steady h message (os.poll (send_entry h ∷ []) (negsuc 0) w.sys) w
              (k.stable.polls (send_entry h ∷ []) (negsuc 0) w v))
    ]

  after_send-Steady :
      (r : Outcome ℕ × S) (w : World S) → P (record w { sys = r.1 }) → P (after_send net d r w).1
  after_send-Steady (failed errno, s) w v = k.stable.errs _ _ _ v
  after_send-Steady (value n, s) w v = v

  send_first-Steady :
      (sock : ℕ) (message : IoDataChoice) (a : Option Address) (w : World S)
      → P w
      → P (send_first net d sock message a w).1
  send_first-Steady sock message none w v = k.stable.errs _ _ w v
  send_first-Steady sock message (some a) w v = elim (Option-cases (data_ptr message w)) [
    | inl null ↦ rw null (k.stable.faults w v)
    | inr (b, found) ↦
        rw found (after_send-Steady (net.send_to sock b a.addr w.sys) w (k.sends sock b a.addr w v))
  ]

  send_resolved-Steady :
      (sock : ℕ) (message : IoDataChoice) (r : ℕ × AddrInfo × S) (w : World S)
      → P (record w { sys = r.2 })
      → P (send_resolved net d sock message r w).1
  send_resolved-Steady sock message (status, info, s) w v = elim (Bool-cases (status == 0)) [
    | inl fine ↦ rw fine (send_first-Steady sock message (next info).0 (record w { sys = s }) v)
    | inr error ↦ rw error (k.stable.errs _ _ _ v)
  ]

  pub perform_send_to-Steady :
      (dest : HostAddr) (message : IoDataChoice) (ip_hint : IpVersion) (w : World S)
      → P w
      → P (perform_send_to net d dest message ip_hint w).1
  unfolding perform_send_to load_hints
  perform_send_to-Steady dest message ip_hint w v = elim (Option-cases (w.devices d).handle) [
    | inl absent ↦ rw (absent, perform_send_to) (k.stable.errs _ _ w v)
    | inr (sock, found) ↦
        rw (found, perform_send_to)
          (send_resolved-Steady sock message (load_hints net (hints_of ip_hint 0) dest w.sys) w
            (k.looks_up (hints_of ip_hint 0) dest w v))
  ]

  module _ (virtual : Virtual S)
      (sends : (message : IoDataChoice) (w : World S)
        → P w
        → P (virtual.perform_sync_send d message w).1) where
    io_ready_write-Steady : (w : World S) → P w → P (IoDevice.ready_write virtual d w)
    unfolding IoDevice.ready_write
    io_ready_write-Steady w v = front (w.io d).queue
      where
        front : (queue : List IoDataChoice) → P (IoDevice.write_front virtual d queue w)
        front [] = k.stable.requests w v
        front (m ∷ ms) = elim (Option-cases (w.devices d).handle) [
          | inl absent ↦ rw absent v
          | inr (h, found) ↦ rw found (k.request_writes _ (k.io_parts _ _ (sends m w v)))
        ]

    pub ready_write-Steady : (w : World S) → P w → P (ready_write net virtual d w)
    unfolding ready_write
    ready_write-Steady w v = queued (w.net d).outgoing
      where
        queued :
            (queue : List OutgoingMessage) → P (NetworkDevice.write_queued net virtual d queue w)
        queued [] = io_ready_write-Steady w v
        queued (m ∷ ms) =
            k.request_writes _
              (k.net_parts _ _ (perform_send_to-Steady m.addr m.message m.ip_hint w v))

  pub sync_send_to-Steady :
      (dest : HostAddr) (message : IoDataChoice) (ip_hint : IpVersion) (w : World S)
      → P w
      → P (sync_send_to net d dest message ip_hint w).1
  unfolding sync_send_to
  sync_send_to-Steady dest message ip_hint w v = elim (Bool-cases (io_data_choice_valid message)) [
    | inr null ↦ rw null (k.stable.errs _ _ w v)
    | inl valid ↦ rw valid (perform_send_to-Steady dest message ip_hint w v)
  ]

  valid_for_async-Steady : (w : World S) → P w → P (is_valid_for_outgoing_async d w).1
  unfolding is_valid_for_outgoing_async
  valid_for_async-Steady w v = elim (Bool-cases (is_some (w.devices d).engine)) [
    | inr unloaded ↦ rw unloaded (k.stable.errs _ _ w v)
    | inl loaded ↦ rw loaded v
  ]

  pub send_to-Steady :
      (dest : HostAddr) (message : IoDataChoice) (ip_hint : IpVersion) (w : World S)
      → P w
      → P (send_to d dest message ip_hint w).1
  unfolding send_to
  send_to-Steady dest message ip_hint w v =
      let v1 = valid_for_async-Steady w v in
      elim (Bool-cases (is_valid_for_outgoing_async d w).0) [
        | inr unloaded ↦ rw unloaded v1
        | inl loaded ↦ rw loaded (elim (Bool-cases (io_data_choice_valid message)) [
          | inr null ↦ rw null (k.stable.errs _ _ _ v1)
          | inl valid ↦ rw valid (k.request_writes _ (k.net_parts _ _ v1))
        ])
      ]

  pub async_send-Steady :
      (virtual : Virtual S) (message : IoDataChoice) (w : World S)
      → P w
      → P (async_send virtual d message w).1
  unfolding async_send
  async_send-Steady virtual message w v =
      let v1 = valid_for_async-Steady w v in
      elim (Bool-cases (
        not (is_valid_for_outgoing_async d w).0
        && not (virtual.device_is_ready d (is_valid_for_outgoing_async d w).1))) [
          | inl unready ↦ rw unready (k.stable.errs _ _ _ v1)
          | inr able ↦ rw able (elim (Bool-cases (io_data_choice_valid message)) [
            | inr null ↦ rw null (k.stable.errs _ _ _ v1)
            | inl valid ↦ rw valid (k.request_writes _ (k.io_parts _ _ v1))
          ])
        ]
