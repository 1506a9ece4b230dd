-- ===== src/Endpoints/Exchanging.antt =====
-- Sending at once, and requests with their answers, keep what the single changes and the class's own
-- handlers keep (src/iodevice.cpp, src/tcpclient.cpp, src/udpclient.cpp).
use transport_cpp.Prelude.{
  ℕ, zero, suc, ◌==◌, Option, none, some, [], ◌∷◌, List, String, inl, inr, Option-cases, Bool-cases,
}
use transport_cpp.Int.{ℤ, negsuc}
use transport_cpp.Types.{
  ReturnCode, ok, nok, passable, DeviceError, Bytes, IoDataChoice, plain, PollFd, pollerr, pollhup,
  pollrdhup,
}
use transport_cpp.Os.{Os, Outcome, value, failed}
use transport_cpp.World.{World}
use transport_cpp.IoDevice.{
  data_ptr, device_is_ready, io_data_choice_valid, send_entry, first_revents,
}
use transport_cpp.IoDevice.Receive.{ReceivedData, sync_receive, sync_receive_timed}
use transport_cpp.IoDevice.Stable.{Stable, After, write_bytes-Stable, sync_receive-Stable}
use transport_cpp.IoDevice.Waiting.{sync_receive_timed-Stable}
use transport_cpp.Endpoints.{NetWorld, with_world}
use transport_cpp.Endpoints.Exchange.{
  Hooks, fail, hooked, send_ready, send_polled, perform_sync_send, sync_send, received,
  after_request, sync_request_response, sync_request_response_timed,
}

-- Of the state that a call leaves which may run out of fuel.
abbrev pub AfterCall : {S A : Type 0} → (NetWorld S → Type 0) → Option (A × NetWorld S) → Type 0
AfterCall Q none = Unit {0}
AfterCall Q (some (a, v)) = Q v

abbrev pub AfterEvent : {S : Type 0} → (NetWorld S → Type 0) → Option (NetWorld S) → Type 0
AfterEvent Q none = Unit {0}
AfterEvent Q (some v) = Q v

-- What the class does on an error, a hangup and a disconnect.
pub record HooksKeep {S : Type 0} (d : ℕ) (Q : NetWorld S → Type 0) (hooks : Hooks S) : Type 0 where
  pub error : (v : NetWorld S) → Q v → AfterEvent Q (hooks.ready_error d v)
  pub hangup : (v : NetWorld S) → Q v → Q (hooks.ready_hangup d v)
  pub peer_disconnect : (v : NetWorld S) → Q v → Q (hooks.ready_peer_disconnect d v)

module _ {S : Type 0} (os : Os S) (d : ℕ) (Q : NetWorld S → Type 0)
    (k : (v : NetWorld S) → Stable os d (λ u. Q (with_world v u))) (hooks : Hooks S)
    (keep : HooksKeep d Q hooks) where
  fail-keeps :
      (code : DeviceError) (text : String) (v : NetWorld S) → Q v → Q (fail d code text v).1
  fail-keeps code text v q = (k v).errs code text v.world q

  hooked-keeps :
      (text : String) (o : Option (NetWorld S)) → AfterEvent Q o → AfterCall Q (hooked d text o)
  hooked-keeps text none q = tt
  hooked-keeps text (some v) q = fail-keeps _ text v q

  send_ready-keeps :
      (revents h : ℕ) (message : IoDataChoice) (v : NetWorld S)
      → Q v
      → AfterCall Q (send_ready os hooks revents d h message v)
  send_ready-keeps revents h message v q = elim (Bool-cases (revents == pollerr)) [
    | inl error ↦ rw error (hooked-keeps _ (hooks.ready_error d v) (keep.error v q))
    | inr fine ↦ rw fine (elim (Bool-cases (revents == pollhup)) [
      | inl hangup ↦ rw hangup (fail-keeps _ _ (hooks.ready_hangup d v) (keep.hangup v q))
      | inr there ↦ rw there (elim (Bool-cases (revents == pollrdhup)) [
        | inl left ↦
            rw left (fail-keeps _ _ (hooks.ready_peer_disconnect d v) (keep.peer_disconnect v q))
        | inr writes ↦ rw writes (
            write_bytes-Stable os d (λ u. Q (with_world v u)) (k v) h (data_ptr message v.world)
              v.world q)
      ])
    ])
  ]

  send_polled-keeps :
      (h : ℕ) (message : IoDataChoice) (r : Outcome ℕ × List PollFd × S) (v : NetWorld S)
      → Q (with_world v (record v.world { sys = r.2 }))
      → AfterCall Q (send_polled os hooks d h message r v)
  send_polled-keeps h message (failed errno, fds, s) v q = fail-keeps _ _ _ q
  send_polled-keeps h message (value zero, fds, s) v q = fail-keeps _ _ _ q
  send_polled-keeps h message (value (suc n), fds, s) v q =
      send_ready-keeps (first_revents fds) h message _ q

  perform_sync_send-keeps :
      (message : IoDataChoice) (v : NetWorld S)
      → Q v
      → AfterCall Q (perform_sync_send os hooks d message v)
  unfolding perform_sync_send
  perform_sync_send-keeps message v q = elim (Option-cases (v.world.devices d).handle) [
    | inl absent ↦ rw (absent, AfterCall) (fail-keeps _ _ v q)
    | inr (h, found) ↦
        let ps = send_entry h ∷ [] in
        rw (found, AfterCall)
          (send_polled-keeps h message (os.poll ps (negsuc 0) v.world.sys) v
            ((k v).polls ps (negsuc 0) v.world q))
  ]

  pub sync_send-keeps :
      (message : IoDataChoice) (v : NetWorld S) → Q v → AfterCall Q (sync_send os hooks d message v)
  unfolding sync_send
  sync_send-keeps message v q = elim (Bool-cases (io_data_choice_valid message)) [
    | inr null ↦ rw (null, AfterCall) (fail-keeps _ _ v q)
    | inl valid ↦
        rw (valid, AfterCall)
          (elim (Bool-cases (device_is_ready d v.world)) [
            | inr unready ↦ rw (unready, AfterCall) (fail-keeps _ _ v q)
            | inl is_ready ↦ rw (is_ready, AfterCall) (perform_sync_send-keeps message v q)
          ])
  ]

  received-keeps :
      (v : NetWorld S) (o : Option (ReceivedData × World S))
      → After (λ u. Q (with_world v u)) o
      → AfterCall Q (received os hooks v o)
  received-keeps v none q = tt
  received-keeps v (some (r, u)) q = q

  -- With what waits for the answer.
  pub answered-keeps :
      (receive : World S → Option (ReceivedData × World S))
      → ((v : NetWorld S) → Q v → After (λ u. Q (with_world v u)) (receive v.world))
      → (o : Option (ReturnCode × NetWorld S)) → AfterCall Q o
      → AfterCall Q (after_request os hooks receive o)
  answered-keeps receive r none q = tt
  answered-keeps receive r (some (nok, v)) q = q
  answered-keeps receive r (some (ok, v)) q = received-keeps v _ (r v q)
  answered-keeps receive r (some (passable, v)) q = received-keeps v _ (r v q)

  pub sync_receive-keeps :
      (fuel : ℕ) (v : NetWorld S)
      → Q v
      → After (λ u. Q (with_world v u)) (sync_receive os fuel d v.world)
  sync_receive-keeps fuel v q =
      sync_receive-Stable os d (λ u. Q (with_world v u)) (k v) fuel v.world q

  pub sync_request_response-keeps :
      (fuel : ℕ) (bytes : Bytes) (v : NetWorld S)
      → Q v
      → AfterCall Q (sync_request_response os hooks fuel d bytes v)
  unfolding sync_request_response
  sync_request_response-keeps fuel bytes v q =
      answered-keeps (sync_receive os fuel d) (sync_receive-keeps fuel)
        (sync_send os hooks d (plain bytes) v) (sync_send-keeps (plain bytes) v q)

  module _
      (clocks : (v : NetWorld S) (w : World S)
        → Q (with_world v w)
        → Q (with_world v (record w { sys = (os.now w.sys).1 }))) where
    pub sync_receive_timed-keeps :
        (rounds fuel : ℕ) (timeout : ℤ) (v : NetWorld S)
        → Q v
        → After (λ u. Q (with_world v u)) (sync_receive_timed os rounds fuel d timeout v.world)
    sync_receive_timed-keeps rounds fuel timeout v q =
        sync_receive_timed-Stable os d (λ u. Q (with_world v u)) (k v) (clocks v) rounds fuel
          timeout v.world q

    pub sync_request_response_timed-keeps :
        (rounds fuel : ℕ) (bytes : Bytes) (timeout : ℤ) (v : NetWorld S)
        → Q v
        → AfterCall Q (sync_request_response_timed os hooks rounds fuel d bytes timeout v)
    unfolding sync_request_response_timed
    sync_request_response_timed-keeps rounds fuel bytes timeout v q =
        answered-keeps (sync_receive_timed os rounds fuel d timeout)
          (sync_receive_timed-keeps rounds fuel timeout) (sync_send os hooks d (plain bytes) v)
          (sync_send-keeps (plain bytes) v q)
