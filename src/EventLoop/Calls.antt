-- ===== src/EventLoop/Calls.antt =====
-- The calls that one turn of the event loop makes, when no call changes the engine's map.
use transport_cpp.Prelude.{
  ℕ, suc, ◌≤◌, ◌≡◌, refl, true, Option, none, some, List, [], ◌∷◌, ◌++◌, lookup, arith, inl, inr,
  Option-cases, ◌∙◌, sym, ap,
}
use mathlib.Core.Path.{ap₂}
use transport_cpp.Types.{PollFd}
use transport_cpp.Int.{ℤ}
use transport_cpp.Os.{Os, Outcome, value}
use transport_cpp.World.{World}
use transport_cpp.EventLoop.{
  Event, ready_read, ready_write, ready_error, ready_hangup, ready_invalid, ready_peer_disconnect,
  Ready, dispatch, dispatch_all, await_once_upto, polled, after_poll,
}
use transport_cpp.EventLoop.Collect.{fds_of, raised, collect-sorted}

abbrev call_on : Event → Option ℕ → List (Event × ℕ) → List (Event × ℕ)
call_on event none rest = rest
call_on event (some d) rest = (event, d) ∷ rest

-- One virtual call for each handle that the map knows.
abbrev pub calls : List (ℕ × ℕ) → Event → List ℕ → List (Event × ℕ)
calls m event [] = []
calls m event (h ∷ hs) = call_on event (lookup h m) (calls m event hs)

-- All reads first, then writes, errors, hang-ups, invalid requests and disconnects.
abbrev pub turn : List (ℕ × ℕ) → Ready → List (Event × ℕ)
turn m r =
    calls m ready_read r.read
    ++ calls m ready_write r.write
    ++ calls m ready_error r.error
    ++ calls m ready_hangup r.hangup
    ++ calls m ready_invalid r.invalid
    ++ calls m ready_peer_disconnect r.peer_disconnect

abbrev pub sorted : List PollFd → Ready
sorted ps = record {
  read = fds_of ready_read ps;
  write = fds_of ready_write ps;
  error = fds_of ready_error ps;
  hangup = fds_of ready_hangup ps;
  invalid = fds_of ready_invalid ps;
  peer_disconnect = fds_of ready_peer_disconnect ps;
}

module _ {S : Type 0} (ready : Event → ℕ → World S → World S) where
  abbrev pub run_calls : List (Event × ℕ) → World S → World S
  run_calls [] w = w
  run_calls ((event, d) ∷ cs) w = run_calls cs (ready event d w)

  run_calls-append :
      (xs ys : List (Event × ℕ)) (w : World S)
      → run_calls (xs ++ ys) w ≡ run_calls ys (run_calls xs w)
  run_calls-append [] ys w = refl
  run_calls-append ((event, d) ∷ xs) ys w = run_calls-append xs ys (ready event d w)

  module _ (e : ℕ)
      (same : (event : Event) (d : ℕ) (w : World S)
        → ((ready event d w).engines e).device_mapping ≡ (w.engines e).device_mapping) where
    run_calls-same :
        (cs : List (Event × ℕ)) (w : World S)
        → ((run_calls cs w).engines e).device_mapping ≡ (w.engines e).device_mapping
    run_calls-same [] w = refl
    run_calls-same ((event, d) ∷ cs) w = run_calls-same cs (ready event d w) ∙ same event d w

    dispatch-calls :
        (m : List (ℕ × ℕ)) (event : Event) (hs : List ℕ) (w : World S)
        → (w.engines e).device_mapping ≡ m
        → dispatch ready e event hs w ≡ run_calls (calls m event hs) w
    unfolding dispatch
    dispatch-calls m event [] w h = refl
    dispatch-calls m event (k ∷ hs) w h = elim (Option-cases (lookup k m)) [
      | inl absent ↦ rw (h, absent) (dispatch-calls m event hs w h)
      | inr (d, found) ↦
          rw (h, found) (dispatch-calls m event hs (ready event d w) (same event d w ∙ h))
    ]

    and_then :
        (event : Event) (hs : List ℕ) (xs : List (Event × ℕ)) (w : World S) (u : World S)
        → u ≡ run_calls xs w
        → dispatch ready e event hs u
          ≡ run_calls (xs ++ calls (w.engines e).device_mapping event hs) w
    and_then event hs xs w u h = rw h (
        dispatch-calls (w.engines e).device_mapping event hs (run_calls xs w) (run_calls-same xs w)
        ∙ sym (run_calls-append xs (calls (w.engines e).device_mapping event hs) w))

    dispatch_all-turn :
        (r : Ready) (w : World S)
        → dispatch_all ready e r w ≡ run_calls (turn (w.engines e).device_mapping r) w
    unfolding dispatch_all
    dispatch_all-turn r w =
        let m = (w.engines e).device_mapping in
        let xs1 = calls m ready_read r.read in
        let xs2 = xs1 ++ calls m ready_write r.write in
        let xs3 = xs2 ++ calls m ready_error r.error in
        let xs4 = xs3 ++ calls m ready_hangup r.hangup in
        let xs5 = xs4 ++ calls m ready_invalid r.invalid in
        and_then ready_peer_disconnect r.peer_disconnect xs5 w _ (
          and_then ready_invalid r.invalid xs4 w _ (
            and_then ready_hangup r.hangup xs3 w _ (
              and_then ready_error r.error xs2 w _ (
                and_then ready_write r.write xs1 w _ (dispatch-calls m ready_read r.read w refl)))))

    after_poll-turn :
        (w : World S) (n : ℕ)
        → raised (w.engines e).poll_devices ≤ suc n
        → after_poll ready e (value (suc n)) w ≡ (
          true,
          run_calls (turn (w.engines e).device_mapping (sorted (w.engines e).poll_devices)) w,
        )
    after_poll-turn w n r =
        ap (λ u. (true, u))
          (ap (λ k. dispatch_all ready e k w) (collect-sorted (suc n) (w.engines e).poll_devices r)
            ∙ dispatch_all-turn (sorted (w.engines e).poll_devices) w)

    -- When `poll` reports `n + 1` ready entries and no virtual method changes the map, a turn calls
    -- each device whose handle has events once, by the class of the events: reads first, then
    -- writes, errors, hang-ups, invalid requests and disconnects, each in the order of the poll list.
    pub await_once_upto-turn :
        (os : Os S) (ms : ℤ) (w : World S) (n : ℕ) (fds : List PollFd) (s : S)
        → os.poll (w.engines e).poll_devices ms w.sys ≡ (value (suc n), fds, s)
        → raised fds ≤ suc n
        → await_once_upto ready e os ms w
          ≡ (true, run_calls (turn (w.engines e).device_mapping (sorted fds)) (polled e fds s w))
    unfolding await_once_upto
    await_once_upto-turn os ms w n fds s p r =
        let same_list : ((polled e fds s w).engines e).poll_devices ≡ fds = ground arith in
        let same_map : ((polled e fds s w).engines e).device_mapping
            ≡ (w.engines e).device_mapping =
          ground arith in
        ap (λ (t : Outcome ℕ × List PollFd × S). after_poll ready e t.0 (polled e t.1 t.2 w)) p
        ∙ after_poll-turn (polled e fds s w) n (rw same_list r)
        ∙ ap₂ (λ m l. (true, run_calls (turn m (sorted l)) (polled e fds s w))) same_map same_list
