-- ===== src/EventLoop.antt =====
-- One turn of the event loop: `Engine::awaitOnceUpto` and its callers (src/engine.cpp). The
-- virtual `ready…` methods of the devices are a parameter, so that they may do anything to engines,
-- devices and the rest of the program's state.
pub mod Classes
pub mod Collect
pub mod Dispatch
pub mod Polled
pub mod Forever
pub mod Calls
pub mod Timeouts
use Prim.Native.Nat.{bit_and}
use transport_cpp.Prelude.{
  ℕ, zero, suc, ◌+◌, ◌-◌, ◌*◌, ◌/◌, ◌%◌, ◌^◌, ◌==◌, leb, ltb, not, if◌then◌else◌, Bool, true, false,
  Option, none, some, List, [], ◌∷◌, ◌++◌, lookup,
}
use transport_cpp.Int.{ℤ, pos, negsuc, pos_part, ltb_ℤ, nanoseconds}
use transport_cpp.Types.{PollFd, pollin, pollout, pollerr, pollhup, pollnval, pollrdhup}
use transport_cpp.Os.{Os, Outcome, value, failed}
use transport_cpp.World.{World, set_engine}

-- The virtual method that a set of events leads to.
pub data Event : Type 0 where
  ready_read ready_write ready_error ready_hangup ready_invalid ready_peer_disconnect : Event

abbrev pub has_event : ℕ → ℕ → Bool
has_event revents e = not (bit_and revents e == 0)

-- The `if` chain over `revents`: input and output are compared whole, the others by their bit.
unfoldable pub classify : ℕ → Option Event
classify revents =
    if revents == pollin
    then some ready_read
    else if revents == pollout
    then some ready_write
    else if has_event revents pollerr
    then some ready_error
    else if has_event revents pollhup
    then some ready_hangup
    else if has_event revents pollnval
    then some ready_invalid
    else if has_event revents pollrdhup
    then some ready_peer_disconnect
    else none

-- The six vectors of handles.
pub record Ready : Type 0 where
  pub read : List ℕ
  pub write : List ℕ
  pub error : List ℕ
  pub hangup : List ℕ
  pub invalid : List ℕ
  pub peer_disconnect : List ℕ

abbrev pub cleared : Ready
cleared = record {
  read = [];
  write = [];
  error = [];
  hangup = [];
  invalid = [];
  peer_disconnect = [];
}

-- `push_back` to the vector of the class.
abbrev pub push : Option Event → ℕ → Ready → Ready
push none fd r = r
push (some ready_read) fd r = record r { read = r.read ++ fd ∷ [] }
push (some ready_write) fd r = record r { write = r.write ++ fd ∷ [] }
push (some ready_error) fd r = record r { error = r.error ++ fd ∷ [] }
push (some ready_hangup) fd r = record r { hangup = r.hangup ++ fd ∷ [] }
push (some ready_invalid) fd r = record r { invalid = r.invalid ++ fd ∷ [] }
push (some ready_peer_disconnect) fd r = record r { peer_disconnect = r.peer_disconnect ++ fd ∷ [] }

abbrev pub counted : Option Event → ℕ → ℕ
counted none count = count
counted (some e) count = count + 1

-- The scan of the poll list, which stops once `res` entries have been counted.
unfoldable pub collect : ℕ → List PollFd → ℕ → Ready → Ready
collect res [] count r = r
collect res (p ∷ ps) count r =
    let count' = counted (classify p.revents) count in
    let r' = push (classify p.revents) p.fd r in
    let rest = collect res ps count' r' in if leb res count' then r' else rest

-- What `poll` wrote into the engine's list.
abbrev pub polled : {S : Type 0} → ℕ → List PollFd → S → World S → World S
polled e fds s w = record (set_engine e (record (w.engines e) { poll_devices = fds }) w) { sys = s }

module _ {S : Type 0} (ready : Event → ℕ → World S → World S) (e : ℕ) where
  -- `mDeviceMapping.find(fd) != end`, then the virtual call on the device that the map has now.
  abbrev call_device : Event → Option ℕ → World S → World S
  call_device event none w = w
  call_device event (some d) w = ready event d w

  unfoldable pub dispatch : Event → List ℕ → World S → World S
  dispatch event [] w = w
  dispatch event (h ∷ hs) w =
      dispatch event hs (call_device event (lookup h (w.engines e).device_mapping) w)

  unfoldable pub dispatch_all : Ready → World S → World S
  unfolding dispatch
  dispatch_all r w =
      let w1 = dispatch ready_read r.read w in
      let w2 = dispatch ready_write r.write w1 in
      let w3 = dispatch ready_error r.error w2 in
      let w4 = dispatch ready_hangup r.hangup w3 in
      let w5 = dispatch ready_invalid r.invalid w4 in
      dispatch ready_peer_disconnect r.peer_disconnect w5

  abbrev pub after_poll : Outcome ℕ → World S → Bool × World S
  after_poll (failed errno) w = (false, w)
  after_poll (value zero) w = (false, w)
  after_poll (value (suc n)) w =
      (true, dispatch_all (collect (suc n) (w.engines e).poll_devices 0 cleared) w)

  unfoldable pub await_once_upto : Os S → ℤ → World S → Bool × World S
  unfolding dispatch_all collect
  await_once_upto os ms w =
      let (res, fds, s) = os.poll (w.engines e).poll_devices ms w.sys in
      after_poll res (polled e fds s w)

-- `std::numeric_limits<int>::max()`
abbrev pub int_max : ℕ
int_max = 2147483647

-- `static_cast<int>` of a 64-bit count: the low 32 bits, read as a signed number.
unfoldable pub to_int : ℤ → ℤ
to_int (pos n) = let m = n % 2 ^ 32 in if leb m int_max then pos m else negsuc (2 ^ 32 - 1 - m)
to_int (negsuc n) = let m = n % 2 ^ 32 in if leb m int_max then negsuc m else pos (2 ^ 32 - 1 - m)

-- The timeout that `awaitOnce` hands to `poll`, from a duration in milliseconds.
unfoldable pub once_timeout : Option ℤ → ℤ
unfolding to_int
once_timeout none = negsuc 0
once_timeout (some duration) = if ltb_ℤ (pos int_max) duration then pos int_max else to_int duration

-- `duration_cast<milliseconds>` of the nanoseconds that remain, at most the greatest `int`.
abbrev pub remaining_ms : ℕ → ℕ → ℕ
remaining_ms duration elapsed =
    let ms = (duration - elapsed) / 1000000 in if ltb int_max ms then int_max else ms

-- Reads the clock: the time since `start`, in nanoseconds.
abbrev pub elapsed_since : {S : Type 0} → Os S → ℕ → World S → ℕ × World S
elapsed_since os start w = let (t, s) = os.now w.sys in (t - start, record w { sys = s })

module _ {S : Type 0} (os : Os S) (ready : Event → ℕ → World S → World S) (e : ℕ) where
  abbrev pub await_once : Option ℤ → World S → World S
  await_once duration w = (await_once_upto ready e os (once_timeout duration) w).1

  -- The `while` loop of `awaitFor`; `none` when the fuel is used up.
  unfoldable pub await_loop : ℕ → ℕ → ℤ → ℕ × World S → Option (World S)
  unfolding nanoseconds
  await_loop zero start duration (elapsed, w) = none
  await_loop (suc fuel) start duration (elapsed, w) =
      let limit = nanoseconds duration in
      let again = await_loop fuel start duration (
        elapsed_since os start
          (await_once_upto ready e os (pos (remaining_ms (pos_part limit) elapsed)) w).1) in
      if ltb_ℤ (pos elapsed) limit then again else some w

  -- `awaitFor`, for a duration in milliseconds, which each comparison with the elapsed nanoseconds
  -- converts.
  unfoldable pub await_for : ℕ → ℤ → World S → Option (World S)
  unfolding await_loop
  await_for fuel duration w =
      let (start, s) = os.now w.sys in
      await_loop fuel start duration (elapsed_since os start (record w { sys = s }))

  -- The first so many turns of `awaitForever`, whose loop does not end.
  unfoldable pub await_forever : ℕ → World S → World S
  unfolding await_once_upto
  await_forever zero w = w
  await_forever (suc turns) w = await_forever turns (await_once_upto ready e os (pos 100) w).1
