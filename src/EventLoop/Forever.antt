-- ===== src/EventLoop/Forever.antt =====
-- What the event loop keeps however long it runs (`Engine::awaitForever`, src/engine.cpp).
use transport_cpp.Prelude.{ℕ, zero, suc, ◌≡◌, some, List}
use transport_cpp.Int.{ℤ, pos}
use transport_cpp.Types.{PollFd}
use transport_cpp.Os.{Os, Outcome, value, failed}
use transport_cpp.World.{World}
use transport_cpp.World.Invariant.{IsWellFormed}
use transport_cpp.EventLoop.{
  Event, cleared, collect, await_once_upto, after_poll, polled, await_forever,
}
use transport_cpp.EventLoop.Dispatch.{dispatch_all-keeps}
use transport_cpp.EventLoop.Polled.{handles, polled-IsWellFormed}

-- `poll` gives the entries back with the handles that they had.
abbrev pub KeepsHandles : {S : Type 0} → Os S → Type 0
KeepsHandles {S} os = (ps : List PollFd) (ms : ℤ) (s : S) → handles (os.poll ps ms s).1 ≡ handles ps

module _ {S : Type 0} (os : Os S) (ready : Event → ℕ → World S → World S) (e : ℕ) where
  after_poll-keeps :
      (P : World S → Type 0) (r : Outcome ℕ) (w : World S)
      → ((n : ℕ) → P (after_poll ready e (value (suc n)) w).1)
      → P w
      → P (after_poll ready e r w).1
  after_poll-keeps P (failed errno) w served p = p
  after_poll-keeps P (value zero) w served p = p
  after_poll-keeps P (value (suc n)) w served p = served n

  await_once_upto-IsWellFormed :
      (ms : ℤ) (w : World S)
      → KeepsHandles os
      → ((event : Event) (d h : ℕ) (u : World S)
          → IsWellFormed u
          → (u.devices d).engine ≡ some e
          → (u.devices d).handle ≡ some h
          → IsWellFormed (ready event d u))
      → IsWellFormed w
      → IsWellFormed (await_once_upto ready e os ms w).1
  unfolding await_once_upto
  await_once_upto-IsWellFormed ms w same keep v =
      let r = os.poll (w.engines e).poll_devices ms w.sys in
      let u = polled e r.1 r.2 w in
      let valid = polled-IsWellFormed e r.1 r.2 w (same (w.engines e).poll_devices ms w.sys) v in
      after_poll-keeps IsWellFormed r.0 u
        (λ n.
          dispatch_all-keeps ready e IsWellFormed (λ x k. k) keep
            (collect (suc n) (u.engines e).poll_devices 0 cleared) u valid)
        valid

  -- However many turns the event loop makes, the invariant holds if it held before the first, `poll`
  -- gives the entries back with the handles that they had, and each virtual call on a device that has
  -- the engine loaded and has a handle keeps the invariant: the loop makes no other calls.
  pub await_forever-IsWellFormed :
      (turns : ℕ) (w : World S)
      → KeepsHandles os
      → ((event : Event) (d h : ℕ) (u : World S)
          → IsWellFormed u
          → (u.devices d).engine ≡ some e
          → (u.devices d).handle ≡ some h
          → IsWellFormed (ready event d u))
      → IsWellFormed w
      → IsWellFormed (await_forever os ready e turns w)
  unfolding await_forever
  await_forever-IsWellFormed zero w same keep v = v
  await_forever-IsWellFormed (suc turns) w same keep v =
      await_forever-IsWellFormed turns (await_once_upto ready e os (pos 100) w).1 same keep
        (await_once_upto-IsWellFormed (pos 100) w same keep v)
