-- ===== src/EventLoop/Dispatch.antt =====
-- Which devices a turn of the event loop calls.
use transport_cpp.Prelude.{ℕ, ◌≡◌, some, List, [], ◌∷◌, lookup, arith, inl, inr, Option-cases}
use transport_cpp.World.{World}
use transport_cpp.World.Invariant.{IsWellFormed}
use transport_cpp.EventLoop.{
  Event, ready_read, ready_write, ready_error, ready_hangup, ready_invalid, ready_peer_disconnect,
  Ready, dispatch, dispatch_all,
}

module _ {S : Type 0} (ready : Event → ℕ → World S → World S) (e : ℕ) (P : World S → Type 0)
    (valid : (w : World S) → P w → IsWellFormed w)
    (keep : (event : Event) (d h : ℕ) (w : World S)
      → P w
      → (w.devices d).engine ≡ some e
      → (w.devices d).handle ≡ some h
      → P (ready event d w)) where
  dispatch-keeps :
      (event : Event) (hs : List ℕ) (w : World S) → P w → P (dispatch ready e event hs w)
  unfolding dispatch
  dispatch-keeps event [] w p = p
  dispatch-keeps event (h ∷ hs) w p = elim (Option-cases (lookup h (w.engines e).device_mapping)) [
    | inl absent ↦ rw absent (dispatch-keeps event hs w p)
    | inr (d, found) ↦ rw found (
        dispatch-keeps event hs (ready event d w) (
          keep event d h w p (ground (arith, (valid w p).owner e h d))
            (ground (arith, (valid w p).owner e h d))))
  ]

  -- A turn of the event loop calls a device only while the device has the engine loaded and has the
  -- handle that is ready: what all such calls keep, with the invariant, the whole turn keeps.
  pub dispatch_all-keeps : (r : Ready) (w : World S) → P w → P (dispatch_all ready e r w)
  unfolding dispatch_all
  dispatch_all-keeps r w p = dispatch-keeps ready_peer_disconnect r.peer_disconnect _ (
      dispatch-keeps ready_invalid r.invalid _ (
        dispatch-keeps ready_hangup r.hangup _ (
          dispatch-keeps ready_error r.error _
            (dispatch-keeps ready_write r.write _ (dispatch-keeps ready_read r.read w p)))))
