-- ===== src/Devices/Handles.antt =====
-- What the methods of `Device` keep, and what `destroyHandle` does with and without an engine.
use transport_cpp.Prelude.{ℕ, ◌≡◌, false, Option, none, some, arith, inl, inr, Option-cases}
use transport_cpp.Engine.Tables.{has_fd}
use transport_cpp.Engine.Handles.{register_new_handle-IsConsistent, de_register_handle-IsConsistent}
use transport_cpp.Os.{Os}
use transport_cpp.World.{World}
use transport_cpp.World.Invariant.{IsWellFormed}
use transport_cpp.Registry.Effects.{
  lookup-register_new_handle, device_list-register_new_handle, lookup-de_register_handle,
  device_list-de_register_handle,
}
use transport_cpp.Devices.{register_new_handle, destroy_handle}

module _ {S : Type 0} where
  -- Opening a handle for a device keeps the invariant, if the device's engine does not poll the
  -- handle yet.
  pub register_new_handle-IsWellFormed :
      (d h : ℕ) (w : World S)
      → IsWellFormed w
      → ((e : ℕ) → (w.devices d).engine ≡ some e → has_fd h (w.engines e).poll_devices ≡ false)
      → IsWellFormed (register_new_handle d (some h) w)
  unfolding register_new_handle
  register_new_handle-IsWellFormed d h w v fresh = elim (Option-cases (w.devices d).engine) [
    | inl no_engine ↦ record {
      consistent = λ e'. ground (arith, v.consistent e');
      distinct = λ e'. ground (arith, v.distinct e');
      listed = λ e' d'. ground (arith, v.listed e' d');
      owner = λ e' k d'. ground (arith, v.owner e' k d');
    }
    | inr (e, loaded) ↦
        let old : Option ℕ = (w.devices d).handle in
        let unpolled = fresh e loaded in
        record {
          consistent = λ e'. ground (
            arith,
            v.consistent e',
            register_new_handle-IsConsistent old h d (w.engines e) (v.consistent e),
          );
          distinct = λ e'. ground (
            arith,
            v.distinct e',
            v.distinct e,
            device_list-register_new_handle old (some h) d (w.engines e),
          );
          listed = λ e' d'.
              ground (
                arith,
                v.listed e' d',
                device_list-register_new_handle old (some h) d (w.engines e),
              );
          owner = λ e' k d'. ground (
            arith,
            v.owner e' k d',
            v.owner e k d,
            v.owner e h d',
            (v.consistent e).mapped h,
            lookup-register_new_handle old h d k (w.engines e) (v.consistent e),
          );
        }
  ]

  module _ (os : Os S) where
    -- `Device::destroyHandle` keeps the invariant.
    pub destroy_handle-IsWellFormed :
        (d : ℕ) (w : World S) → IsWellFormed w → IsWellFormed (destroy_handle os d w)
    unfolding destroy_handle
    destroy_handle-IsWellFormed d w v = elim (Option-cases (w.devices d).engine) [
      | inl no_engine ↦ record {
        consistent = λ e'. ground (arith, v.consistent e');
        distinct = λ e'. ground (arith, v.distinct e');
        listed = λ e' d'. ground (arith, v.listed e' d');
        owner = λ e' k d'. ground (arith, v.owner e' k d');
      }
      | inr (e, loaded) ↦
          let old : Option ℕ = (w.devices d).handle in
          record {
            consistent = λ e'. ground (
              arith,
              v.consistent e',
              de_register_handle-IsConsistent old (w.engines e) (v.consistent e),
            );
            distinct = λ e'. ground (
              arith,
              v.distinct e',
              v.distinct e,
              device_list-de_register_handle old (w.engines e),
            );
            listed = λ e' d'.
                ground (arith, v.listed e' d', device_list-de_register_handle old (w.engines e));
            owner = λ e' k d'. ground (
              arith,
              v.owner e' k d',
              v.owner e k d,
              lookup-de_register_handle old k (w.engines e) (v.consistent e),
            );
          }
    ]

    -- With an engine `destroyHandle` closes the handle, the engine stops polling it, and the device
    -- has no handle, so that a second call closes nothing.
    pub destroy_handle-loaded :
        (d e h : ℕ) (w : World S)
        → IsWellFormed w
        → (w.devices d).engine ≡ some e
        → (w.devices d).handle ≡ some h
        → let w' = destroy_handle os d w in
          (w'.sys ≡ os.close h w.sys)
          × ((w'.devices d).handle ≡ none)
          × (has_fd h (w'.engines e).poll_devices ≡ false)
          × ((destroy_handle os d w').sys ≡ w'.sys)
    unfolding destroy_handle
    destroy_handle-loaded d e h w v loaded has = (
      ground arith,
      ground arith,
      ground (
        arith,
        lookup-de_register_handle (some h) h (w.engines e) (v.consistent e),
        (de_register_handle-IsConsistent (some h) (w.engines e) (v.consistent e)).mapped h,
      ),
      ground arith,
    )

    -- Without an engine `destroyHandle` closes the handle but the device keeps it: a second call
    -- closes the same number again.
    pub destroy_handle_unloaded_twice :
        (d h : ℕ) (w : World S)
        → (w.devices d).engine ≡ none
        → (w.devices d).handle ≡ some h
        → let w' = destroy_handle os d w in
          ((w'.devices d).handle ≡ some h)
          × ((destroy_handle os d w').sys ≡ os.close h (os.close h w.sys))
    unfolding destroy_handle
    destroy_handle_unloaded_twice d h w n has = (ground arith, ground arith)
