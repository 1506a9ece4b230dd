-- ===== src/World/Invariant.antt =====
-- The invariant that ties engines to devices.
use transport_cpp.Prelude.{
  ℕ, ◌≡◌, ◌==◌, Bool, true, ◌&&◌, Option, none, some, is_some_eq, lookup, mem, IsDistinct,
}
use transport_cpp.Engine.{Engine}
use transport_cpp.Engine.Handles.{IsConsistent}
use transport_cpp.World.{World}

-- Every engine's tables agree; a device is in an engine's list exactly when it has that engine
-- loaded; and a handle maps to a device exactly when the device has that handle and that engine.
pub record IsWellFormed {S : Type 0} (w : World S) : Type 0 where
  pub consistent : (e : ℕ) → IsConsistent (w.engines e)
  pub distinct : (e : ℕ) → IsDistinct (w.engines e).device_list
  pub listed : (e d : ℕ) → mem d (w.engines e).device_list ≡ is_some_eq (w.devices d).engine e
  pub owner :
      (e h d : ℕ)
      → is_some_eq (lookup h (w.engines e).device_mapping) d
        ≡ (is_some_eq (w.devices d).engine e && is_some_eq (w.devices d).handle h)

abbrev owned_or_absent : ℕ → Option ℕ → Bool
owned_or_absent d none = true
owned_or_absent d (some d') = d' == d

abbrev handle_free : Option ℕ → ℕ → Engine → Bool
handle_free none d g = true
handle_free (some h) d g = owned_or_absent d (lookup h g.device_mapping)

-- No other device of the engine is registered under the device's handle.
abbrev pub is_handle_free : {S : Type 0} → ℕ → ℕ → World S → Bool
is_handle_free e d w = handle_free (w.devices d).handle d (w.engines e)
