-- ===== src/Registry/Release.antt =====
-- Taking a device out of an engine keeps the invariant.
use transport_cpp.Prelude.{
  ℕ, ◌≡◌, refl, ◌==◌, if◌then◌else◌, true, false, Option, none, some, mem, is_some_eq,
  mem-erase_first, erase_first-IsDistinct, arith, inl, inr, Option-cases, IsDistinct, ◌∙◌, ap,
}
use transport_cpp.Engine.{Engine, de_register_handle, handle_in_list}
use transport_cpp.Engine.Handles.{IsConsistent, de_register_handle-IsConsistent}
use transport_cpp.Types.{ok}
use transport_cpp.World.{World, load_engine}
use transport_cpp.World.Invariant.{IsWellFormed, is_handle_free}
use transport_cpp.Registry.{forget_device, drop_device, deload_engine, de_register_device}
use transport_cpp.Registry.Effects.{lookup-de_register_handle, device_list-de_register_handle}

drop_device-IsConsistent :
    (handle : Option ℕ) (d : ℕ) (g : Engine)
    → IsConsistent g
    → IsConsistent (drop_device d (de_register_handle handle g).1)
drop_device-IsConsistent handle d g c =
    let c' = de_register_handle-IsConsistent handle g c in
    record { distinct = c'.distinct; mapped = c'.mapped }

drop_device-IsDistinct :
    (handle : Option ℕ) (d : ℕ) (g : Engine)
    → IsDistinct g.device_list
    → IsDistinct (drop_device d (de_register_handle handle g).1).device_list
drop_device-IsDistinct handle d g h =
    rw (device_list-de_register_handle handle g) (erase_first-IsDistinct d g.device_list h)

module _ {S : Type 0} where
  -- A device that has no engine, and is not in the engine's tables under a foreign handle.
  forget_device-IsWellFormed :
      (e d : ℕ) (w : World S)
      → IsWellFormed w
      → (w.devices d).engine ≡ none
      → is_handle_free e d w ≡ true
      → IsWellFormed (forget_device e d w)
  forget_device-IsWellFormed e d w v no_engine free = record {
    consistent = λ e'.
        ground (
          arith,
          v.consistent e',
          drop_device-IsConsistent handle d (w.engines e) (v.consistent e),
        );
    distinct = λ e'.
        ground (arith, v.distinct e', drop_device-IsDistinct handle d (w.engines e) (v.distinct e));
    listed = λ e' d'. ground (
      arith,
      v.listed e' d',
      v.listed e d,
      device_list-de_register_handle handle (w.engines e),
      mem-erase_first d' d (w.engines e).device_list (v.distinct e),
    );
    owner = λ e' h d'. ground (
      arith,
      v.owner e' h d',
      v.owner e h d,
      lookup-de_register_handle handle h (w.engines e) (v.consistent e),
    );
  }
    where
      handle : Option ℕ
      handle = (w.devices d).handle

  unload-IsWellFormed :
      (e d : ℕ) (w : World S)
      → IsWellFormed w
      → (w.devices d).engine ≡ some e
      → IsWellFormed (forget_device e d (load_engine d none w))
  unload-IsWellFormed e d w v loaded = record {
    consistent = λ e'.
        ground (
          arith,
          v.consistent e',
          drop_device-IsConsistent handle d (w.engines e) (v.consistent e),
        );
    distinct = λ e'.
        ground (arith, v.distinct e', drop_device-IsDistinct handle d (w.engines e) (v.distinct e));
    listed = λ e' d'. ground (
      arith,
      v.listed e' d',
      device_list-de_register_handle handle (w.engines e),
      mem-erase_first d' d (w.engines e).device_list (v.distinct e),
    );
    owner = λ e' h d'. ground (
      arith,
      v.owner e' h d',
      v.owner e h d,
      lookup-de_register_handle handle h (w.engines e) (v.consistent e),
    );
  }
    where
      handle : Option ℕ
      handle = (w.devices d).handle

  deload_engine-none :
      (d : ℕ) (w : World S) → (w.devices d).engine ≡ none → deload_engine d w ≡ load_engine d none w
  unfolding deload_engine
  deload_engine-none d w e = ground arith

  deload_engine-some :
      (d e : ℕ) (w : World S)
      → (w.devices d).engine ≡ some e
      → deload_engine d w ≡ forget_device e d (load_engine d none w)
  unfolding deload_engine
  deload_engine-some d e w h = ground arith

  -- Unloading the engine of a device that has none changes nothing.
  load_none-IsWellFormed :
      (d : ℕ) (w : World S)
      → IsWellFormed w
      → (w.devices d).engine ≡ none
      → IsWellFormed (load_engine d none w)
  load_none-IsWellFormed d w v e = record {
    consistent = v.consistent;
    distinct = v.distinct;
    listed = λ e' d'. ground (arith, v.listed e' d');
    owner = λ e' h d'. ground (arith, v.owner e' h d');
  }

  -- `Device::deloadEngine` keeps the invariant.
  pub deload_engine-IsWellFormed :
      (d : ℕ) (w : World S) → IsWellFormed w → IsWellFormed (deload_engine d w)
  deload_engine-IsWellFormed d w v = elim (Option-cases (w.devices d).engine) [
    | inl e ↦ rw (deload_engine-none d w e) (load_none-IsWellFormed d w v e)
    | inr (e, h) ↦ rw (deload_engine-some d e w h) (unload-IsWellFormed e d w v h)
  ]

  pub engine-deload_engine :
      (d d' : ℕ) (w : World S)
      → ((deload_engine d w).devices d').engine ≡ (if d == d' then none else (w.devices d').engine)
  unfolding deload_engine
  engine-deload_engine d d' w = ground arith

  pub handle-deload_engine :
      (d d' : ℕ) (w : World S) → ((deload_engine d w).devices d').handle ≡ (w.devices d').handle
  unfolding deload_engine
  handle-deload_engine d d' w = ground arith

  -- Unloading an engine removes no handle of another one, nor of another device.
  pub free-deload_engine :
      (e d : ℕ) (w : World S)
      → IsWellFormed w
      → is_handle_free e d w ≡ true
      → is_handle_free e d (deload_engine d w) ≡ true
  free-deload_engine e d w v f = elim (Option-cases (w.devices d).engine) [
    | inl n ↦ rw (deload_engine-none d w n) (ground arith)
    | inr (e', h) ↦ rw (deload_engine-some d e' w h) (elim (Option-cases (w.devices d).handle) [
      | inl no_handle ↦ ground arith
      | inr (k, has) ↦
          ground (
            arith,
            lookup-de_register_handle (w.devices d).handle k (w.engines e') (v.consistent e'),
          )
    ])
  ]

  -- What `forget_device` is called on: the state without the engine that the device had loaded.
  record Unloaded (e d : ℕ) (w : World S) : Type 0 where
    state : World S
    result : de_register_device e d w ≡ (ok, forget_device e d state)
    valid : IsWellFormed state
    no_engine : (state.devices d).engine ≡ none
    free : is_handle_free e d state ≡ true

  unloaded : (e d : ℕ) (w : World S) → IsWellFormed w → is_handle_free e d w ≡ true → Unloaded e d w
  unfolding de_register_device
  unloaded e d w v f = elim (Option-cases (w.devices d).engine) [
    | inl n ↦ record { state = w; result = ground arith; valid = v; no_engine = n; free = f }
    | inr (e', h) ↦ record {
      state = deload_engine d w;
      result = ground arith;
      valid = deload_engine-IsWellFormed d w v;
      no_engine = engine-deload_engine d d w ∙ ground arith;
      free = free-deload_engine e d w v f;
    }
  ]

  -- `Engine::deRegisterDevice` keeps the invariant, whichever engine the device has loaded, if no
  -- other device stands in the engine under the device's handle.
  pub de_register_device-IsWellFormed :
      (e d : ℕ) (w : World S)
      → IsWellFormed w
      → is_handle_free e d w ≡ true
      → IsWellFormed (de_register_device e d w).1
  de_register_device-IsWellFormed e d w v f =
      let u = unloaded e d w v f in
      rw u.result (forget_device-IsWellFormed e d u.state u.valid u.no_engine u.free)

  -- A device that has the engine loaded meets the condition.
  pub is_handle_free_of_loaded :
      (e d : ℕ) (w : World S)
      → IsWellFormed w
      → (w.devices d).engine ≡ some e
      → is_handle_free e d w ≡ true
  is_handle_free_of_loaded e d w v h = elim (Option-cases (w.devices d).handle) [
    | inl n ↦ ground arith
    | inr (k, has) ↦ ground (arith, v.owner e k d)
  ]

  forget_device-unpolls :
      (e d : ℕ) (w : World S)
      → IsConsistent (w.engines e)
      → handle_in_list (w.devices d).handle ((forget_device e d w).engines e).poll_devices ≡ false
  forget_device-unpolls e d w c = elim (Option-cases (w.devices d).handle) [
    | inl no_handle ↦ ground arith
    | inr (h, has) ↦ ground (
      arith,
      (drop_device-IsConsistent (w.devices d).handle d (w.engines e) c).mapped h,
      lookup-de_register_handle (w.devices d).handle h (w.engines e) c,
    )
  ]

  -- If the tables of the engines fit one another and the devices (the invariant `IsWellFormed`), and no
  -- other device stands in the map of the engine under the handle of a device, then after `deRegisterDevice` of
  -- that device, which reports OK, the device has no engine, and the engine neither lists it nor polls
  -- its handle.
  pub de_register_device-releases :
      (e d : ℕ) (w : World S)
      → IsWellFormed w
      → is_handle_free e d w ≡ true
      → let (code, w') = de_register_device e d w in
        (code ≡ ok)
        × ((w'.devices d).engine ≡ none)
        × (mem d (w'.engines e).device_list ≡ false)
        × (handle_in_list (w'.devices d).handle (w'.engines e).poll_devices ≡ false)
  de_register_device-releases e d w v f =
      let u = unloaded e d w v f in
      let v' = forget_device-IsWellFormed e d u.state u.valid u.no_engine u.free in
      rw u.result (
        refl,
        u.no_engine,
        v'.listed e d ∙ ap (λ o. is_some_eq o e) u.no_engine,
        forget_device-unpolls e d u.state (u.valid.consistent e),
      )
