-- ===== src/Registry/Admit.antt =====
-- Putting a device into an engine keeps the invariant, and makes the engine serve the device.
use transport_cpp.Prelude.{
  ℕ, ◌≡◌, refl, true, false, none, some, lookup, mem, mem-append, IsDistinct-append, arith, inl,
  inr, Option-cases, Bool-cases, ◌∙◌, [], ◌∷◌, ◌++◌, String,
}
use transport_cpp.Engine.{Engine, register_new_handle, set_error}
use transport_cpp.Engine.Handles.{IsConsistent, register_new_handle-IsConsistent}
use transport_cpp.Engine.Tables.{has_fd}
use transport_cpp.Types.{passable, EngineErrorCode}
use transport_cpp.World.{World}
use transport_cpp.World.Invariant.{IsWellFormed, is_handle_free}
use transport_cpp.Registry.{add_device, deload_engine, register_device, set_engine_error}
use transport_cpp.Registry.Effects.{lookup-register_new_handle, device_list-register_new_handle}
use transport_cpp.Registry.Release.{
  deload_engine-IsWellFormed, engine-deload_engine, handle-deload_engine, free-deload_engine,
}

-- The engine with the device in its list, before the handle is registered.
abbrev listing : ℕ → Engine → Engine
listing d g = record g { device_list = g.device_list ++ d ∷ [] }

listing-IsConsistent : (d : ℕ) (g : Engine) → IsConsistent g → IsConsistent (listing d g)
listing-IsConsistent d g c = record { distinct = c.distinct; mapped = c.mapped }

module _ {S : Type 0} where
  -- A handle that is free for a device without an engine is not polled.
  unpolled_of_free :
      (e d h : ℕ) (w : World S)
      → IsWellFormed w
      → (w.devices d).engine ≡ none
      → (w.devices d).handle ≡ some h
      → is_handle_free e d w ≡ true
      → has_fd h (w.engines e).poll_devices ≡ false
  unpolled_of_free e d h w v n has f = ground (arith, v.owner e h d, (v.consistent e).mapped h)

  polled_device :
      (e d k : ℕ) (w : World S)
      → IsWellFormed w
      → (w.devices d).engine ≡ none
      → (w.devices d).handle ≡ some k
      → has_fd k (w.engines e).poll_devices ≡ false
      → IsWellFormed (add_device e d w).1
  polled_device e d k w v n has unpolled = record {
    consistent = λ e'. ground (
      arith,
      v.consistent e',
      register_new_handle-IsConsistent none k d g
          (listing-IsConsistent d (w.engines e) (v.consistent e)),
    );
    distinct = λ e'. ground (
      arith,
      v.distinct e',
      v.listed e d,
      device_list-register_new_handle none (some k) d g,
      IsDistinct-append d (w.engines e).device_list (v.distinct e),
    );
    listed = λ e' d'. ground (
      arith,
      v.listed e' d',
      device_list-register_new_handle none (some k) d g,
      mem-append d' (w.engines e).device_list (d ∷ []),
    );
    owner = λ e' h d'. ground (
      arith,
      v.owner e' h d',
      v.owner e h d,
      lookup-register_new_handle none k d h g
          (listing-IsConsistent d (w.engines e) (v.consistent e)),
      (v.consistent e).mapped k,
      v.owner e k d',
    );
  }
    where
      g : Engine
      g = listing d (w.engines e)

  add_device-IsWellFormed :
      (e d : ℕ) (w : World S)
      → IsWellFormed w
      → (w.devices d).engine ≡ none
      → is_handle_free e d w ≡ true
      → IsWellFormed (add_device e d w).1
  unfolding register_new_handle
  add_device-IsWellFormed e d w v n f = elim (Option-cases (w.devices d).handle) [
    | inl no_handle ↦ record {
      consistent = λ e'.
          ground (arith, v.consistent e', listing-IsConsistent d (w.engines e) (v.consistent e));
      distinct = λ e'. ground (
        arith,
        v.distinct e',
        v.listed e d,
        IsDistinct-append d (w.engines e).device_list (v.distinct e),
      );
      listed =
          λ e' d'. ground (arith, v.listed e' d', mem-append d' (w.engines e).device_list (d ∷ []));
      owner = λ e' h d'. ground (arith, v.owner e' h d');
    }
    | inr (k, has) ↦ polled_device e d k w v n has (unpolled_of_free e d k w v n has f)
  ]

  -- The state on which `registerDevice` adds a device that is not listed yet.
  record Prepared (e d : ℕ) (w : World S) : Type 0 where
    state : World S
    result : register_device e d w ≡ add_device e d state
    valid : IsWellFormed state
    no_engine : (state.devices d).engine ≡ none
    free : is_handle_free e d state ≡ true
    same_handle : (state.devices d).handle ≡ (w.devices d).handle

  prepared :
      (e d : ℕ) (w : World S)
      → IsWellFormed w
      → is_handle_free e d w ≡ true
      → mem d (w.engines e).device_list ≡ false
      → Prepared e d w
  unfolding register_device
  prepared e d w v f new = elim (Option-cases (w.devices d).engine) [
    | inl n ↦ record {
      state = w;
      result = ground arith;
      valid = v;
      no_engine = n;
      free = f;
      same_handle = refl;
    }
    | inr (e', h) ↦ record {
      state = deload_engine d w;
      result = ground arith;
      valid = deload_engine-IsWellFormed d w v;
      no_engine = engine-deload_engine d d w ∙ ground arith;
      free = free-deload_engine e d w v f;
      same_handle = handle-deload_engine d d w;
    }
  ]

  register_device-again :
      (e d : ℕ) (w : World S)
      → mem d (w.engines e).device_list ≡ true
      → register_device e d w
        ≡ (passable, set_engine_error e EngineErrorCode.device_already_registered "" w)
  unfolding register_device
  register_device-again e d w h = rw h

  set_engine_error-IsWellFormed :
      (e : ℕ) (code : EngineErrorCode) (text : String) (w : World S)
      → IsWellFormed w
      → IsWellFormed (set_engine_error e code text w)
  unfolding set_error
  set_engine_error-IsWellFormed e code text w v = record {
    consistent = λ e'. ground (arith, v.consistent e', same (v.consistent e));
    distinct = λ e'. ground (arith, v.distinct e', v.distinct e);
    listed = λ e' d. ground (arith, v.listed e' d);
    owner = λ e' h d. ground (arith, v.owner e' h d);
  }
    where
      same : IsConsistent (w.engines e) → IsConsistent (set_error code text (w.engines e))
      same c = record { distinct = c.distinct; mapped = c.mapped }

  -- `Engine::registerDevice` keeps the invariant, also for a device that another engine has, if no
  -- other device stands in the engine under the device's handle.
  pub register_device-IsWellFormed :
      (e d : ℕ) (w : World S)
      → IsWellFormed w
      → is_handle_free e d w ≡ true
      → IsWellFormed (register_device e d w).1
  register_device-IsWellFormed e d w v f = elim (Bool-cases (mem d (w.engines e).device_list)) [
    | inl old ↦ rw (register_device-again e d w old) (set_engine_error-IsWellFormed e _ "" w v)
    | inr new ↦
        let p = prepared e d w v f new in
        rw p.result (add_device-IsWellFormed e d p.state p.valid p.no_engine p.free)
  ]

  add_device-engine : (e d : ℕ) (w : World S) → ((add_device e d w).1.devices d).engine ≡ some e
  add_device-engine e d w = ground arith

  engine-register_device :
      (e d : ℕ) (w : World S)
      → IsWellFormed w
      → is_handle_free e d w ≡ true
      → ((register_device e d w).1.devices d).engine ≡ some e
  engine-register_device e d w v f = elim (Bool-cases (mem d (w.engines e).device_list)) [
    | inl old ↦ rw (register_device-again e d w old) (ground (arith, v.listed e d))
    | inr new ↦ let p = prepared e d w v f new in rw p.result (add_device-engine e d p.state)
  ]

  handle-register_device :
      (e d : ℕ) (w : World S) → ((register_device e d w).1.devices d).handle ≡ (w.devices d).handle
  unfolding register_device
  handle-register_device e d w = ground (arith, handle-deload_engine d d w)

  -- If the tables of the engines fit one another and the devices (the invariant `IsWellFormed`), and no
  -- other device stands in the map of the engine under the handle of a device, then after `registerDevice` of that
  -- device the engine is the device's engine and lists it, polls the handle and maps it to the device.
  pub register_device-serves :
      (e d h : ℕ) (w : World S)
      → IsWellFormed w
      → is_handle_free e d w ≡ true
      → (w.devices d).handle ≡ some h
      → let w' = (register_device e d w).1 in
        ((w'.devices d).engine ≡ some e)
        × (mem d (w'.engines e).device_list ≡ true)
        × (lookup h (w'.engines e).device_mapping ≡ some d)
        × (has_fd h (w'.engines e).poll_devices ≡ true)
  register_device-serves e d h w v f has =
      let v' = register_device-IsWellFormed e d w v f in
      let loaded = engine-register_device e d w v f in
      let kept = handle-register_device e d w in
      (
        loaded,
        v'.listed e d ∙ ground arith,
        ground (arith, v'.owner e h d),
        ground (arith, v'.owner e h d, (v'.consistent e).mapped h),
      )
