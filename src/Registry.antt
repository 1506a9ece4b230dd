-- ===== src/Registry.antt =====
-- Registration of devices with engines: `Engine::registerDevice` and `deRegisterDevice`, and the
-- methods of `Device` that call into the engine (src/engine.cpp, src/device.cpp).
pub mod Effects
pub mod Release
pub mod Admit
pub mod Rounds
pub mod Destructor
use transport_cpp.Prelude.{
  ℕ, zero, suc, ◌+◌, ◌≡◌, ◌==◌, if◌then◌else◌, Bool, Option, none, some, List, [], ◌∷◌, ◌++◌, mem,
  erase_first, get_elem?, length, String, true,
}
use transport_cpp.Types.{ReturnCode, ok, nok, passable, EngineErrorCode}
use transport_cpp.Engine.{Engine}
use transport_cpp.Engine
use transport_cpp.Os.{Os}
use transport_cpp.World.{World, Device, set_engine, set_device, load_engine}

-- `device_item = std::find(...); if (device_item != end) erase(device_item)`
abbrev drop_device : ℕ → Engine → Engine
drop_device d g = record g { device_list = erase_first d g.device_list }

module _ {S : Type 0} where
  -- `Engine::setError`
  abbrev pub set_engine_error : ℕ → EngineErrorCode → String → World S → World S
  set_engine_error e code description w =
      set_engine e (Engine.set_error code description (w.engines e)) w

  -- The rest of `Engine::deRegisterDevice`, once the device has no engine loaded.
  abbrev forget_device : ℕ → ℕ → World S → World S
  forget_device e d w =
      set_engine e (drop_device d (Engine.de_register_handle (w.devices d).handle (w.engines e)).1)
        w

  -- `Engine::deRegisterDevice` and `Device::deloadEngine` call one another. This is the text of
  -- both, with a bound on the number of calls of `deRegisterDevice`; `none` if it is exceeded.
  abbrev deload_by : (ℕ → World S → Option (World S)) → Option ℕ → ℕ → World S → Option (World S)
  deload_by de_register none d w = some (load_engine d none w)
  deload_by de_register (some current) d w = de_register current (load_engine d none w)

  abbrev and_forget : ℕ → ℕ → Option (World S) → Option (ReturnCode × World S)
  and_forget e d none = none
  and_forget e d (some w) = some (ok, forget_device e d w)

  abbrev state_of : Option (ReturnCode × World S) → Option (World S)
  state_of none = none
  state_of (some (code, w)) = some w

  pub de_register_bounded : ℕ → ℕ → ℕ → World S → Option (ReturnCode × World S)
  de_register_bounded zero e d w = none
  de_register_bounded (suc n) e d w = elim (w.devices d).engine [
    | none ↦ and_forget e d (some w)
    | some loaded ↦
        and_forget e d
          (deload_by (λ e' w'. state_of (de_register_bounded n e' d w')) (some loaded) d w)
  ]

  -- The same functions with the two calls put in place.
  unfoldable pub deload_engine : ℕ → World S → World S
  deload_engine d w = elim (w.devices d).engine [
    | none ↦ load_engine d none w
    | some current ↦ forget_device current d (load_engine d none w)
  ]

  unfoldable pub de_register_device : ℕ → ℕ → World S → ReturnCode × World S
  unfolding deload_engine
  de_register_device e d w = elim (w.devices d).engine [
    | none ↦ (ok, forget_device e d w)
    | some _ ↦ (ok, forget_device e d (deload_engine d w))
  ]

  -- `loadEngine(this)`, `mDeviceList.push_back(device)`, `registerNewHandle({}, handle, device)`
  abbrev add_device : ℕ → ℕ → World S → ReturnCode × World S
  add_device e d w =
      let w1 : World S = load_engine d (some e) w in
      let g : Engine = w1.engines e in
      let (code, g') =
        Engine.register_new_handle none (w1.devices d).handle d
          (record g { device_list = g.device_list ++ d ∷ [] }) in
      (code, set_engine e g' w1)

  unfoldable pub register_device : ℕ → ℕ → World S → ReturnCode × World S
  unfolding deload_engine
  register_device e d w =
      if mem d (w.engines e).device_list
      then (passable, set_engine_error e EngineErrorCode.device_already_registered "" w)
      else elim (w.devices d).engine [
        | none ↦ add_device e d w
        | some _ ↦ add_device e d (deload_engine d w)
      ]

  -- The overloads that take a `shared_ptr`.
  abbrev pub register_shared : ℕ → Option ℕ → World S → ReturnCode × World S
  register_shared e none w = (
    nok,
    set_engine_error e EngineErrorCode.invalid_argument
        "When registering a new Device, an invalid sharedptr was provided" w,
  )
  register_shared e (some d) w = register_device e d w

  abbrev pub de_register_shared : ℕ → Option ℕ → World S → ReturnCode × World S
  de_register_shared e none w = (
    nok,
    set_engine_error e EngineErrorCode.invalid_argument
        "When deregistering a Device, an invalid sharedptr was provided" w,
  )
  de_register_shared e (some d) w = de_register_device e d w

  -- `~Engine`: the range `for` keeps the end that the vector had at the start and reads element
  -- after element, while each call erases from the vector. `none` is a read past its end.
  destroy_loop : ℕ → ℕ → ℕ → World S → Option (World S)
  destroy_loop zero i e w = some w
  destroy_loop (suc left) i e w = elim (get_elem? (w.engines e).device_list i) [
    | none ↦ none
    | some d ↦ destroy_loop left (i + 1) e (de_register_device e d w).1
  ]

  pub destroy_engine : ℕ → World S → Option (World S)
  unfolding destroy_loop
  destroy_engine e w = destroy_loop (length (w.engines e).device_list) 0 e w
