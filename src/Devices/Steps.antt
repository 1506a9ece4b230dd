-- ===== src/Devices/Steps.antt =====
-- Every sequence of calls on engines and devices, as a step relation, and what it keeps.
use transport_cpp.Prelude.{
  ℕ, ◌≡◌, refl, true, false, Option, none, some, String, arith, inl, inr, Option-cases, [],
}
use transport_cpp.Types.{DeviceError, internal, ErrorCode}
use transport_cpp.Engine
use transport_cpp.Engine.{initial}
use transport_cpp.Engine.Tables.{has_fd}
use transport_cpp.Engine.Handles.{
  IsConsistent, request_read-IsConsistent, request_write-IsConsistent, initial-IsConsistent,
}
use transport_cpp.Os.{Os}
use transport_cpp.World.{World, Device, set_error}
use transport_cpp.World.Invariant.{IsWellFormed, is_handle_free}
use transport_cpp.Registry.{register_device, de_register_device}
use transport_cpp.Registry.Admit.{register_device-IsWellFormed}
use transport_cpp.Registry.Release.{de_register_device-IsWellFormed, deload_engine-IsWellFormed}
use transport_cpp.Devices.{
  register_new_handle, request_read, request_write, destroy_handle, destroy_device, with_engine,
}
use transport_cpp.Devices.Handles.{register_new_handle-IsWellFormed, destroy_handle-IsWellFormed}

-- What leaves the map and the list of every engine alone keeps the invariant.
module _ {S : Type 0} where
  request_IsWellFormed :
      (f : Option ℕ → Engine.Engine → Engine.Engine) (d : ℕ) (w : World S)
      → ((h : Option ℕ) (g : Engine.Engine) → IsConsistent g → IsConsistent (f h g))
      → ((h : Option ℕ) (g : Engine.Engine)
          → ((f h g).device_mapping ≡ g.device_mapping) × ((f h g).device_list ≡ g.device_list))
      → IsWellFormed w
      → IsWellFormed (with_engine (w.devices d).engine (f (w.devices d).handle) w)
  request_IsWellFormed f d w keep same v = elim (Option-cases (w.devices d).engine) [
    | inl n ↦ rw (n, with_engine) v
    | inr (e, h) ↦
        let handle : Option ℕ = (w.devices d).handle in
        rw (h, with_engine)
          (record {
            consistent =
                λ e'. ground (arith, v.consistent e', keep handle (w.engines e) (v.consistent e));
            distinct = λ e'. ground (arith, v.distinct e', v.distinct e, same handle (w.engines e));
            listed = λ e' d'. ground (arith, v.listed e' d', same handle (w.engines e));
            owner = λ e' k d'. ground (arith, v.owner e' k d', same handle (w.engines e));
          })
  ]

  pub request_read-IsWellFormed :
      (d : ℕ) (w : World S) → IsWellFormed w → IsWellFormed (request_read d w)
  unfolding request_read Engine.request_read
  request_read-IsWellFormed d w v =
      request_IsWellFormed Engine.request_read d w request_read-IsConsistent same v
    where
      same :
          (h : Option ℕ) (g : Engine.Engine)
          → ((Engine.request_read h g).device_mapping ≡ g.device_mapping)
            × ((Engine.request_read h g).device_list ≡ g.device_list)
      same none g = (refl, refl)
      same (some h) g = (refl, refl)

  pub request_write-IsWellFormed :
      (d : ℕ) (w : World S) → IsWellFormed w → IsWellFormed (request_write d w)
  unfolding request_write Engine.request_write
  request_write-IsWellFormed d w v =
      request_IsWellFormed Engine.request_write d w request_write-IsConsistent same v
    where
      same :
          (h : Option ℕ) (g : Engine.Engine)
          → ((Engine.request_write h g).device_mapping ≡ g.device_mapping)
            × ((Engine.request_write h g).device_list ≡ g.device_list)
      same none g = (refl, refl)
      same (some h) g = (refl, refl)

  pub set_error-IsWellFormed :
      (d : ℕ) (code : DeviceError) (text : String) (w : World S)
      → IsWellFormed w
      → IsWellFormed (set_error d code text w)
  set_error-IsWellFormed d code text w v = record {
    consistent = λ e. v.consistent e;
    distinct = λ e. v.distinct e;
    listed = λ e d'. ground (arith, v.listed e d');
    owner = λ e k d'. ground (arith, v.owner e k d');
  }

  pub new_sys-IsWellFormed :
      (s : S) (w : World S) → IsWellFormed w → IsWellFormed (record w { sys = s })
  new_sys-IsWellFormed s w v = record {
    consistent = v.consistent;
    distinct = v.distinct;
    listed = v.listed;
    owner = v.owner;
  }

  module _ (os : Os S) where
    -- One call on an engine or a device; the kernel's state may change in any way on its own.
    pub data Step (w : World S) : World S → Type 0 where
      registers : (e d : ℕ) → is_handle_free e d w ≡ true → Step w (register_device e d w).1
      de_registers : (e d : ℕ) → is_handle_free e d w ≡ true → Step w (de_register_device e d w).1
      opens :
          (d h : ℕ)
          → ((e : ℕ) → (w.devices d).engine ≡ some e → has_fd h (w.engines e).poll_devices ≡ false)
          → Step w (register_new_handle d (some h) w)
      destroys_handle : (d : ℕ) → Step w (destroy_handle os d w)
      destroys_device : (d : ℕ) → Step w (destroy_device d w)
      requests_read : (d : ℕ) → Step w (request_read d w)
      requests_write : (d : ℕ) → Step w (request_write d w)
      fails : (d : ℕ) (code : DeviceError) (text : String) → Step w (set_error d code text w)
      runs : (s : S) → Step w (record w { sys = s })

    pub data Reach (w : World S) : World S → Type 0 where
      here : Reach w w
      next : {u x : World S} → Reach w u → Step u x → Reach w x

    pub Step-IsWellFormed : {w u : World S} → Step w u → IsWellFormed w → IsWellFormed u
    unfolding destroy_device
    Step-IsWellFormed {w} (registers e d f) v = register_device-IsWellFormed e d w v f
    Step-IsWellFormed {w} (de_registers e d f) v = de_register_device-IsWellFormed e d w v f
    Step-IsWellFormed {w} (opens d h f) v = register_new_handle-IsWellFormed d h w v f
    Step-IsWellFormed {w} (destroys_handle d) v = destroy_handle-IsWellFormed os d w v
    Step-IsWellFormed {w} (destroys_device d) v = deload_engine-IsWellFormed d w v
    Step-IsWellFormed {w} (requests_read d) v = request_read-IsWellFormed d w v
    Step-IsWellFormed {w} (requests_write d) v = request_write-IsWellFormed d w v
    Step-IsWellFormed {w} (fails d code text) v = set_error-IsWellFormed d code text w v
    Step-IsWellFormed {w} (runs s) v = new_sys-IsWellFormed s w v

    -- Calls in any order keep the invariant that ties engines to devices, if no handle that is opened
    -- for a device is polled yet by the device's engine, and whenever a device is registered with an
    -- engine or deregistered from it, no other device stands in the map of that engine under the device's
    -- handle.
    pub Reach-IsWellFormed : {w u : World S} → Reach w u → IsWellFormed w → IsWellFormed u
    Reach-IsWellFormed here v = v
    Reach-IsWellFormed (next r s) v = Step-IsWellFormed s (Reach-IsWellFormed r v)

-- Engines and devices as their constructors leave them.
abbrev pub new_device : Device
new_device = record {
  handle = none;
  engine = none;
  last_error = record { code = internal ErrorCode.no_error; description = "" };
}

abbrev pub new_world : {S : Type 0} → S → World S
new_world s = record {
  engines = λ e. initial;
  devices = λ d. new_device;
  io = λ d. record { has_callback = false; queue = [] };
  net = λ d. record { has_network_callback = false; outgoing = [] };
  heap = λ p. [];
  fault = false;
  sys = s;
}

pub new_world-IsWellFormed : {S : Type 0} (s : S) → IsWellFormed (new_world s)
unfolding initial
new_world-IsWellFormed s = record {
  consistent = λ e. initial-IsConsistent;
  distinct = λ e. tt;
  listed = λ e d. refl;
  owner = λ e h d. refl;
}
