-- ===== src/World.antt =====
-- Engines and devices by address (src/engine.cpp, src/device.cpp). `Device` has the fields of
-- include/transport-cpp/device.h; the fields of a subclass stand in stores of their own.
pub mod Invariant
use transport_cpp.Prelude.{
  ℕ, ◌≡◌, ◌==◌, if◌then◌else◌, Bool, true, false, Option, none, some, String, update, lookup,
}
use transport_cpp.Types.{Error, DeviceError, IoPart, NetPart, Bytes}
use transport_cpp.Engine.{Engine}

pub record Device : Type 0 where
  pub handle : Option ℕ
  pub engine : Option ℕ
  pub last_error : Error

pub record World (S : Type 0) : Type 0 where
  pub engines : ℕ → Engine
  pub devices : ℕ → Device
  pub io : ℕ → IoPart
  pub net : ℕ → NetPart
  -- What `shared_ptr`s point to.
  pub heap : ℕ → Bytes
  -- The code has read through a null pointer: nothing is known of what follows.
  pub fault : Bool
  pub sys : S

module _ {S : Type 0} where
  abbrev pub set_engine : ℕ → Engine → World S → World S
  set_engine e g w = record w { engines = update w.engines e g }

  abbrev pub set_device : ℕ → Device → World S → World S
  set_device d r w = record w { devices = update w.devices d r }

  -- `Device::loadEngine`, and the assignment of null in `deloadEngine`.
  abbrev pub load_engine : ℕ → Option ℕ → World S → World S
  load_engine d e w = set_device d (record (w.devices d) { engine = e }) w

  -- `Device::setError`
  abbrev pub set_error : ℕ → DeviceError → String → World S → World S
  set_error d code description w =
      set_device d
        (record (w.devices d) { last_error = record { code = code; description = description } }) w
