-- ===== src/Devices.antt =====
-- The methods of `Device` that work on its handle and its engine (src/device.cpp). Log lines are
-- left out.
pub mod Handles
pub mod Steps
use transport_cpp.Prelude.{ℕ, Option, none, some, String, update}
use transport_cpp.Types.{ErrorCode, Error}
use transport_cpp.Engine
use transport_cpp.Os.{Os}
use transport_cpp.World.{World, Device, set_engine, set_device}
use transport_cpp.Registry.{register_device, deload_engine}

-- `Device::errCodeToString`
abbrev pub err_code_to_string : ErrorCode → String
err_code_to_string ErrorCode.no_error = "NO_ERROR"
err_code_to_string ErrorCode.invalid_argument = "INVALID_ARGUMENT"
err_code_to_string ErrorCode.invalid_logic = "INVALID_LOGIC"
err_code_to_string ErrorCode.device_not_ready = "DEVICE_NOT_READY"
err_code_to_string ErrorCode.poll_error = "POLL_ERROR"
err_code_to_string ErrorCode.timeout = "TIMEOUT"
err_code_to_string ErrorCode.general_error = "GENERAL_ERROR"

module _ {S : Type 0} where
  -- Runs a method of the loaded engine on its tables.
  abbrev with_engine : Option ℕ → (Engine.Engine → Engine.Engine) → World S → World S
  with_engine none f w = w
  with_engine (some e) f w = set_engine e (f (w.engines e)) w

  abbrev pub get_current_loaded_engine : ℕ → World S → Option ℕ
  get_current_loaded_engine d w = (w.devices d).engine

  abbrev pub get_device_handle : ℕ → World S → Option ℕ
  get_device_handle d w = (w.devices d).handle

  abbrev pub get_last_error : ℕ → World S → Error
  get_last_error d w = (w.devices d).last_error

  abbrev set_handle : ℕ → Option ℕ → World S → World S
  set_handle d h w = set_device d (record (w.devices d) { handle = h }) w

  -- `Device::registerNewHandle`
  unfoldable pub register_new_handle : ℕ → Option ℕ → World S → World S
  register_new_handle d h w = set_handle d h (
      with_engine (w.devices d).engine
        (λ g. (Engine.register_new_handle (w.devices d).handle h d g).1) w)

  unfoldable pub request_read : ℕ → World S → World S
  request_read d w = with_engine (w.devices d).engine (Engine.request_read (w.devices d).handle) w

  unfoldable pub request_write : ℕ → World S → World S
  request_write d w = with_engine (w.devices d).engine (Engine.request_write (w.devices d).handle) w

  -- `Device::registerChildDevice`
  unfoldable pub register_child_device : ℕ → ℕ → World S → World S
  register_child_device d child w = elim (w.devices d).engine [
    | none ↦ w
    | some e ↦ (register_device e child w).1
  ]

  -- `~Device`
  unfoldable pub destroy_device : ℕ → World S → World S
  destroy_device d w = deload_engine d w

  abbrev drop_handle : Option ℕ → ℕ → World S → World S
  drop_handle none d w = w
  drop_handle (some e) d w =
      set_handle d none
        (set_engine e (Engine.de_register_handle (w.devices d).handle (w.engines e)).1 w)

  module _ (os : Os S) where
    abbrev close_optional : Option ℕ → S → S
    close_optional none s = s
    close_optional (some h) s = os.close h s

    unfoldable pub close_handle : ℕ → World S → World S
    close_handle d w = record w { sys = close_optional (w.devices d).handle w.sys }

    unfoldable pub destroy_handle : ℕ → World S → World S
    unfolding close_handle
    destroy_handle d w =
        let closed : World S = close_handle d w in drop_handle (closed.devices d).engine d closed
