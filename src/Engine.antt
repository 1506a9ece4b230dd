-- ===== src/Engine.antt =====
-- The engine's own tables (src/engine.cpp, include/transport-cpp/engine.h): the poll list, the map
-- from handles to devices, and the methods that touch nothing but these tables.
pub mod Tables
pub mod Handles
use transport_cpp.Prelude.{
  ℕ, ◌==◌, if◌then◌else◌, Bool, true, false, ◌||◌, Option, none, some, List, [], ◌∷◌, ◌++◌, insert,
  erase_key, String,
}
use transport_cpp.Types.{
  ReturnCode, ok, nok, passable, EngineError, EngineErrorCode, PollFd, pollin, pollout,
}
use Tables.{has_fd, update_first, erase_first_fd, with_fd, with_events}

pub record Engine : Type 0 where
  pub last_error : EngineError
  pub poll_devices : List PollFd
  pub device_mapping : List (ℕ × ℕ)
  pub device_list : List ℕ

unfoldable pub initial : Engine
initial = record {
  last_error = record { code = EngineErrorCode.no_error; description = "" };
  poll_devices = [];
  device_mapping = [];
  device_list = [];
}

-- `findHandleInList(handle) != mPollDevices.end()`
abbrev pub handle_in_list : Option ℕ → List PollFd → Bool
handle_in_list none polls = false
handle_in_list (some h) polls = has_fd h polls

unfoldable pub set_error : EngineErrorCode → String → Engine → Engine
set_error code description e = record e {
  last_error = record { code = code; description = description };
}

-- A new entry is polled for input; `revents` is left unset and `poll` writes it before it is read.
abbrev new_entry : ℕ → PollFd
new_entry h = record { fd = h; events = pollin; revents = 0 }

abbrev add_entry : ℕ → ℕ → Engine → ReturnCode × Engine
add_entry h dev e = (
  ok,
  record e {
    poll_devices = e.poll_devices ++ new_entry h ∷ [];
    device_mapping = insert h dev e.device_mapping;
  },
)

-- The entry keeps its events; only its handle changes.
abbrev move_entry : ℕ → ℕ → ℕ → Engine → ReturnCode × Engine
move_entry old h dev e = (
  ok,
  record e {
    poll_devices = update_first old (with_fd h) e.poll_devices;
    device_mapping = insert h dev (erase_key old e.device_mapping);
  },
)

abbrev register_handle : Option ℕ → ℕ → ℕ → Engine → ReturnCode × Engine
register_handle none h dev e = add_entry h dev e
register_handle (some old) h dev e =
    if has_fd old e.poll_devices then move_entry old h dev e else add_entry h dev e

unfoldable pub register_new_handle : Option ℕ → Option ℕ → ℕ → Engine → ReturnCode × Engine
register_new_handle old none dev e = (passable, e)
register_new_handle old (some h) dev e = register_handle old h dev e

unfoldable pub de_register_handle : Option ℕ → Engine → ReturnCode × Engine
unfolding set_error
de_register_handle none e = (passable, e)
de_register_handle (some h) e =
    if has_fd h e.poll_devices
    then (
      ok,
      record e {
        poll_devices = erase_first_fd h e.poll_devices;
        device_mapping = erase_key h e.device_mapping;
      },
    )
    else (
      nok,
      set_error EngineErrorCode.device_does_not_exist
          "When deregistering the handle, the device handle was not found in the registered list" e,
    )

-- `requestRead` and `requestWrite` replace the events of the first entry with the handle.
abbrev request_events : ℕ → Option ℕ → Engine → Engine
request_events events none e = e
request_events events (some h) e = record e {
  poll_devices = update_first h (with_events events) e.poll_devices;
}

unfoldable pub request_read : Option ℕ → Engine → Engine
request_read = request_events pollin

unfoldable pub request_write : Option ℕ → Engine → Engine
request_write = request_events pollout

abbrev pub get_last_error : Engine → EngineError
get_last_error e = e.last_error
