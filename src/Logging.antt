-- ===== src/Logging.antt =====
-- Which logger a device or an engine has, and what it forwards to it: `setLogger`, the five `log…`
-- methods and `logLastError` (src/device.cpp, src/engine.cpp). A `shared_ptr<Logger>` is an address,
-- which several devices and engines may have.
pub mod Shared
pub mod Unhandled
use transport_cpp.Prelude.{ℕ, Option, none, some, [], String, update}
use transport_cpp.Text.{joined, to_string}
use transport_cpp.Types.{DeviceError, internal, system, Error}
use transport_cpp.Devices.{err_code_to_string}
use transport_cpp.Logger.{
  Logger, LogLevel, debug, set_minimum_log_level, log_debug, log_info, log_warn, log_error,
  log_fatal,
}

-- `mLogger` of each device and engine, and the loggers.
pub record LogWorld : Type 0 where
  pub loggers : ℕ → Logger
  pub of_device : ℕ → Option ℕ
  pub of_engine : ℕ → Option ℕ

-- A logger as it is made, and `Logger::DefaultLogger`, at the address 0, which every device and every
-- engine starts with.
abbrev pub new_logger : Logger
new_logger = record { min_log_level = debug; output = [] }

abbrev pub default_logger : Option ℕ
default_logger = some 0

abbrev pub initial : LogWorld
initial = record {
  loggers = λ a. new_logger;
  of_device = λ d. default_logger;
  of_engine = λ e. default_logger;
}

unfoldable pub set_device_logger : ℕ → Option ℕ → LogWorld → LogWorld
set_device_logger d logger l = record l { of_device = update l.of_device d logger }

unfoldable pub set_engine_logger : ℕ → Option ℕ → LogWorld → LogWorld
set_engine_logger e logger l = record l { of_engine = update l.of_engine e logger }

-- `if (mLogger) { mLogger->…; }`
abbrev pub forward : (Logger → Logger) → Option ℕ → LogWorld → LogWorld
forward f none l = l
forward f (some a) l = record l { loggers = update l.loggers a (f (l.loggers a)) }

-- `setMinimumLogLevel` of the logger at an address.
abbrev pub set_level : LogLevel → ℕ → LogWorld → LogWorld
set_level level a l = record l {
  loggers = update l.loggers a (set_minimum_log_level level (l.loggers a));
}

unfoldable pub device_log_debug : ℕ → String → String → LogWorld → LogWorld
unfolding log_debug
device_log_debug d calling_class message l =
    forward (log_debug calling_class message) (l.of_device d) l

unfoldable pub device_log_info : ℕ → String → String → LogWorld → LogWorld
unfolding log_info
device_log_info d calling_class message l =
    forward (log_info calling_class message) (l.of_device d) l

unfoldable pub device_log_warn : ℕ → String → String → LogWorld → LogWorld
unfolding log_warn
device_log_warn d calling_class message l =
    forward (log_warn calling_class message) (l.of_device d) l

unfoldable pub device_log_error : ℕ → String → String → LogWorld → LogWorld
unfolding log_error
device_log_error d calling_class message l =
    forward (log_error calling_class message) (l.of_device d) l

unfoldable pub device_log_fatal : ℕ → String → String → LogWorld → LogWorld
unfolding log_fatal
device_log_fatal d calling_class message l =
    forward (log_fatal calling_class message) (l.of_device d) l

unfoldable pub engine_log_debug : ℕ → String → String → LogWorld → LogWorld
unfolding log_debug
engine_log_debug e calling_class message l =
    forward (log_debug calling_class message) (l.of_engine e) l

unfoldable pub engine_log_info : ℕ → String → String → LogWorld → LogWorld
unfolding log_info
engine_log_info e calling_class message l =
    forward (log_info calling_class message) (l.of_engine e) l

unfoldable pub engine_log_warn : ℕ → String → String → LogWorld → LogWorld
unfolding log_warn
engine_log_warn e calling_class message l =
    forward (log_warn calling_class message) (l.of_engine e) l

unfoldable pub engine_log_error : ℕ → String → String → LogWorld → LogWorld
unfolding log_error
engine_log_error e calling_class message l =
    forward (log_error calling_class message) (l.of_engine e) l

unfoldable pub engine_log_fatal : ℕ → String → String → LogWorld → LogWorld
unfolding log_fatal
engine_log_fatal e calling_class message l =
    forward (log_fatal calling_class message) (l.of_engine e) l

module _ (strerror : ℕ → String) where
  abbrev pub err_code_text : DeviceError → String
  err_code_text (internal code) = joined "[Internal Error: " (joined (err_code_to_string code) "]")
  err_code_text (system errno) =
      joined "[System Error: "
        (joined (to_string errno) (joined " | errno desc: " (joined (strerror errno) "]")))

  -- `Device::logLastError`, of a device with the error that is given.
  unfoldable pub log_last_error : ℕ → Error → String → LogWorld → LogWorld
  unfolding device_log_error
  log_last_error d last_error calling_class l =
      device_log_error d calling_class
        (joined (err_code_text last_error.code) (joined ": " last_error.description)) l
