-- ===== src/Logger.antt =====
-- `Logger` (src/transport-cpp.cpp, include/transport-cpp/transport-cpp.h): what it prints. A line on
-- the output is its prefix, the calling class and the message.
pub mod Levels
use transport_cpp.Prelude.{ltb, if◌then◌else◌, List, [], ◌∷◌, ◌++◌, String, ℕ}

pub data LogLevel : Type 0 where
  debug info warn error fatal : LogLevel

-- The value of the enumerator.
abbrev pub rank : LogLevel → ℕ
rank debug = 1
rank info = 2
rank warn = 3
rank error = 4
rank fatal = 5

pub record Logger : Type 0 where
  pub min_log_level : LogLevel
  pub output : List (String × String × String)

unfoldable pub set_minimum_log_level : LogLevel → Logger → Logger
set_minimum_log_level min_level l = record l { min_log_level = min_level }

-- `printf`
abbrev print : String → String → String → Logger → Logger
print prefix calling_class message l = record l {
  output = l.output ++ (prefix, calling_class, message) ∷ [];
}

unfoldable pub log_debug : String → String → Logger → Logger
log_debug calling_class message l =
    if ltb (rank debug) (rank l.min_log_level) then l else print "[DEBUG]" calling_class message l

unfoldable pub log_info : String → String → Logger → Logger
log_info calling_class message l =
    if ltb (rank info) (rank l.min_log_level) then l else print "[INFO]" calling_class message l

unfoldable pub log_warn : String → String → Logger → Logger
log_warn calling_class message l =
    if ltb (rank warn) (rank l.min_log_level) then l else print "[WARN]" calling_class message l

unfoldable pub log_error : String → String → Logger → Logger
log_error calling_class message l =
    if ltb (rank error) (rank l.min_log_level) then l else print "[ERROR]" calling_class message l

unfoldable pub log_fatal : String → String → Logger → Logger
log_fatal calling_class message l =
    if ltb (rank fatal) (rank l.min_log_level) then l else print "[FATAL]" calling_class message l

unfoldable pub log : LogLevel → String → String → Logger → Logger
unfolding log_debug log_info log_warn log_error log_fatal
log debug calling_class message l = log_debug calling_class message l
log info calling_class message l = log_info calling_class message l
log warn calling_class message l = log_warn calling_class message l
log error calling_class message l = log_error calling_class message l
log fatal calling_class message l = log_fatal calling_class message l
