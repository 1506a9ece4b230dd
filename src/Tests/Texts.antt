-- ===== src/Tests/Texts.antt =====
-- Loggers and the information on the build at concrete states.
use transport_cpp.Prelude.{◌≡◌, refl, true, false, none, some, List, [], ◌∷◌, ◌++◌, arith}
use transport_cpp.Types.{system}
use transport_cpp.Logger.{info, warn, error, log, set_minimum_log_level}
use transport_cpp.Logger.Levels.{kept}
use transport_cpp.Logging.{
  LogWorld, initial, set_device_logger, set_engine_logger, set_level, log_last_error,
}
use transport_cpp.Logging.Shared.{Message, device, engine, say_all, messages_to, say_all-kept}
use transport_cpp.Information.{
  Macros, CompilerInformation, LibInformation, Architecture, Subsystem, clang, debug, architecture,
  compiler, version, c_string, all_info,
}
use transport_cpp.Information.Version.{all_info_version}

program : Unit {0}
unfolding set_device_logger set_engine_logger set_minimum_log_level log log_last_error architecture
    compiler
program = tt

-- Device 2 has no logger, and engine 1 one of its own; the others share the default one, which leaves
-- out what is below a warning.
abbrev shared : LogWorld
unfolding set_device_logger set_engine_logger set_minimum_log_level
shared = set_level warn 0 (set_engine_logger 1 (some 5) (set_device_logger 2 none initial))

abbrev run : List Message
run =
    record { source = device 3; level = error; calling_class = "IODevice"; text = "readyError" }
    ∷ record { source = device 2; level = error; calling_class = "IODevice"; text = "lost" }
    ∷ record { source = engine 1; level = error; calling_class = "Engine"; text = "other" }
    ∷ record { source = engine 4; level = info; calling_class = "Engine"; text = "low" }
    ∷ record { source = engine 4; level = warn; calling_class = "Engine"; text = "clamped" }
    ∷ []

say_all-kept_example :
    ((say_all run shared).loggers 0).output
    ≡ (shared.loggers 0).output ++ kept (shared.loggers 0).min_log_level (messages_to 0 shared run)
say_all-kept_example = say_all-kept 0 run shared

kept_lines :
    kept (shared.loggers 0).min_log_level (messages_to 0 shared run)
    ≡ ("[ERROR]", "IODevice", "readyError") ∷ ("[WARN]", "Engine", "clamped") ∷ []
unfolding program
kept_lines = refl

last_error_text :
    ((log_last_error
        (λ errno. "Try again")
        3
        (record { code = system 11; description = "read error" })
        "Test"
        initial).loggers
      0).output
    ≡ ("[ERROR]", "Test", "[System Error: 11 | errno desc: Try again]: read error") ∷ []
unfolding program
last_error_text = refl

-- What clang defines, which says that it is GCC 4.2 too.
abbrev of_clang : Macros
of_clang = record {
  ndebug = false;
  m_x64 = false;
  m_ix86 = false;
  m_arm64 = false;
  i386 = false;
  x86_64 = true;
  aarch64 = false;
  glibcxx_use_cxx11_abi = true;
  msc_ver = false;
  msvc_lang = false;
  cplusplus = some 201703;
  intel_compiler = false;
  gnuc = some 4;
  gnuc_minor = some 2;
  clang_major = some 14;
  clang_minor = some 0;
  apple_build_version = false;
  msys = false;
  mingw32 = false;
  mingw64 = false;
  cygwin = false;
}

abbrev stale : CompilerInformation
stale = record {
  type = clang;
  cpp_version_str = 1 ∷ 2 ∷ 3 ∷ 4 ∷ 5 ∷ 6 ∷ 7 ∷ 8 ∷ [];
  cpp_version = 0;
  version_major = 0;
  version_minor = 0;
}

clang_found : compiler of_clang stale ≡ record {
  type = clang;
  cpp_version_str = 50 ∷ 48 ∷ 49 ∷ 55 ∷ 48 ∷ 51 ∷ 0 ∷ 8 ∷ [];
  cpp_version = 201703;
  version_major = 14;
  version_minor = 0;
}
unfolding program
clang_found = refl

-- "ab" stands in the array.
abbrev memory : LibInformation
memory = record {
  version = 97 ∷ 98 ∷ 0 ∷ 0 ∷ 0 ∷ 0 ∷ 0 ∷ 0 ∷ [];
  build = debug;
  architecture = Architecture.unknown;
  cx11 = false;
  compiler = stale;
  subsystem = Subsystem.no_subsystem;
}

all_info_version_example :
    (i : LibInformation) × (all_info of_clang memory ≡ some i)
    × (c_string i.version ≡ c_string memory.version ++ version)
all_info_version_example = all_info_version of_clang memory (omega arith)
