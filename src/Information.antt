-- ===== src/Information.antt =====
-- `Transport::Information` (src/transport-cpp.cpp, include/transport-cpp/transport-cpp.h): what the
-- library says of its build. The macros that the compiler predefines are parameters, and so is what
-- stands in memory that the code does not write. Texts are the bytes of their arrays.
pub mod Version
use mathlib.Core.Option.{map}
use transport_cpp.Prelude.{
  ℕ, zero, suc, ◌+◌, ◌*◌, ◌/◌, ◌%◌, ltb, if◌then◌else◌, Bool, true, false, Option, none, some, List,
  [], ◌∷◌, ◌++◌, ◌-◌,
}
use transport_cpp.Types.{Bytes}

pub data Build : Type 0 where
  debug release : Build

pub data Architecture : Type 0 where
  unknown x64 ix86 arm64 i386 x86_64 arch_64 : Architecture

pub data CompilerType : Type 0 where
  unknown msvc intel gnuc clang apple : CompilerType

pub data Subsystem : Type 0 where
  no_subsystem msys mingw32 mingw64 cygwin : Subsystem

pub record CompilerInformation : Type 0 where
  pub type : CompilerType
  pub cpp_version_str : Bytes
  pub cpp_version : ℕ
  pub version_major : ℕ
  pub version_minor : ℕ

pub record LibInformation : Type 0 where
  pub version : Bytes
  pub build : Build
  pub architecture : Architecture
  pub cx11 : Bool
  pub compiler : CompilerInformation
  pub subsystem : Subsystem

-- Which macros are defined, and the values of those whose values are used.
pub record Macros : Type 0 where
  pub ndebug : Bool
  pub m_x64 : Bool
  pub m_ix86 : Bool
  pub m_arm64 : Bool
  pub i386 : Bool
  pub x86_64 : Bool
  pub aarch64 : Bool
  pub glibcxx_use_cxx11_abi : Bool
  pub msc_ver : Bool
  pub msvc_lang : Bool
  pub cplusplus : Option ℕ
  pub intel_compiler : Bool
  pub gnuc : Option ℕ
  pub gnuc_minor : Option ℕ
  pub clang_major : Option ℕ
  pub clang_minor : Option ℕ
  pub apple_build_version : Bool
  pub msys : Bool
  pub mingw32 : Bool
  pub mingw64 : Bool
  pub cygwin : Bool

-- `VERSION_STR_LEN`
abbrev pub version_str_len : ℕ
version_str_len = 256

-- "0.1"
abbrev pub version : Bytes
version = 48 ∷ 46 ∷ 49 ∷ []

abbrev take : ℕ → Bytes → Bytes
take zero cs = []
take (suc n) [] = []
take (suc n) (c ∷ cs) = c ∷ take n cs

-- The characters of an array before its first zero, and the number of elements if there is none.
abbrev pub c_string : Bytes → Bytes
c_string [] = []
c_string (zero ∷ cs) = []
c_string (suc c ∷ cs) = suc c ∷ c_string cs

-- Writes over the start of an array; `none` where it would write past the end.
abbrev overwrite : Bytes → Bytes → Option Bytes
overwrite [] memory = some memory
overwrite (c ∷ cs) [] = none
overwrite (c ∷ cs) (m ∷ ms) = map (λ rest. c ∷ rest) (overwrite cs ms)

-- `strncat` appends at most `n` characters and a zero to the text that the array holds; `none` where it
-- would read or write past the end.
unfoldable pub strncat : ℕ → Bytes → Bytes → Option Bytes
unfolding overwrite
strncat n [] source = none
strncat n (zero ∷ memory) source = overwrite (take n source ++ 0 ∷ []) (zero ∷ memory)
strncat n (suc c ∷ memory) source = map (λ rest. suc c ∷ rest) (strncat n memory source)

-- `snprintf` of a text to a whole array, which ends it where the array ends.
abbrev print_to : Bytes → Bytes → Bytes
print_to text [] = []
print_to text (m ∷ []) = 0 ∷ []
print_to [] (m ∷ m' ∷ ms) = 0 ∷ m' ∷ ms
print_to (c ∷ cs) (m ∷ m' ∷ ms) = c ∷ print_to cs (m' ∷ ms)

-- "%ld" of a number of at most so many digits.
abbrev pub decimal : ℕ → ℕ → Bytes
decimal zero n = []
decimal (suc fuel) n =
    let front = decimal fuel (n / 10) in
    if ltb n 10 then (48 + n) ∷ [] else front ++ (48 + n % 10) ∷ []

-- `comp.cpp_version_str[0] = 0`
abbrev first_zero : Bytes → Bytes
first_zero [] = []
first_zero (m ∷ ms) = 0 ∷ ms

abbrev pub when : {A : Type 0} → Bool → A → A → A
when defined a b = if defined then a else b

unfoldable pub build : Macros → Build
build m = if m.ndebug then release else debug

-- Each test that holds overwrites what the tests before it found.
unfoldable pub architecture : Macros → Architecture
architecture m =
    let arch1 = when m.m_x64 x64 unknown in
    let arch2 = when m.m_ix86 ix86 arch1 in
    let arch3 = when m.m_arm64 arm64 arch2 in
    let arch4 = when m.i386 Architecture.i386 arch3 in
    let arch5 = when m.x86_64 Architecture.x86_64 arch4 in when m.aarch64 arch_64 arch5

unfoldable pub cx11_abi : Macros → Bool
cx11_abi m = m.glibcxx_use_cxx11_abi

abbrev of_type : Bool → CompilerType → CompilerInformation → CompilerInformation
of_type defined type comp = when defined (record comp { type = type }) comp

abbrev standard : Option ℕ → CompilerInformation → CompilerInformation
standard none comp = comp
standard (some n) comp = record comp {
  cpp_version_str = print_to (decimal 20 n) comp.cpp_version_str;
  cpp_version = n;
}

abbrev major : Option ℕ → CompilerType → CompilerInformation → CompilerInformation
major none type comp = comp
major (some n) type comp = record comp { type = type; version_major = n }

abbrev minor : Option ℕ → CompilerInformation → CompilerInformation
minor none comp = comp
minor (some n) comp = record comp { version_minor = n }

-- `memory` is what stands in `comp` before it is written.
unfoldable pub compiler : Macros → CompilerInformation → CompilerInformation
compiler m memory =
    let comp = record memory {
      type = CompilerType.unknown;
      cpp_version_str = first_zero memory.cpp_version_str;
    } in
    let comp1 = of_type m.msc_ver msvc comp in
    let comp2 = of_type m.msvc_lang msvc comp1 in
    let comp3 = standard m.cplusplus comp2 in
    let comp4 = of_type m.intel_compiler intel comp3 in
    let comp5 = major m.gnuc CompilerType.gnuc comp4 in
    let comp6 = minor m.gnuc_minor comp5 in
    let comp7 = major m.clang_major clang comp6 in
    let comp8 = minor m.clang_minor comp7 in of_type m.apple_build_version apple comp8

unfoldable pub subsystem : Macros → Subsystem
subsystem m =
    let system1 = when m.msys Subsystem.msys Subsystem.no_subsystem in
    let system2 = when m.mingw32 Subsystem.mingw32 system1 in
    let system3 = when m.mingw64 Subsystem.mingw64 system2 in when m.cygwin Subsystem.cygwin system3

abbrev pub with_version : Macros → LibInformation → Bytes → LibInformation
unfolding build architecture cx11_abi compiler subsystem
with_version m memory text = record {
  version = text;
  build = build m;
  architecture = architecture m;
  cx11 = cx11_abi m;
  compiler = compiler m memory.compiler;
  subsystem = subsystem m;
}

-- `memory` is what stands in `info` before it is written; `info.version` is not initialised.
unfoldable pub all_info : Macros → LibInformation → Option LibInformation
unfolding strncat with_version
all_info m memory =
    map (with_version m memory) (strncat (version_str_len - 1) memory.version version)
