-- ===== src/Information/Version.antt =====
-- The version that `all_info` reports (src/transport-cpp.cpp).
use mathlib.Core.Option.{map}
use transport_cpp.Prelude.{zero, suc, ◌+◌, ◌<◌, ◌≡◌, refl, some, [], ◌∷◌, ◌++◌, length, arith, ap}
use transport_cpp.Types.{Bytes}
use transport_cpp.Information.{
  Macros, LibInformation, version, c_string, strncat, with_version, all_info,
}

strncat-version :
    (memory : Bytes)
    → length (c_string memory) + length version < length memory
    → (text : Bytes) × (strncat 255 memory version ≡ some text)
      × (c_string text ≡ c_string memory ++ version)
unfolding strncat
strncat-version [] f = absurd (omega (arith, f))
strncat-version (zero ∷ []) f = absurd (omega (arith, f))
strncat-version (zero ∷ a ∷ []) f = absurd (omega (arith, f))
strncat-version (zero ∷ a ∷ b ∷ []) f = absurd (omega (arith, f))
strncat-version (zero ∷ a ∷ b ∷ c ∷ memory) f = (_, refl, refl)
strncat-version (suc a ∷ memory) f =
    let (text, appended, reads) = strncat-version memory (omega (arith, f)) in
    (suc a ∷ text, ap (map (λ rest. suc a ∷ rest)) appended, ap (λ cs. suc a ∷ cs) reads)

-- `all_info` appends the version to whatever text stands in the memory of its array, which it does not
-- initialise: when that text, the version and a zero fit into the array, the version that it reports
-- is that text and "0.1" after it.
pub all_info_version :
    (m : Macros) (memory : LibInformation)
    → length (c_string memory.version) + length version < length memory.version
    → (info : LibInformation) × (all_info m memory ≡ some info)
      × (c_string info.version ≡ c_string memory.version ++ version)
unfolding all_info with_version
all_info_version m memory f =
    let (text, appended, reads) = strncat-version memory.version f in
    (with_version m memory text, ap (map (with_version m memory)) appended, reads)
