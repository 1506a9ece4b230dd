-- ===== src/Interfaces/Octets.antt =====
-- The last address of a network in a byte of an address, bit by bit, and the arithmetic of
-- `getLocalBroadcasterAddr` (src/networkdevice.cpp) on it.
use Prim.Native.Nat.{bit_or, max, digits, bit_or-bitwise}
use native.Mathlib.Nat.{pow-suc, one-le-pow}
use transport_cpp.Prelude.{
  ℕ, zero, suc, ◌+◌, ◌*◌, ◌/◌, ◌%◌, ◌-◌, ◌^◌, ◌≤◌, ◌<◌, ◌==◌, ◌≡◌, ◌∙◌, if◌then◌else◌, refl, arith,
  [], ◌∷◌,
}
use transport_cpp.Types.{Bytes}
use transport_cpp.Interfaces.{broadcast_bytes}

-- Of so many bits: a bit that the mask covers is the address's, every other is one.
abbrev pub last_octet : ℕ → ℕ → ℕ → ℕ
last_octet zero b m = 0
last_octet (suc k) b m = last_octet k (b / 2) (m / 2) * 2 + (if m % 2 == 0 then 1 else b % 2)

-- The last address of the network that an address and a mask give.
abbrev pub last_address : Bytes → Bytes → Bytes
last_address [] ms = []
last_address (b ∷ bs) [] = []
last_address (b ∷ bs) (m ∷ ms) = last_octet 8 b m ∷ last_address bs ms

abbrev pub AreOctets : Bytes → Type 0
AreOctets [] = Unit {0}
AreOctets (b ∷ bs) = (b < 256) × AreOctets bs

last_octet-zero : (k m : ℕ) → m < 2 ^ k → last_octet k 0 m ≡ 2 ^ k - 1 - m
last_octet-zero zero m h = omega arith
last_octet-zero (suc k) m h =
    ground
      (arith, pow-suc 2 k, one-le-pow k 2, last_octet-zero k (m / 2) (omega (arith, pow-suc 2 k)))

digits-last_octet :
    (k n b m : ℕ)
    → b ≤ n
    → b < 2 ^ k
    → m < 2 ^ k
    → digits (λ y. y) max n b (2 ^ k - 1 - m) ≡ last_octet k b m
digits-last_octet k zero zero m f p q = ground (arith, last_octet-zero k m q)
digits-last_octet k zero (suc b) m f p q = absurd (omega arith)
digits-last_octet k (suc n) zero m f p q = ground (arith, last_octet-zero k m q)
digits-last_octet zero (suc n) (suc b) m f p q = absurd (omega arith)
digits-last_octet (suc k) (suc n) (suc b) m f p q = ground (
  arith,
  pow-suc 2 k,
  one-le-pow k 2,
  digits-last_octet k n (suc b / 2) (m / 2) (omega arith) (omega (arith, pow-suc 2 k))
      (omega (arith, pow-suc 2 k)),
)

bit_or-last_octet : (b m : ℕ) → b < 256 → m < 256 → bit_or b (255 - m) ≡ last_octet 8 b m
bit_or-last_octet b m p q = bit_or-bitwise b (255 - m) ∙ digits-last_octet 8 b b m (omega arith) p q

pub broadcast_bytes-last_address :
    (b m : Bytes) → AreOctets b → AreOctets m → broadcast_bytes b m ≡ last_address b m
broadcast_bytes-last_address [] ms p q = refl
broadcast_bytes-last_address (b ∷ bs) [] p q = refl
broadcast_bytes-last_address (b ∷ bs) (m ∷ ms) p q =
    λ i. bit_or-last_octet b m p.0 q.0 i ∷ broadcast_bytes-last_address bs ms p.1 q.1 i
