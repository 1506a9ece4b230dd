-- ===== src/Interfaces/Broadcasting.antt =====
-- Which broadcast address an interface has (`getLocalBroadcasterAddr`, src/networkdevice.cpp).
use text.Mathlib.Text.{◌==◌ as str_eq}
use transport_cpp.Prelude.{
  ◌≡◌, refl, ℕ, ◌==◌, if◌then◌else◌, Bool, true, false, ◌&&◌, ◌||◌, Option, none, some, is_some,
  List, [], ◌∷◌, length, String, inl, inr, Bool-cases, Option-cases, ap, sym, ◌∙◌,
}
use transport_cpp.Types.{Bytes}
use transport_cpp.Interfaces.Octets.{AreOctets, last_address, broadcast_bytes-last_address}
use transport_cpp.Interfaces.{
  IfAddr, InterfaceOs, Broadcast, not_ipv4, no_interface, address, null_mask, broadcast_loop,
  get_local_broadcaster_addr,
}

-- The interface has the name and an address.
abbrev pub is_named : String → IfAddr → Bool
is_named if_name a = is_some a.addr && str_eq if_name a.name

abbrev ipv4_bytes : Option (ℕ × Bytes) → Option Bytes
ipv4_bytes none = none
ipv4_bytes (some (family, b)) = if family == 2 then some b else none

-- The IPv4 addresses of the interfaces with the name, each with its mask, in the order of the list.
abbrev added :
    Option Bytes → Option Bytes → List (Bytes × Option Bytes) → List (Bytes × Option Bytes)
added none mask rest = rest
added (some b) mask rest = (b, mask) ∷ rest

abbrev pub ipv4_of : String → List IfAddr → List (Bytes × Option Bytes)
ipv4_of if_name [] = []
ipv4_of if_name (a ∷ rest) =
    if str_eq if_name a.name
    then added (ipv4_bytes a.addr) a.netmask (ipv4_of if_name rest)
    else ipv4_of if_name rest

abbrev pub any_named : String → List IfAddr → Bool
any_named if_name [] = false
any_named if_name (a ∷ rest) = is_named if_name a || any_named if_name rest

-- The first of the addresses decides; without one it matters whether there is such an interface.
abbrev pub broadcast_of : (ℕ → Bytes → String) → List (Bytes × Option Bytes) → Bool → Broadcast
broadcast_of ntop [] named = if named then not_ipv4 else no_interface
broadcast_of ntop ((b, none) ∷ rest) named = null_mask
broadcast_of ntop ((b, some m) ∷ rest) named =
    let text = ntop 2 (last_address b m) in if str_eq text "" then not_ipv4 else address text

abbrev pub IsIpv4 : Bytes → Type 0
IsIpv4 b = AreOctets b × (length b ≡ 4)

-- The addresses and the masks are four bytes each.
abbrev pub AreIpv4 : List (Bytes × Option Bytes) → Type 0
AreIpv4 [] = Unit {0}
AreIpv4 ((b, none) ∷ rest) = IsIpv4 b × AreIpv4 rest
AreIpv4 ((b, some m) ∷ rest) = IsIpv4 b × IsIpv4 m × AreIpv4 rest

or_true : (b : Bool) → (b || true) ≡ true
or_true true = refl
or_true false = refl

module _ (ntop : ℕ → Bytes → String) where
  broadcast_loop-broadcast_of :
      (if_name : String) (list : List IfAddr) (exists : Bool)
      → AreIpv4 (ipv4_of if_name list)
      → broadcast_loop ntop if_name list exists
        ≡ broadcast_of ntop (ipv4_of if_name list) (exists || any_named if_name list)
  unfolding broadcast_loop
  broadcast_loop-broadcast_of if_name [] true = λ ok. refl
  broadcast_loop-broadcast_of if_name [] false = λ ok. refl
  broadcast_loop-broadcast_of if_name (a ∷ rest) exists = elim (Option-cases a.addr) [
    | inl absent ↦ elim (Bool-cases (str_eq if_name a.name)) [
      | inl same ↦ rw (absent, same) (broadcast_loop-broadcast_of if_name rest exists)
      | inr other ↦ rw (absent, other) (broadcast_loop-broadcast_of if_name rest exists)
    ]
    | inr (found, has) ↦ elim (Bool-cases (str_eq if_name a.name)) [
      | inr other ↦ rw (has, other) (broadcast_loop-broadcast_of if_name rest exists)
      | inl same ↦ elim (Bool-cases (found.0 == 2)) [
        | inl inet ↦ elim (Option-cases a.netmask) [
          | inl null ↦ rw (has, same, inet, null) (λ ok. refl)
          | inr (m, some_m) ↦
              rw (has, same, inet, some_m)
                (λ ok.
                  ap (λ b. if str_eq (ntop 2 b) "" then not_ipv4 else address (ntop 2 b))
                    (broadcast_bytes-last_address found.1 m ok.0.0 ok.1.0))
        ]
        | inr unix ↦
            rw (has, same, unix)
              (λ ok.
                broadcast_loop-broadcast_of if_name rest true ok
                ∙ ap (broadcast_of ntop (ipv4_of if_name rest)) (sym (or_true exists)))
      ]
    ]
  ]

module _ {S : Type 0} (os : InterfaceOs S) where
  -- If the IPv4 addresses of the list that `getifaddrs` gives and their masks are four bytes each,
  -- `getLocalBroadcasterAddr` takes the first IPv4 address that the list has for the name, and returns
  -- the text of the last address of its network, in which every bit that the mask leaves out is one;
  -- if it has no mask, the null pointer is read, and an empty text counts as no IPv4 address. It throws
  -- that there is no IPv4 address if the name has addresses of other families only, and that there is
  -- no interface if it has no address.
  pub get_local_broadcaster_addr-broadcast_of :
      (if_name : String) (s : S)
      → AreIpv4 (ipv4_of if_name (os.get_if_addrs s).0)
      → let list = (os.get_if_addrs s).0 in
        get_local_broadcaster_addr os if_name s ≡ (
          broadcast_of os.ntop (ipv4_of if_name list) (any_named if_name list),
          (os.get_if_addrs s).1,
        )
  unfolding get_local_broadcaster_addr
  get_local_broadcaster_addr-broadcast_of if_name s ok =
      ap (λ b. (b, (os.get_if_addrs s).1))
        (broadcast_loop-broadcast_of os.ntop if_name (os.get_if_addrs s).0 false ok)
