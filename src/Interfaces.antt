-- ===== src/Interfaces.antt =====
-- The network interfaces (src/networkdevice.cpp, include/transport-cpp/networking/networkdevice.h).
pub mod Broadcasting
pub mod Octets
use text.Mathlib.Text.{◌==◌ as str_eq}
use Prim.Native.Nat.{bit_or}
use transport_cpp.Prelude.{
  ℕ, ◌-◌, ◌==◌, if◌then◌else◌, Bool, true, false, not, Option, none, some, is_some, List, [], ◌∷◌,
  String,
}
use transport_cpp.Types.{Bytes, IpVersion, ipv4, ipv6}

pub record Interface : Type 0 where
  pub if_name : String
  pub if_addr : String
  pub netmask : String
  pub ip_version : IpVersion

-- A node of the list of `getifaddrs`, with a family and the bytes of the address; null pointers are
-- `none`.
pub record IfAddr : Type 0 where
  pub name : String
  pub addr : Option (ℕ × Bytes)
  pub netmask : Option Bytes

-- `getifaddrs`, whose list stays empty where it fails, and `inet_ntop` into a buffer that is large
-- enough.
pub record InterfaceOs (S : Type 0) : Type 0 where
  pub get_if_addrs : S → List IfAddr × S
  pub ntop : ℕ → Bytes → String

-- The first interface that a test holds of.
abbrev pub find_interface : (Interface → Bool) → List Interface → Option Interface
find_interface test [] = none
find_interface test (i ∷ is) = if test i then some i else find_interface test is

-- What `getLocalBroadcasterAddr` returns or throws.
pub data Broadcast : Type 0 where
  address : String → Broadcast
  not_ipv4 no_interface null_mask : Broadcast

-- `addr | ~mask`, byte by byte.
abbrev pub broadcast_bytes : Bytes → Bytes → Bytes
broadcast_bytes [] ms = []
broadcast_bytes (b ∷ bs) [] = []
broadcast_bytes (b ∷ bs) (m ∷ ms) = bit_or b (255 - m) ∷ broadcast_bytes bs ms

module _ (ntop : ℕ → Bytes → String) where
  abbrev with_mask : IfAddr → ℕ → Bytes → IpVersion → Option Bytes → Option Interface
  with_mask a family b version none = none
  with_mask a family b version (some m) = some (record {
    if_name = a.name;
    if_addr = ntop family b;
    netmask = ntop family m;
    ip_version = version;
  })

  abbrev pushed : Option Interface → Option (List Interface) → Option (List Interface)
  pushed none rest = none
  pushed (some i) none = none
  pushed (some i) (some is) = some (i ∷ is)

  abbrev listed : IfAddr → Option (ℕ × Bytes) → Option (List Interface) → Option (List Interface)
  listed a none rest = rest
  listed a (some (family, b)) rest =
      if family == 2
      then pushed (with_mask a family b ipv4 a.netmask) rest
      else if family == 10
      then pushed (with_mask a family b ipv6 a.netmask) rest
      else rest

  -- The loop of `getAllInterfaces`; `none` where the mask of an address is null and is read.
  unfoldable pub interfaces_of : List IfAddr → Option (List Interface)
  interfaces_of [] = some []
  interfaces_of (a ∷ rest) = listed a a.addr (interfaces_of rest)

  abbrev pub not_found : Bool → Broadcast
  not_found true = not_ipv4
  not_found false = no_interface

  abbrev pub masked : Bytes → Option Bytes → Broadcast
  masked b none = null_mask
  masked b (some m) =
      let text = ntop 2 (broadcast_bytes b m) in if str_eq text "" then not_ipv4 else address text

  abbrev pub of_named : IfAddr → Option (ℕ × Bytes) → Bool → (Bool → Broadcast) → Broadcast
  of_named a none exists again = again exists
  of_named a (some (family, b)) exists again =
      if family == 2 then masked b a.netmask else again true

  -- The loop, with whether an interface of the name was met.
  unfoldable pub broadcast_loop : String → List IfAddr → Bool → Broadcast
  broadcast_loop if_name [] exists = not_found exists
  broadcast_loop if_name (a ∷ rest) exists =
      let again = broadcast_loop if_name rest in
      if not (is_some a.addr)
      then again exists
      else if not (str_eq if_name a.name)
      then again exists
      else of_named a a.addr exists again

module _ {S : Type 0} (os : InterfaceOs S) where
  unfoldable pub get_all_interfaces : S → Option (List Interface) × S
  unfolding interfaces_of
  get_all_interfaces s = let (list, s') = os.get_if_addrs s in (interfaces_of os.ntop list, s')

  unfoldable pub get_local_broadcaster_addr : String → S → Broadcast × S
  unfolding broadcast_loop
  get_local_broadcaster_addr if_name s =
      let (list, s') = os.get_if_addrs s in (broadcast_loop os.ntop if_name list false, s')

  abbrev named_in : String → Option (List Interface) → Option Bool
  named_in if_name none = none
  named_in if_name (some is) = some (is_some (find_interface (λ i. str_eq if_name i.if_name) is))

  unfoldable pub iface_exists : String → S → Option Bool × S
  unfolding get_all_interfaces
  iface_exists if_name s = let (found, s') = get_all_interfaces s in (named_in if_name found, s')
