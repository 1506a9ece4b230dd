-- ===== src/Multicaster/Interface.antt =====
-- `setInterface` and `setLoopback` of the multicaster (src/udpmulticaster.cpp).
use text.Mathlib.Text.{◌==◌ as str_eq}
use transport_cpp.Prelude.{
  ℕ, ◌&&◌, if◌then◌else◌, Bool, true, false, not, Option, none, some, is_some, List, String,
}
use transport_cpp.Types.{
  ReturnCode, ok, ErrorCode, internal, system, Bytes, IpVersion, any, ipv4, ipv6,
}
use transport_cpp.Os.{Outcome, value, failed}
use transport_cpp.Interfaces.{InterfaceOs, get_all_interfaces, find_interface}
use transport_cpp.Interfaces
use transport_cpp.Multicaster.{
  ip_multicast_if, ipv6_multicast_if, ip_multicast_loop, GroupOs, CasterWorld, in_world, set_caster,
  fail, crash, not_initialised,
}

abbrev is_ipv4 : IpVersion → Bool
is_ipv4 ipv4 = true
is_ipv4 _ = false

abbrev is_ipv6 : IpVersion → Bool
is_ipv6 ipv6 = true
is_ipv6 _ = false

-- `mSetInterface = {}`; an enumeration's first value is `ANY`.
abbrev pub no_interface : Interfaces.Interface
no_interface = record { if_name = ""; if_addr = ""; netmask = ""; ip_version = any }

module _ {S : Type 0} (group : GroupOs S) where
  abbrev interface_set :
      ℕ → Interfaces.Interface → Outcome (Unit {0}) × S → CasterWorld S → ReturnCode × CasterWorld S
  interface_set d i (failed errno, s) u =
      fail d (system errno) "Unable to add interface to multicaster"
        (in_world u (record u.world { sys = s }))
  interface_set d i (value tt, s) u =
      let v = in_world u (record u.world { sys = s }) in
      (ok, set_caster d (record (v.casters d) { set_interface = i }) v)

  abbrev set4 :
      ℕ
      → ℕ
      → Interfaces.Interface
      → Outcome (Option Bytes) × S
      → CasterWorld S
      → ReturnCode × CasterWorld S
  set4 d sock i (failed errno, s) u =
      fail d (system errno) "inet_pton returned an error" (in_world u (record u.world { sys = s }))
  set4 d sock i (value none, s) u =
      fail d (internal ErrorCode.invalid_argument) "Provided address is invalid"
        (in_world u (record u.world { sys = s }))
  set4 d sock i (value (some b), s) u =
      interface_set d i (group.set_sock_opt sock (ip_multicast_if b) s)
        (in_world u (record u.world { sys = s }))

  -- The two interfaces of the name. An iterator at the end must not be read.
  abbrev set_on :
      ℕ
      → String
      → ℕ
      → IpVersion
      → Option Interfaces.Interface
      → Option Interfaces.Interface
      → CasterWorld S
      → ReturnCode × CasterWorld S
  set_on d if_name sock ipv4 none v6 u = crash u
  set_on d if_name sock ipv4 (some i) v6 u = set4 d sock i (group.pton 2 i.if_addr u.world.sys) u
  set_on d if_name sock version v4 none u = crash u
  set_on d if_name sock version v4 (some i) u =
      let (index, s) = group.if_name_to_index if_name u.world.sys in
      interface_set d i (group.set_sock_opt sock (ipv6_multicast_if index) s)
        (in_world u (record u.world { sys = s }))

  -- Without a handle `value()` throws.
  abbrev set_with :
      ℕ
      → String
      → IpVersion
      → Option Interfaces.Interface
      → Option Interfaces.Interface
      → CasterWorld S
      → ReturnCode × CasterWorld S
  set_with d if_name version v4 v6 u = elim (u.world.devices d).handle [
    | none ↦ crash u
    | some sock ↦ set_on d if_name sock version v4 v6 u
  ]

  abbrev checked :
      ℕ
      → String
      → IpVersion
      → Option Interfaces.Interface
      → Option Interfaces.Interface
      → CasterWorld S
      → ReturnCode × CasterWorld S
  unfolding set_with
  checked d if_name version v4 v6 u =
      if not (is_some v4) && not (is_some v6)
      then fail d (internal ErrorCode.invalid_argument) "Provided interface does not exist" u
      else if is_ipv4 version && (not (is_some v4) && is_some v6)
      then fail d (internal ErrorCode.invalid_logic)
          "Multicaster was initialised as ipv4 but provided interface only supports ipv6" u
      else if is_ipv6 version && (not (is_some v6) && is_some v4)
      then fail d (internal ErrorCode.invalid_logic)
          "Multicaster was initialised as ipv6 but provided interface only supports ipv4" u
      else set_with d if_name version v4 v6 u

  abbrev with_interfaces :
      ℕ → String → Option (List Interfaces.Interface) → CasterWorld S → ReturnCode × CasterWorld S
  unfolding checked
  with_interfaces d if_name none u = crash u
  with_interfaces d if_name (some is) u =
      checked d if_name (u.casters d).ip_version
        (find_interface (λ i. str_eq if_name i.if_name && is_ipv4 i.ip_version) is)
        (find_interface (λ i. str_eq if_name i.if_name && is_ipv6 i.ip_version) is) u

  unfoldable pub set_interface :
      InterfaceOs S → ℕ → String → CasterWorld S → ReturnCode × CasterWorld S
  unfolding get_all_interfaces
  set_interface interfaces d if_name u =
      let v = set_caster d (record (u.casters d) { set_interface = no_interface }) u in
      let (found, s) = get_all_interfaces interfaces v.world.sys in
      if not (u.casters d).initialised
      then not_initialised d v
      else with_interfaces d if_name found (in_world v (record v.world { sys = s }))

  -- The overload that takes an interface.
  abbrev pub set_interface_of :
      InterfaceOs S → ℕ → Interfaces.Interface → CasterWorld S → ReturnCode × CasterWorld S
  unfolding set_interface
  set_interface_of interfaces d i u = set_interface interfaces d i.if_name u

  abbrev loop_set : ℕ → Outcome (Unit {0}) × S → CasterWorld S → ReturnCode × CasterWorld S
  loop_set d (failed errno, s) u =
      fail d (system errno) "Unable to set multicast loopback"
        (in_world u (record u.world { sys = s }))
  loop_set d (value tt, s) u = (ok, in_world u (record u.world { sys = s }))

  unfoldable pub set_loopback : ℕ → Bool → CasterWorld S → ReturnCode × CasterWorld S
  set_loopback d enable u =
      if not (u.casters d).initialised
      then fail d (internal ErrorCode.invalid_logic) "Device has not been initialised yet" u
      else elim (u.world.devices d).handle [
        | none ↦ crash u
        | some sock ↦ loop_set d (group.set_sock_opt sock (ip_multicast_loop enable) u.world.sys) u
      ]
