-- ===== src/Multicaster.antt =====
-- `UDP::Multicaster` (src/udpmulticaster.cpp, include/transport-cpp/networking/udpmulticaster.h): its
-- state, and joining and publishing to groups. Log lines are left out.
pub mod Interface
pub mod Send
pub mod Groups
pub mod Publishing
pub mod Sending
use Prim.Native.Nat.{bit_and}
use transport_cpp.Prelude.{
  ℕ, ◌/◌, ◌%◌, ◌==◌, ◌&&◌, ◌++◌, if◌then◌else◌, Bool, true, false, not, Option, none, some, is_some,
  List, [], ◌∷◌, String, update,
}
use transport_cpp.Types.{
  ReturnCode, ok, nok, ErrorCode, DeviceError, internal, system, Bytes, HostAddr, IpVersion, any,
  ipv4, ipv6,
}
use transport_cpp.Os.{Os, Outcome, value, failed}
use transport_cpp.World.{World, set_error}
use transport_cpp.Devices.{destroy_handle}
use transport_cpp.IoDevice.{register_new_handle, destroy_io_device}
use transport_cpp.Interfaces
use transport_cpp.Sockets.{NetOs, family_of}

-- What `setsockopt` sets here, named for its level and option.
pub data GroupOption : Type 0 where
  ip_add_membership : Bytes → Bytes → GroupOption
  ipv6_add_membership : Bytes → ℕ → GroupOption
  ip_multicast_if : Bytes → GroupOption
  ipv6_multicast_if : ℕ → GroupOption
  ip_multicast_loop : Bool → GroupOption

-- `inet_pton`, with no bytes for a text that is no address, `setsockopt` and `if_nametoindex`.
pub record GroupOs (S : Type 0) : Type 0 where
  pub pton : ℕ → String → S → Outcome (Option Bytes) × S
  pub set_sock_opt : ℕ → GroupOption → S → Outcome (Unit {0}) × S
  pub if_name_to_index : String → S → ℕ × S

pub record CasterPart : Type 0 where
  pub initialised : Bool
  pub ip_version : IpVersion
  pub set_interface : Interfaces.Interface
  -- The bytes of `mPublishedSockAddr`; null is `none`.
  pub published_sock_addr : Option Bytes
  pub published_addr : Option HostAddr
  pub subscribed_addr : Option HostAddr

pub record CasterWorld (S : Type 0) : Type 0 where
  pub world : World S
  pub casters : ℕ → CasterPart

-- The lowest byte of a port comes second in memory.
abbrev pub port_bytes : ℕ → Bytes
port_bytes port = port / 256 ∷ port % 256 ∷ []

-- `sockaddr_in` and `sockaddr_in6` of a host whose lowest byte comes first.
abbrev pub sock_addr : IpVersion → ℕ → Bytes → Bytes
sock_addr ipv4 port b = 2 ∷ 0 ∷ (port_bytes port ++ (b ++ 0 ∷ 0 ∷ 0 ∷ 0 ∷ 0 ∷ 0 ∷ 0 ∷ 0 ∷ []))
sock_addr _ port b = 10 ∷ 0 ∷ (port_bytes port ++ (0 ∷ 0 ∷ 0 ∷ 0 ∷ (b ++ 0 ∷ 0 ∷ 0 ∷ 0 ∷ [])))

-- `&` of two words, kept as their bytes in memory, and their equality.
abbrev pub bytes_and : Bytes → Bytes → Bytes
bytes_and [] ms = []
bytes_and (b ∷ bs) [] = []
bytes_and (b ∷ bs) (m ∷ ms) = bit_and b m ∷ bytes_and bs ms

abbrev pub bytes_eq : Bytes → Bytes → Bool
bytes_eq [] [] = true
bytes_eq [] (c ∷ cs) = false
bytes_eq (b ∷ bs) [] = false
bytes_eq (b ∷ bs) (c ∷ cs) = b == c && bytes_eq bs cs

-- `NetmaskNetOrder` and `NetworkNetOrder`, as they lie in memory.
abbrev netmask_net_order : Bytes
netmask_net_order = 240 ∷ 0 ∷ 0 ∷ 0 ∷ []

abbrev network_net_order : Bytes
network_net_order = 224 ∷ 0 ∷ 0 ∷ 0 ∷ []

abbrev first_byte : Bytes → ℕ
first_byte [] = 0
first_byte (b ∷ bs) = b

unfoldable pub is_multicast : IpVersion → Bytes → Bool
is_multicast ipv4 b = bytes_eq (bytes_and b netmask_net_order) network_net_order
is_multicast _ b = bit_and (first_byte b) 255 == 255

module _ {S : Type 0} where
  abbrev pub in_world : CasterWorld S → World S → CasterWorld S
  in_world u w = record u { world = w }

  abbrev pub set_caster : ℕ → CasterPart → CasterWorld S → CasterWorld S
  set_caster d r u = record u { casters = update u.casters d r }

  abbrev pub fail : ℕ → DeviceError → String → CasterWorld S → ReturnCode × CasterWorld S
  fail d code description u = (nok, in_world u (set_error d code description u.world))

  abbrev pub crash : CasterWorld S → ReturnCode × CasterWorld S
  crash u = (nok, in_world u (record u.world { fault = true }))

  abbrev pub not_initialised : ℕ → CasterWorld S → ReturnCode × CasterWorld S
  not_initialised d u =
      fail d (internal ErrorCode.invalid_logic) "Multicaster has not been initialised yet" u

  unfoldable pub device_is_ready : ℕ → CasterWorld S → Bool
  device_is_ready d u = is_some (u.casters d).published_sock_addr && (u.casters d).initialised

  module _ (os : Os S) where
    unfoldable pub de_initialise : ℕ → CasterWorld S → CasterWorld S
    unfolding destroy_handle
    de_initialise d u =
        let off = set_caster d (record (u.casters d) { initialised = false }) u in
        in_world off (destroy_handle os d off.world)

    -- `~Multicaster`, and the destructors of its bases.
    unfoldable pub destroy : ℕ → CasterWorld S → CasterWorld S
    unfolding destroy_io_device
    destroy d u =
        let freed = set_caster d (record (u.casters d) { published_sock_addr = none }) u in
        in_world freed (destroy_io_device os d freed.world)

    abbrev after_socket : ℕ → Outcome ℕ × S → CasterWorld S → ReturnCode × CasterWorld S
    unfolding register_new_handle
    after_socket d (failed errno, s) u =
        fail d (system errno) "Unable to create socket" (in_world u (record u.world { sys = s }))
    after_socket d (value sock, s) u =
        let v = in_world u (register_new_handle os d (some sock) (record u.world { sys = s })) in
        (ok, set_caster d (record (v.casters d) { initialised = true }) v)

    abbrev with_version : NetOs S → ℕ → IpVersion → CasterWorld S → ReturnCode × CasterWorld S
    unfolding after_socket
    with_version net d any u =
        fail d (internal ErrorCode.invalid_logic) "IPversion cannot be 'Any'" u
    with_version net d version u =
        let v = set_caster d (record (u.casters d) { ip_version = version }) u in
        after_socket d
          (net.socket
            (record { family = family_of version; socktype = 2; protocol = 17; addr = [] })
            v.world.sys)
          v

    unfoldable pub initialise : NetOs S → ℕ → IpVersion → CasterWorld S → ReturnCode × CasterWorld S
    unfolding de_initialise with_version
    initialise net d version u = with_version net d version (de_initialise d u)
