-- ===== src/Multicaster/Groups.antt =====
-- `publishToGroup` and `subscribeToGroup` of the multicaster (src/udpmulticaster.cpp).
use text.Mathlib.Text.{◌==◌ as str_eq}
use transport_cpp.Prelude.{ℕ, if◌then◌else◌, not, Option, none, some}
use transport_cpp.Types.{
  ReturnCode, ok, ErrorCode, internal, system, Bytes, HostAddr, IpVersion, any, ipv4,
}
use transport_cpp.Os.{Outcome, value, failed}
use transport_cpp.Sockets.{NetOs, family_of}
use transport_cpp.Multicaster.{
  ip_add_membership, ipv6_add_membership, GroupOs, CasterWorld, sock_addr, is_multicast, in_world,
  set_caster, fail, crash, not_initialised,
}

module _ {S : Type 0} where
  -- What `inet_pton` makes of the text of a group, and the test of its address.
  unfoldable pub group_parsed :
      ℕ
      → IpVersion
      → (Bytes → CasterWorld S → ReturnCode × CasterWorld S)
      → Outcome (Option Bytes) × S
      → CasterWorld S
      → ReturnCode × CasterWorld S
  unfolding is_multicast
  group_parsed d version go (failed errno, s) u =
      fail d (system errno) "inet_pton returned an error" (in_world u (record u.world { sys = s }))
  group_parsed d version go (value none, s) u =
      fail d (internal ErrorCode.invalid_argument) "Provided address is invalid"
        (in_world u (record u.world { sys = s }))
  group_parsed d version go (value (some b), s) u =
      let v = in_world u (record u.world { sys = s }) in
      if is_multicast version b
      then go b v
      else fail d (internal ErrorCode.invalid_argument)
          "Provided address is not a multicast address" v

  module _ (group : GroupOs S) where
    unfoldable pub parse_group :
        ℕ
        → HostAddr
        → IpVersion
        → (Bytes → CasterWorld S → ReturnCode × CasterWorld S)
        → CasterWorld S
        → ReturnCode × CasterWorld S
    unfolding group_parsed
    parse_group d host any go u =
        fail d (internal ErrorCode.general_error) "Multicaster was somehow initialised as 'Any'" u
    parse_group d host version go u =
        group_parsed d version go (group.pton (family_of version) host.ip u.world.sys) u

    abbrev pub published :
        ℕ → HostAddr → IpVersion → Bytes → CasterWorld S → ReturnCode × CasterWorld S
    published d host version b u = (
      ok,
      set_caster d
          (record (u.casters d) {
            published_sock_addr = some (sock_addr version host.port b);
            published_addr = some host;
          })
          u,
    )

    unfoldable pub publish_to_group : ℕ → HostAddr → CasterWorld S → ReturnCode × CasterWorld S
    unfolding parse_group
    publish_to_group d host u =
        let v = set_caster d (record (u.casters d) { published_sock_addr = none }) u in
        let version = (u.casters d).ip_version in
        if not (u.casters d).initialised
        then not_initialised d u
        else parse_group d host version (published d host version) v

    -- The rest of `subscribeToGroup`, once the option is set: `bind`.
    abbrev after_bind :
        ℕ → HostAddr → Outcome (Unit {0}) × S → CasterWorld S → ReturnCode × CasterWorld S
    after_bind d host (failed errno, s) u =
        fail d (system errno) "Unable to bind address" (in_world u (record u.world { sys = s }))
    after_bind d host (value tt, s) u =
        let v = in_world u (record u.world { sys = s }) in
        (ok, set_caster d (record (v.casters d) { subscribed_addr = some host }) v)

    abbrev after_membership :
        NetOs S
        → ℕ
        → ℕ
        → HostAddr
        → Bytes
        → Outcome (Unit {0}) × S
        → CasterWorld S
        → ReturnCode × CasterWorld S
    after_membership net d sock host b (failed errno, s) u =
        fail d (system errno) "Unable to register to address"
          (in_world u (record u.world { sys = s }))
    after_membership net d sock host b (value tt, s) u =
        let v = in_world u (record u.world { sys = s }) in
        after_bind d host (net.bind sock b v.world.sys) v

    -- The interface's own address, whose conversion is not checked: where it fails, memory that was
    -- never written is used.
    abbrev join4 :
        NetOs S
        → ℕ
        → ℕ
        → HostAddr
        → Bytes
        → Outcome (Option Bytes) × S
        → CasterWorld S
        → ReturnCode × CasterWorld S
    join4 net d sock host b (value (some i), s) u =
        after_membership net d sock host (sock_addr ipv4 host.port b)
          (group.set_sock_opt sock (ip_add_membership b i) s)
          (in_world u (record u.world { sys = s }))
    join4 net d sock host b (_, s) u = crash u

    abbrev join :
        NetOs S → ℕ → ℕ → HostAddr → IpVersion → Bytes → CasterWorld S → ReturnCode × CasterWorld S
    unfolding join4
    join net d sock host ipv4 b u =
        join4 net d sock host b (group.pton 2 (u.casters d).set_interface.if_addr u.world.sys) u
    join net d sock host version b u =
        let (index, s) = group.if_name_to_index (u.casters d).set_interface.if_name u.world.sys in
        after_membership net d sock host (sock_addr version host.port b)
          (group.set_sock_opt sock (ipv6_add_membership b index) s)
          (in_world u (record u.world { sys = s }))

    -- Without a handle `value()` throws.
    abbrev subscribed :
        NetOs S → ℕ → HostAddr → IpVersion → Bytes → CasterWorld S → ReturnCode × CasterWorld S
    unfolding join
    subscribed net d host version b u = elim (u.world.devices d).handle [
      | none ↦ crash u
      | some sock ↦ join net d sock host version b u
    ]

    unfoldable pub subscribe_to_group :
        NetOs S → ℕ → HostAddr → CasterWorld S → ReturnCode × CasterWorld S
    unfolding parse_group subscribed
    subscribe_to_group net d host u =
        let version = (u.casters d).ip_version in
        if not (u.casters d).initialised
        then not_initialised d u
        else if str_eq (u.casters d).set_interface.if_name ""
        then fail d (internal ErrorCode.invalid_logic) "Interface has not been set" u
        else parse_group d host version (subscribed net d host version) u
