-- ===== src/NetworkDevice/Open.antt =====
-- Opening a socket, connected or bound (src/networkdevice.cpp).
use transport_cpp.Prelude.{ℕ, zero, suc, ◌==◌, if◌then◌else◌, Option, none, some, String}
use transport_cpp.Types.{ReturnCode, ok, nok, ErrorCode, internal, system, IpVersion, HostAddr}
use transport_cpp.Os.{Os, Outcome, value, failed}
use transport_cpp.World.{World, set_error}
use transport_cpp.IoDevice.{register_new_handle}
use transport_cpp.Sockets.{NetOs, Address, AddrInfo, hints_of, load_hints, next}
use transport_cpp.NetworkDevice.{unresolved, no_addresses}

-- A result, or the state in which the next address is tried.
pub data Attempt (S : Type 0) : Type 0 where
  over : ReturnCode × World S → Attempt S
  again : World S → Attempt S

module _ {S : Type 0} (os : Os S) (net : NetOs S) where
  abbrev no_socket : ℕ → ℕ → World S → ReturnCode × World S
  no_socket d errno w = (nok, set_error d (system errno) "Unable to open socket" w)

  abbrev pub closing : ℕ → World S → World S
  closing sock w = record w { sys = os.close sock w.sys }

  abbrev registered : ℕ → ℕ → World S → ReturnCode × World S
  registered d sock w = (ok, register_new_handle os d (some sock) w)

  abbrev pub connected : ℕ → ℕ → Outcome (Unit {0}) × S → World S → Attempt S
  connected d sock (failed errno, s) w = again (closing sock (record w { sys = s }))
  connected d sock (value u, s) w = over (registered d sock (record w { sys = s }))

  abbrev pub connect_socket : ℕ → Address → Outcome ℕ × S → World S → Attempt S
  connect_socket d a (failed errno, s) w = over (no_socket d errno (record w { sys = s }))
  connect_socket d a (value sock, s) w = connected d sock (net.connect sock a.addr s) w

  abbrev pub try_connect : ℕ → Address → World S → Attempt S
  try_connect d a w = connect_socket d a (net.socket a w.sys) w

  -- The result of `sockToReuse`, which sets the error.
  abbrev pub reused : ℕ → Outcome (Unit {0}) × S → World S → ReturnCode × World S
  reused d (failed errno, s) w = (
    nok,
    set_error d (system errno) "Unable to configure socket for reuse" (record w { sys = s }),
  )
  reused d (value u, s) w = (ok, record w { sys = s })

  unfoldable pub sock_to_reuse : ℕ → Option ℕ → World S → ReturnCode × World S
  sock_to_reuse d none w = (
    nok,
    set_error d (internal ErrorCode.invalid_logic) "reuse requested, but no device handle present"
        w,
  )
  sock_to_reuse d (some sock) w = reused d (net.reuse_addr sock w.sys) w

  abbrev pub bind_reused : ℕ → Address → ℕ → ReturnCode × World S → Attempt S
  bind_reused d a sock (nok, w) = over (nok, closing sock w)
  bind_reused d a sock (_, w) = connected d sock (net.bind sock a.addr w.sys) w

  abbrev pub bind_socket : ℕ → Address → Outcome ℕ × S → World S → Attempt S
  unfolding sock_to_reuse
  bind_socket d a (failed errno, s) w = over (no_socket d errno (record w { sys = s }))
  bind_socket d a (value sock, s) w =
      bind_reused d a sock (sock_to_reuse d (some sock) (record w { sys = s }))

  abbrev pub try_bind : ℕ → Address → World S → Attempt S
  try_bind d a w = bind_socket d a (net.socket a w.sys) w

  -- The `for` loop over `next()`; `none` when the fuel is used up.
  unfoldable pub address_loop :
      (Address → World S → Attempt S)
      → String
      → ℕ
      → ℕ
      → Option Address × AddrInfo
      → World S
      → Option (ReturnCode × World S)
  unfolding next
  address_loop try failure zero d i w = none
  address_loop try failure (suc fuel) d (none, i) w =
      some (nok, set_error d (system (net.errno w.sys)) failure w)
  address_loop try failure (suc fuel) d (some a, i) w = elim (try a w) [
    | over r ↦ some r
    | again w' ↦ address_loop try failure fuel d (next i) w'
  ]

  abbrev pub addresses_from :
      (Address → World S → Attempt S)
      → String
      → ℕ
      → ℕ
      → Option Address × AddrInfo
      → World S
      → Option (ReturnCode × World S)
  addresses_from try failure fuel d (none, i) w = some (no_addresses net d w)
  addresses_from try failure fuel d (some a, i) w = address_loop try failure fuel d (some a, i) w

  abbrev pub resolved :
      (Address → World S → Attempt S)
      → String
      → ℕ
      → ℕ
      → ℕ × AddrInfo × S
      → World S
      → Option (ReturnCode × World S)
  resolved try failure fuel d (status, info, s) w =
      let u = record w { sys = s } in
      if status == 0
      then addresses_from try failure fuel d (next info) u
      else some (unresolved net d status u)

  -- `NetworkDevice::createAndConnectSocket`
  unfoldable pub create_and_connect_socket :
      ℕ → ℕ → HostAddr → IpVersion → ℕ → World S → Option (ReturnCode × World S)
  unfolding address_loop load_hints next
  create_and_connect_socket fuel d host ip_hint sock_style w =
      resolved (try_connect d) "Unable to connect socket" fuel d
        (load_hints net (hints_of ip_hint sock_style) host w.sys) w

  -- `NetworkDevice::createAndBindSocket`
  unfoldable pub create_and_bind_socket :
      ℕ → ℕ → HostAddr → IpVersion → ℕ → World S → Option (ReturnCode × World S)
  unfolding address_loop load_hints next sock_to_reuse
  create_and_bind_socket fuel d host ip_hint sock_style w =
      resolved (try_bind d) "Unable to bind socket" fuel d
        (load_hints net (hints_of ip_hint sock_style) host w.sys) w
