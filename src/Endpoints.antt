-- ===== src/Endpoints.antt =====
-- What the connected and the bound network devices have in common
-- (include/transport-cpp/networking/networkdevice.h, src/tcpclient.cpp, src/tcpserver.cpp,
-- src/udpclient.cpp, src/udpsender.cpp, src/udpreceiver.cpp, src/udpserver.cpp): the fields of the
-- classes, and the code that they repeat word for word. Log lines are left out.
pub mod Reopening
pub mod Exchange
pub mod Answers
pub mod Lifetime
pub mod Exchanging
pub mod Handling
use transport_cpp.Prelude.{ℕ, if◌then◌else◌, Bool, true, false, Option, none, some, update}
use transport_cpp.Types.{
  ReturnCode, ok, nok, Bytes, IoDataChoice, plain, HostAddr, IpVersion, NetworkMessage, any, ipv4,
  ipv6,
}
use transport_cpp.Os.{Os}
use transport_cpp.World.{World}
use transport_cpp.Devices.{destroy_handle}

pub record ConnectedHost : Type 0 where
  pub addr : HostAddr
  pub ip_hint : IpVersion

-- The address and the hint for a port alone; any hint but IPv4 becomes IPv6.
abbrev pub any_address : ℕ → IpVersion → ConnectedHost
any_address port ipv4 = record { addr = record { ip = "0.0.0.0"; port = port }; ip_hint = ipv4 }
any_address port _ = record { addr = record { ip = "::"; port = port }; ip_hint = ipv6 }

-- `mIsConnected`, `mIsBound` or `mBound`; `mHost` or `mAddr`, of which a TCP peer has the address
-- only; and which of the handlers that the user may set are set.
pub record Endpoint : Type 0 where
  pub active : Bool
  pub host : ConnectedHost
  pub has_disconnect_handler : Bool
  pub has_request_handler : Bool
  pub has_new_peer_handler : Bool

pub record NetWorld (S : Type 0) : Type 0 where
  pub world : World S
  pub endpoints : ℕ → Endpoint

-- The user's handlers, which may do anything. `request` gives an answer, or no value.
pub record Handlers (S : Type 0) : Type 0 where
  pub message : ℕ → NetworkMessage → NetWorld S → NetWorld S
  pub data_arrived : ℕ → Bytes → NetWorld S → NetWorld S
  pub disconnected : ℕ → NetWorld S → NetWorld S
  pub request : ℕ → NetworkMessage → NetWorld S → Option Bytes × NetWorld S
  pub new_peer : ℕ → ℕ → NetWorld S → NetWorld S

-- SOCK_STREAM and SOCK_DGRAM
abbrev pub sock_stream : ℕ
sock_stream = 1

abbrev pub sock_dgram : ℕ
sock_dgram = 2

module _ {S : Type 0} where
  abbrev pub with_world : NetWorld S → World S → NetWorld S
  with_world v w = record v { world = w }

  abbrev pub set_endpoint : ℕ → Endpoint → NetWorld S → NetWorld S
  set_endpoint d r v = record v { endpoints = update v.endpoints d r }

  abbrev pub set_active : ℕ → Bool → NetWorld S → NetWorld S
  set_active d b v = set_endpoint d (record (v.endpoints d) { active = b }) v

  -- `destroyHandle(); mIsConnected = false;`
  unfoldable pub close_endpoint : Os S → ℕ → NetWorld S → NetWorld S
  unfolding destroy_handle
  close_endpoint os d v = set_active d false (with_world v (destroy_handle os d v.world))

  -- The test of what `createAndConnectSocket` or `createAndBindSocket` returned: on OK the flag is
  -- set and the host kept.
  abbrev pub settled :
      ℕ
      → ConnectedHost
      → NetWorld S
      → Option (ReturnCode × World S)
      → Option (ReturnCode × NetWorld S)
  settled d host v none = none
  settled d host v (some (ok, w)) =
      some (
        ok,
        set_endpoint d (record (v.endpoints d) { active = true; host = host }) (with_world v w),
      )
  settled d host v (some (_, w)) = some (nok, with_world v w)

  -- `NetworkDevice::notifyCallback`, of which the two callbacks may do anything.
  unfoldable pub notify : Handlers S → ℕ → NetworkMessage → NetWorld S → NetWorld S
  notify h d m v =
      let told = if (v.world.net d).has_network_callback then h.message d m v else v in
      if (told.world.io d).has_callback then h.data_arrived d m.bytes told else told
