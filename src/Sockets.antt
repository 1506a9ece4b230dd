-- ===== src/Sockets.antt =====
-- The calls of <sys/socket.h> and <netdb.h> that src/networkdevice.cpp makes, as an interface over a
-- state of the kernel, and its class `AddrInfo`, a cursor over what `getaddrinfo` returned.
use transport_cpp.Prelude.{ℕ, ◌==◌, if◌then◌else◌, Option, none, some, List, [], ◌∷◌, String}
use transport_cpp.Types.{Bytes, HostAddr, IpVersion, any, ipv4, ipv6}
use transport_cpp.Os.{Outcome}

-- A node of the list of `addrinfo`.
pub record Address : Type 0 where
  pub family : ℕ
  pub socktype : ℕ
  pub protocol : ℕ
  pub addr : Bytes

pub record Hints : Type 0 where
  pub family : ℕ
  pub socktype : ℕ
  pub flags : ℕ

-- An address as the kernel fills it in, with what `inet_ntop` makes of it.
pub data Peer : Type 0 where
  inet : Outcome String → ℕ → Peer
  inet6 : Outcome String → ℕ → Peer
  unknown : Peer

pub record NetOs (S : Type 0) : Type 0 where
  -- Host and port; the status is 0 when it succeeds.
  pub get_addr_info : Hints → HostAddr → S → (ℕ × List Address) × S
  pub gai_strerror : ℕ → String
  pub socket : Address → S → Outcome ℕ × S
  pub connect : ℕ → Bytes → S → Outcome (Unit {0}) × S
  pub bind : ℕ → Bytes → S → Outcome (Unit {0}) × S
  -- `setsockopt(sock, SOL_SOCKET, SO_REUSEADDR, &yes, sizeof(yes))`
  pub reuse_addr : ℕ → S → Outcome (Unit {0}) × S
  pub send_to : ℕ → Bytes → Bytes → S → Outcome ℕ × S
  -- At most so many bytes, and the address that the call leaves in `peer_addr`.
  pub recv_from : ℕ → ℕ → S → Outcome (Bytes × Peer) × S
  pub get_sock_name : ℕ → S → Outcome Peer × S
  pub errno : S → ℕ

-- AF_UNSPEC, AF_INET and AF_INET6
abbrev pub family_of : IpVersion → ℕ
family_of any = 0
family_of ipv4 = 2
family_of ipv6 = 10

abbrev pub ai_passive : ℕ
ai_passive = 1

abbrev pub hints_of : IpVersion → ℕ → Hints
hints_of ip_hint sock_style = record {
  family = family_of ip_hint;
  socktype = sock_style;
  flags = ai_passive;
}

-- `mInfo` and `mCurrent`, each with the nodes that follow it; null has none.
pub record AddrInfo : Type 0 where
  pub info : List Address
  pub current : List Address

abbrev pub no_info : AddrInfo
no_info = record { info = []; current = [] }

abbrev loaded : (ℕ × List Address) → AddrInfo
loaded (status, addresses) = record no_info { info = if status == 0 then addresses else [] }

-- `AddrInfo::loadHints` of a cursor that holds nothing yet.
unfoldable pub load_hints : {S : Type 0} → NetOs S → Hints → HostAddr → S → ℕ × AddrInfo × S
load_hints net hints addr s = let (r, s') = net.get_addr_info hints addr s in (r.0, loaded r, s')

abbrev first_of : List Address → Option Address
first_of [] = none
first_of (a ∷ rest) = some a

abbrev next_of : List Address → AddrInfo → Option Address × AddrInfo
next_of [] i = (first_of i.info, record i { current = i.info })
next_of (a ∷ []) i = (none, i)
next_of (a ∷ b ∷ rest) i = (some b, record i { current = b ∷ rest })

-- `AddrInfo::next`
unfoldable pub next : AddrInfo → Option Address × AddrInfo
next i = next_of i.current i
