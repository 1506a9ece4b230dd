-- ===== src/Multicaster/Publishing.antt =====
-- Which groups can be published to, and what publishing leaves.
use Prim.Native.Nat.{bit_and}
use transport_cpp.Prelude.{
  ℕ, length, if◌then◌else◌, zero, suc, ◌<◌, ◌≡◌, ◌==◌, ◌&&◌, ◌⊎◌, inl, inr, ltb, leb, refl, Bool,
  true, false, none, some, [], ◌∷◌, arith, sym, subst,
}
use transport_cpp.Types.{
  ReturnCode, ok, nok, Bytes, HostAddr, IpVersion, any, ipv4, ipv6, ErrorCode, internal,
}
use transport_cpp.Os.{value}
use transport_cpp.Sockets.{family_of}
use transport_cpp.Multicaster.{
  GroupOs, CasterWorld, is_multicast, sock_addr, device_is_ready, set_caster, in_world, fail,
}
use transport_cpp.Multicaster.Groups.{publish_to_group, parse_group, group_parsed, published}

-- A test of all numbers below a bound.
holds_to : (ℕ → Bool) → ℕ → Bool
holds_to test zero = true
holds_to test (suc n) = if test n then holds_to test n else false

holds_at : (test : ℕ → Bool) (n x : ℕ) → holds_to test n ≡ true → x < n → test x ≡ true
unfolding holds_to
holds_at test zero x h l = absurd (omega arith)
holds_at test (suc n) x h l = ground (arith, holds_at test n x)

abbrev same_bool : Bool → Bool → Bool
same_bool true b = b
same_bool false true = false
same_bool false false = true

equal_of_same : (b c : Bool) → same_bool b c ≡ true → b ≡ c
equal_of_same true true h = refl
equal_of_same true false h = cc
equal_of_same false true h = cc
equal_of_same false false h = refl

high_half_table :
    holds_to (λ x. same_bool (bit_and x 240 == 224) (leb 224 x && ltb x 240)) 256 ≡ true
unfolding holds_to
high_half_table = refl

no_bits_table : holds_to (λ x. bit_and x 0 == 0) 256 ≡ true
unfolding holds_to
no_bits_table = refl

all_bits_table : holds_to (λ x. same_bool (bit_and x 255 == 255) (x == 255)) 256 ≡ true
unfolding holds_to
all_bits_table = refl

high_half : (x : ℕ) → x < 256 → (bit_and x 240 == 224) ≡ (leb 224 x && ltb x 240)
high_half x l = equal_of_same _ _ (
    holds_at (λ x. same_bool (bit_and x 240 == 224) (leb 224 x && ltb x 240)) 256 x high_half_table
      l)

no_bits : (x : ℕ) → x < 256 → (bit_and x 0 == 0) ≡ true
no_bits x l = holds_at (λ x. bit_and x 0 == 0) 256 x no_bits_table l

all_bits : (x : ℕ) → x < 256 → (bit_and x 255 == 255) ≡ (x == 255)
all_bits x l =
    equal_of_same _ _
      (holds_at (λ x. same_bool (bit_and x 255 == 255) (x == 255)) 256 x all_bits_table l)

-- What `inet_pton` gives for an address: four bytes, and sixteen.
abbrev pub AddressOf : IpVersion → Bytes → Type 0
AddressOf ipv4 (a ∷ b ∷ c ∷ e ∷ []) = (a < 256) × (b < 256) × (c < 256) × (e < 256)
AddressOf ipv6 (a ∷ rest) = (a < 256) × (length rest ≡ 15)
AddressOf _ _ = ⊥

-- The multicast addresses: 224.0.0.0 to 239.255.255.255, and ff00::/8.
abbrev pub in_range : IpVersion → Bytes → Bool
in_range ipv4 (a ∷ rest) = leb 224 a && ltb a 240
in_range ipv6 (a ∷ rest) = a == 255
in_range _ _ = false

is_multicast-in_range :
    (version : IpVersion) (b : Bytes)
    → AddressOf version b
    → is_multicast version b ≡ in_range version b
unfolding is_multicast
is_multicast-in_range ipv4 (a ∷ b ∷ c ∷ e ∷ []) k =
    ground (arith, high_half a k.0, no_bits b k.1, no_bits c k.2, no_bits e k.3)
is_multicast-in_range ipv6 (a ∷ rest) k = all_bits a k.0
is_multicast-in_range version b k = absurd k

module _ {S : Type 0} (group : GroupOs S) where
  -- What `publishToGroup` ends with: in range, the group is published and the multicaster ready; if
  -- not, nothing is, not even what was published before.
  abbrev pub Published :
      ℕ → HostAddr → IpVersion → Bytes → CasterWorld S → ReturnCode × CasterWorld S → Type 0
  Published d host version b u (code, u') =
      ((code ≡ ok)
        × (in_range version b ≡ true)
        × ((u'.casters d).published_sock_addr ≡ some (sock_addr version host.port b))
        × ((u'.casters d).published_addr ≡ some host)
        × (device_is_ready d u' ≡ true))
      ⊎ ((code ≡ nok)
          × (in_range version b ≡ false)
          × ((u'.casters d).published_sock_addr ≡ none)
          × ((u'.casters d).published_addr ≡ (u.casters d).published_addr)
          × (device_is_ready d u' ≡ false))

  -- The state in which the group is published.
  abbrev reading : ℕ → S → CasterWorld S → CasterWorld S
  reading d s u =
      let v = set_caster d (record (u.casters d) { published_sock_addr = none }) u in
      in_world v (record v.world { sys = s })

  judged :
      (d : ℕ) (host : HostAddr) (version : IpVersion) (b : Bytes) (s : S) (u : CasterWorld S)
      (in_group : Bool)
      → (u.casters d).initialised ≡ true
      → in_range version b ≡ in_group
      → Published d host version b u (
          if in_group
          then published group d host version b (reading d s u)
          else fail d
              (internal ErrorCode.invalid_argument)
              "Provided address is not a multicast address"
              (reading d s u))
  unfolding device_is_ready
  judged d host version b s u true on e =
      inl (refl, e, ground arith, ground arith, ground (arith, on))
  judged d host version b s u false on e = inr (refl, e, ground arith, ground arith, ground arith)

  parsed :
      (d : ℕ) (host : HostAddr) (version : IpVersion) (b : Bytes) (s : S) (u : CasterWorld S)
      → (u.casters d).initialised ≡ true
      → (u.casters d).ip_version ≡ version
      → group.pton (family_of version) host.ip u.world.sys ≡ (value (some b), s)
      → AddressOf version b
      → publish_to_group group d host u ≡ (
          if is_multicast version b
          then published group d host version b (reading d s u)
          else fail d
              (internal ErrorCode.invalid_argument)
              "Provided address is not a multicast address"
              (reading d s u))
  unfolding publish_to_group parse_group group_parsed
  parsed d host any b s u on v reads k = absurd k
  parsed d host ipv4 b s u on v reads k = ground (arith, on, v, reads)
  parsed d host ipv6 b s u on v reads k = ground (arith, on, v, reads)

  -- `publishToGroup` of a multicaster that was initialised, with an address that `inet_pton` can read,
  -- returns OK exactly for the multicast addresses of its version. Then it is ready to send to that
  -- address and port. If not, it is not ready any more, whatever was published before, while
  -- `mPublishedAddr` stays the group before.
  pub publish_to_group-Published :
      (d : ℕ) (host : HostAddr) (version : IpVersion) (b : Bytes) (s : S) (u : CasterWorld S)
      → (u.casters d).initialised ≡ true
      → (u.casters d).ip_version ≡ version
      → group.pton (family_of version) host.ip u.world.sys ≡ (value (some b), s)
      → AddressOf version b
      → let (code, u') = publish_to_group group d host u in
        ((code ≡ ok)
          × (in_range version b ≡ true)
          × ((u'.casters d).published_sock_addr ≡ some (sock_addr version host.port b))
          × ((u'.casters d).published_addr ≡ some host)
          × (device_is_ready d u' ≡ true))
        ⊎ ((code ≡ nok)
            × (in_range version b ≡ false)
            × ((u'.casters d).published_sock_addr ≡ none)
            × ((u'.casters d).published_addr ≡ (u.casters d).published_addr)
            × (device_is_ready d u' ≡ false))
  publish_to_group-Published d host version b s u on v reads k =
      subst (Published d host version b u) (sym (parsed d host version b s u on v reads k)) (
        judged d host version b s u (is_multicast version b) on
          (sym (is_multicast-in_range version b k)))
