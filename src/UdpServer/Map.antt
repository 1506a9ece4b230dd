-- ===== src/UdpServer/Map.antt =====
-- The server's list of pointers is a map from addresses to peers.
use text.Mathlib.TextEquality.{eq_iff}
use transport_cpp.Prelude.{
  ℕ, ◌≡◌, ◌≢◌, ◌++◌, if◌then◌else◌, refl, true, false, List, [], ◌∷◌, mem, arith, ◌∙◌, ap, sym,
  subst, inl, inr, Bool-cases, ==_iff,
}
use transport_cpp.Types.{HostAddr, NetworkMessage}
use transport_cpp.UdpServer.{PeerPart, UdpWorld}
use transport_cpp.UdpServer.Receive.{
  UdpHandlers, same_host, Found, found, dangling, absent, find_peer, notify, route, notify_new_data,
  heard_from,
}
use transport_cpp.UdpServer.Table.{
  KeepTable, Added, find_peer-same, notify-SameTable, notify_new_data-SameTable, new_peer-Added,
}
use transport_cpp.UdpServer.Routing.{find_peer-SameTable, route-absent, route-found}

-- What the map has at an address.
abbrev pub lookup_peer : {S : Type 0} → ℕ → HostAddr → UdpWorld S → Found
lookup_peer d host u = find_peer u.peers host (u.servers d).peers

abbrev pub if_absent : Found → Found → Found
if_absent absent other = other
if_absent o other = o

if_absent_same : (o : Found) → if_absent o absent ≡ o
if_absent_same (found q) = refl
if_absent_same dangling = refl
if_absent_same absent = refl

same_host-true : (a b : HostAddr) → same_host a b ≡ true → a ≡ b
same_host-true a b e =
    let same_ip : a.ip ≡ b.ip = (eq_iff a.ip b.ip).0 (ground (arith, e)) in
    let same_port : a.port ≡ b.port = (==_iff a.port b.port).0 (ground (arith, e)) in
    λ i. record { ip = same_ip i; port = same_port i }

find_peer_behind :
    (f : ℕ → PeerPart) (host : HostAddr) (p : ℕ) (ps : List ℕ)
    → (f p).alive ≡ true
    → find_peer f host (ps ++ p ∷ [])
      ≡ if_absent (find_peer f host ps) (if same_host (f p).address host then found p else absent)
unfolding find_peer
find_peer_behind f host p [] alive = ground (arith, alive)
find_peer_behind f host p (q ∷ qs) alive = ground (arith, find_peer_behind f host p qs alive)

-- Looking up what was there, where the address that got a peer has one already.
kept :
    (f : HostAddr → Found) (a host : HostAddr) (p q : ℕ)
    → f a ≡ found q
    → if_absent (f host) (if same_host a host then found p else absent) ≡ f host
kept f a host p q e = elim (Bool-cases (same_host a host)) [
  | inl same ↦ rw same (
      subst (λ x. if_absent (f x) (found p) ≡ f x) (same_host-true a host same)
        (ap (λ o. if_absent o (found p)) e ∙ sym e))
  | inr other ↦ rw other (if_absent_same (f host))
]

module _ {S : Type 0} (h : UdpHandlers S) (d : ℕ) (k : KeepTable d h) where
  lookup_peer-found :
      (p q : ℕ) (m : NetworkMessage) (u : UdpWorld S) (host : HostAddr)
      → lookup_peer d m.peer u ≡ found q
      → lookup_peer d host (route h d p m u) ≡ lookup_peer d host u
  lookup_peer-found p q m u host e =
      let told = notify h d m u in
      let s = notify-SameTable h d k d m u in
      let heard = heard_from h d m.peer told in
      ap (lookup_peer d host)
        (route-found h d k p q m u (find_peer-SameTable h d k m.peer u told s ∙ e))
      ∙ find_peer-SameTable h d k host heard (notify_new_data h q m heard)
          (notify_new_data-SameTable h d k q m heard)
      ∙ find_peer-SameTable h d k host told heard (ground arith, λ q. (refl, refl))
      ∙ find_peer-SameTable h d k host u told s

  lookup_peer-Added :
      (p : ℕ) (a host : HostAddr) (u u' : UdpWorld S)
      → Added h d k p a u u'
      → lookup_peer d host u'
        ≡ if_absent (lookup_peer d host u) (if same_host a host then found p else absent)
  lookup_peer-Added p a host u u' new =
      ap (find_peer u'.peers host) new.list
      ∙ find_peer_behind u'.peers host p (u.servers d).peers new.exists
      ∙ ap (λ o. if_absent o (if same_host (u'.peers p).address host then found p else absent))
          (find_peer-same u.peers u'.peers host (u.servers d).peers new.others)
      ∙ ap (λ x. if_absent (lookup_peer d host u) (if same_host x host then found p else absent))
          new.address

  lookup_peer-absent :
      (p : ℕ) (m : NetworkMessage) (u : UdpWorld S) (host : HostAddr)
      → mem p (u.servers d).peers ≡ false
      → ((notify h d m u).net.endpoints d).has_new_peer_handler ≡ true
      → lookup_peer d m.peer u ≡ absent
      → lookup_peer d host (route h d p m u)
        ≡ if_absent (lookup_peer d host u) (if same_host m.peer host then found p else absent)
  lookup_peer-absent p m u host fresh set e =
      let told = notify h d m u in
      let s = notify-SameTable h d k d m u in
      ap (lookup_peer d host)
        (route-absent h d k p m u (find_peer-SameTable h d k m.peer u told s ∙ e) set)
      ∙ lookup_peer-Added p m.peer host told _
          (new_peer-Added h d k p m told (ap (mem p) s.0 ∙ fresh))
      ∙ ap (λ o. if_absent o (if same_host m.peer host then found p else absent))
          (find_peer-SameTable h d k host u told s)

  -- What arrives changes the map in one way only: if its address had no peer, it has the new one
  -- after. All other addresses keep what they had. This is so when no destroyed peer is met at the
  -- address, there is a handler for new peers, the memory of the new peer is not that of a peer that
  -- the server knows, and the user's handlers neither destroy peers nor make the server receive.
  pub lookup_peer-route :
      (p : ℕ) (m : NetworkMessage) (u : UdpWorld S) (host : HostAddr)
      → mem p (u.servers d).peers ≡ false
      → lookup_peer d m.peer u ≢ dangling
      → ((notify h d m u).net.endpoints d).has_new_peer_handler ≡ true
      → lookup_peer d host (route h d p m u)
        ≡ if_absent (lookup_peer d host u) (if same_host m.peer host then found p else absent)
  lookup_peer-route p m u host fresh intact set = at (lookup_peer d m.peer u) refl
    where
      at :
          (o : Found)
          → lookup_peer d m.peer u ≡ o
          → lookup_peer d host (route h d p m u)
            ≡ if_absent (lookup_peer d host u) (if same_host m.peer host then found p else absent)
      at (found q) e =
          lookup_peer-found p q m u host e ∙ sym (kept (λ x. lookup_peer d x u) m.peer host p q e)
      at dangling e = absurd (intact e)
      at absent e = lookup_peer-absent p m u host fresh set e
