-- ===== src/UdpServer/Table.antt =====
-- The table of a server's peers, and what a search in it finds.
use text.Mathlib.TextEquality.{eq_iff}
use transport_cpp.Prelude.{
  ℕ, ◌≡◌, ◌==◌, ◌++◌, if◌then◌else◌, refl, Bool, true, false, List, [], ◌∷◌, mem, arith, ◌∙◌, ap,
  sym, subst,
}
use transport_cpp.Types.{HostAddr, Bytes, NetworkMessage}
use transport_cpp.UdpServer.{PeerPart, UdpWorld}
use transport_cpp.UdpServer.Receive.{
  UdpHandlers, same_host, found, absent, find_peer, notify, notify_new_data, heard_from, make_peer,
  keep_peer,
}

-- Nobody but the server changes its list, and no peer changes its address or is destroyed.
abbrev pub SameTable : {S : Type 0} → ℕ → UdpWorld S → UdpWorld S → Type 0
SameTable d u u' =
    ((u'.servers d).peers ≡ (u.servers d).peers)
    × ((q : ℕ)
        → ((u'.peers q).alive ≡ (u.peers q).alive) × ((u'.peers q).address ≡ (u.peers q).address))

-- Handlers that leave a server's table alone.
pub record KeepTable {S : Type 0} (d : ℕ) (h : UdpHandlers S) : Type 0 where
  pub message : (e : ℕ) (m : NetworkMessage) (u : UdpWorld S) → SameTable d u (h.message e m u)
  pub data_arrived : (e : ℕ) (b : Bytes) (u : UdpWorld S) → SameTable d u (h.data_arrived e b u)
  pub new_peer :
      (e : ℕ) (m : NetworkMessage) (p : ℕ) (u : UdpWorld S) → SameTable d u (h.new_peer e m p u)
  pub new_data : (q : ℕ) (m : NetworkMessage) (u : UdpWorld S) → SameTable d u (h.new_data q m u)

-- Of all the peers of the list none has the address that an earlier one has.
abbrev pub NoneAt : (ℕ → PeerPart) → HostAddr → List ℕ → Type 0
NoneAt peers host [] = Unit {0}
NoneAt peers host (p ∷ ps) = (same_host host (peers p).address ≡ false) × NoneAt peers host ps

abbrev pub DistinctHosts : (ℕ → PeerPart) → List ℕ → Type 0
DistinctHosts peers [] = Unit {0}
DistinctHosts peers (p ∷ ps) = NoneAt peers (peers p).address ps × DistinctHosts peers ps

same_host_self : (a : HostAddr) → same_host a a ≡ true
same_host_self a = ground (arith, (eq_iff a.ip a.ip).1 refl)

module _ (f g : ℕ → PeerPart) where
  -- The search looks at which peers exist and at their addresses only.
  pub find_peer-same :
      (host : HostAddr) (ps : List ℕ)
      → ((q : ℕ) → mem q ps ≡ true → ((g q).alive ≡ (f q).alive) × ((g q).address ≡ (f q).address))
      → find_peer g host ps ≡ find_peer f host ps
  unfolding find_peer
  find_peer-same host [] same = refl
  find_peer-same host (p ∷ ps) same =
      ground (arith, same p, find_peer-same host ps (λ q m. same q (ground (arith, m))))

-- A peer behind those of the list, none of which has the address.
pub find_peer-append :
    (f : ℕ → PeerPart) (host : HostAddr) (p : ℕ) (ps : List ℕ)
    → find_peer f host ps ≡ absent
    → (f p).alive ≡ true
    → (f p).address ≡ host
    → find_peer f host (ps ++ p ∷ []) ≡ found p
unfolding find_peer
find_peer-append f host p [] e alive at = ground (arith, alive, at, same_host_self host)
find_peer-append f host p (q ∷ qs) e alive at = ground (arith, e, find_peer-append f host p qs)

NoneAt-append :
    (f : ℕ → PeerPart) (host : HostAddr) (p : ℕ) (ps : List ℕ)
    → NoneAt f host ps
    → same_host host (f p).address ≡ false
    → NoneAt f host (ps ++ p ∷ [])
NoneAt-append f host p [] n e = (e, tt)
NoneAt-append f host p (q ∷ qs) n e = (n.0, NoneAt-append f host p qs n.1 e)

pub DistinctHosts-append :
    (f : ℕ → PeerPart) (p : ℕ) (ps : List ℕ)
    → DistinctHosts f ps
    → find_peer f (f p).address ps ≡ absent
    → DistinctHosts f (ps ++ p ∷ [])
unfolding find_peer
DistinctHosts-append f p [] distinct e = (tt, tt)
DistinctHosts-append f p (q ∷ qs) distinct e = (
  NoneAt-append f (f q).address p qs distinct.0 (ground (arith, e)),
  DistinctHosts-append f p qs distinct.1 (ground (arith, e)),
)

module _ (f g : ℕ → PeerPart) where
  NoneAt-same :
      (host : HostAddr) (ps : List ℕ)
      → ((q : ℕ) → mem q ps ≡ true → (g q).address ≡ (f q).address)
      → NoneAt f host ps
      → NoneAt g host ps
  NoneAt-same host [] same n = tt
  NoneAt-same host (p ∷ ps) same n = (
    ap (same_host host) (same p (ground arith)) ∙ n.0,
    NoneAt-same host ps (λ q m. same q (ground (arith, m))) n.1,
  )

  pub DistinctHosts-same :
      (ps : List ℕ)
      → ((q : ℕ) → mem q ps ≡ true → (g q).address ≡ (f q).address)
      → DistinctHosts f ps
      → DistinctHosts g ps
  DistinctHosts-same [] same distinct = tt
  DistinctHosts-same (p ∷ ps) same distinct = (
    subst (λ a. NoneAt g a ps) (sym (same p (ground arith)))
        (NoneAt-same (f p).address ps (λ q m. same q (ground (arith, m))) distinct.0),
    DistinctHosts-same ps (λ q m. same q (ground (arith, m))) distinct.1,
  )

module _ {S : Type 0} where
  SameTable-trans :
      (d : ℕ) (u v w : UdpWorld S) → SameTable d u v → SameTable d v w → SameTable d u w
  SameTable-trans d u v w s t = (t.0 ∙ s.0, λ q. ((t.1 q).0 ∙ (s.1 q).0, (t.1 q).1 ∙ (s.1 q).1))

  if-SameTable :
      (d : ℕ) (b : Bool) (u v : UdpWorld S) → SameTable d u v → SameTable d u (if b then v else u)
  if-SameTable d true u v s = s
  if-SameTable d false u v s = (refl, λ q. (refl, refl))

  module _ (h : UdpHandlers S) (d : ℕ) (k : KeepTable d h) where
    pub notify-SameTable :
        (e : ℕ) (m : NetworkMessage) (u : UdpWorld S) → SameTable d u (notify h e m u)
    unfolding notify
    notify-SameTable e m u =
        let b = (u.net.world.net e).has_network_callback in
        let told = if b then h.message e m u else u in
        SameTable-trans d u told (notify h e m u)
          (if-SameTable d b u (h.message e m u) (k.message e m u))
          (if-SameTable d (told.net.world.io e).has_callback told (h.data_arrived e m.bytes told)
            (k.data_arrived e m.bytes told))

    pub notify_new_data-SameTable :
        (q : ℕ) (m : NetworkMessage) (u : UdpWorld S) → SameTable d u (notify_new_data h q m u)
    unfolding notify_new_data
    notify_new_data-SameTable q m u =
        if-SameTable d (u.peers q).has_message_handler u (h.new_data q m u) (k.new_data q m u)

    -- A new peer stands behind those that there were, which are as they were.
    pub record Added (p : ℕ) (host : HostAddr) (u u' : UdpWorld S) : Type 0 where
      pub list : (u'.servers d).peers ≡ (u.servers d).peers ++ p ∷ []
      pub others :
          (q : ℕ)
          → mem q (u.servers d).peers ≡ true
          → ((u'.peers q).alive ≡ (u.peers q).alive) × ((u'.peers q).address ≡ (u.peers q).address)
      pub exists : (u'.peers p).alive ≡ true
      pub address : (u'.peers p).address ≡ host

    other_than : (p q : ℕ) (ps : List ℕ) → mem q ps ≡ true → mem p ps ≡ false → (p == q) ≡ false
    other_than p q [] m n = cc
    other_than p q (x ∷ xs) m n = ground (arith, other_than p q xs)

    pub new_peer-Added :
        (p : ℕ) (m : NetworkMessage) (u : UdpWorld S)
        → mem p (u.servers d).peers ≡ false
        → Added p m.peer u
            (keep_peer h d p (h.new_peer d m p (make_peer h d p m.peer (heard_from h d m.peer u))))
    new_peer-Added p m u fresh =
        let made = make_peer h d p m.peer (heard_from h d m.peer u) in
        let s = k.new_peer d m p made in
        record {
          list = ground (arith, s.0);
          others = λ q m. ground (arith, s.1 q, other_than p q (u.servers d).peers m fresh);
          exists = ground (arith, s.1 p);
          address = ground (arith, s.1 p);
        }
