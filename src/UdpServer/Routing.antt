-- ===== src/UdpServer/Routing.antt =====
-- Each address has one peer, which gets what comes from it.
use transport_cpp.Prelude.{
  ℕ, ◌≡◌, ◌++◌, refl, true, false, [], ◌∷◌, mem, arith, ◌∙◌, ap, sym, subst, inl, inr, Bool-cases,
}
use transport_cpp.Types.{HostAddr, NetworkMessage}
use transport_cpp.UdpServer.{UdpWorld}
use transport_cpp.UdpServer.Receive.{
  UdpHandlers, Found, found, dangling, absent, find_peer, notify, notify_new_data, route,
  heard_from, make_peer, keep_peer, deliver,
}
use transport_cpp.UdpServer.Table.{
  SameTable, KeepTable, DistinctHosts, find_peer-same, find_peer-append, DistinctHosts-append,
  DistinctHosts-same, notify-SameTable, notify_new_data-SameTable, Added, new_peer-Added,
}

module _ {S : Type 0} (h : UdpHandlers S) (d : ℕ) (k : KeepTable d h) where
  same-DistinctHosts :
      (u u' : UdpWorld S)
      → SameTable d u u'
      → DistinctHosts u.peers (u.servers d).peers
      → DistinctHosts u'.peers (u'.servers d).peers
  same-DistinctHosts u u' s distinct =
      subst (λ ps. DistinctHosts u'.peers ps) (sym s.0)
        (DistinctHosts-same u.peers u'.peers (u.servers d).peers (λ q m. (s.1 q).1) distinct)

  Added-DistinctHosts :
      (p : ℕ) (host : HostAddr) (u u' : UdpWorld S)
      → Added h d k p host u u'
      → find_peer u.peers host (u.servers d).peers ≡ absent
      → DistinctHosts u.peers (u.servers d).peers
      → DistinctHosts u'.peers (u'.servers d).peers
  Added-DistinctHosts p host u u' a e distinct =
      let ps = (u.servers d).peers in
      subst (λ l. DistinctHosts u'.peers l) (sym a.list)
        (DistinctHosts-append u'.peers p ps
          (DistinctHosts-same u.peers u'.peers ps (λ q m. (a.others q m).1) distinct)
          (ap (λ x. find_peer u'.peers x ps) a.address
            ∙ find_peer-same u.peers u'.peers host ps a.others
            ∙ e))

  deliver-DistinctHosts :
      (p : ℕ) (m : NetworkMessage) (o : Found) (u : UdpWorld S)
      → find_peer u.peers m.peer (u.servers d).peers ≡ o
      → mem p (u.servers d).peers ≡ false
      → DistinctHosts u.peers (u.servers d).peers
      → let u' = deliver h d p m o u in DistinctHosts u'.peers (u'.servers d).peers
  unfolding deliver
  deliver-DistinctHosts p m (found q) u e fresh distinct =
      let heard = heard_from h d m.peer u in
      same-DistinctHosts heard (notify_new_data h q m heard)
        (notify_new_data-SameTable h d k q m heard)
        (same-DistinctHosts u heard (ground arith, λ q. (refl, refl)) distinct)
  deliver-DistinctHosts p m dangling u e fresh distinct = distinct
  deliver-DistinctHosts p m absent u e fresh distinct =
      elim (Bool-cases (u.net.endpoints d).has_new_peer_handler) [
        | inl set ↦
            rw set (Added-DistinctHosts p m.peer u _ (new_peer-Added h d k p m u fresh) e distinct)
        | inr unset ↦ rw unset (
            same-DistinctHosts u (heard_from h d m.peer u) (ground arith, λ q. (refl, refl))
              distinct)
      ]

  -- Routing keeps that no two peers of the server have the same address, whatever arrived, if
  -- the new peer's memory is not that of a peer that the server knows, and the user's handlers
  -- neither destroy peers nor make the server receive.
  pub route-DistinctHosts :
      (p : ℕ) (m : NetworkMessage) (u : UdpWorld S)
      → mem p (u.servers d).peers ≡ false
      → DistinctHosts u.peers (u.servers d).peers
      → let u' = route h d p m u in DistinctHosts u'.peers (u'.servers d).peers
  unfolding route
  route-DistinctHosts p m u fresh distinct =
      let told = notify h d m u in
      let s = notify-SameTable h d k d m u in
      deliver-DistinctHosts p m (find_peer told.peers m.peer (told.servers d).peers) told refl
        (ap (mem p) s.0 ∙ fresh) (same-DistinctHosts u told s distinct)

  pub find_peer-SameTable :
      (host : HostAddr) (u u' : UdpWorld S)
      → SameTable d u u'
      → find_peer u'.peers host (u'.servers d).peers ≡ find_peer u.peers host (u.servers d).peers
  find_peer-SameTable host u u' s =
      ap (find_peer u'.peers host) s.0
      ∙ find_peer-same u.peers u'.peers host (u.servers d).peers (λ q m. s.1 q)

  find_peer-Added :
      (p : ℕ) (host : HostAddr) (u u' : UdpWorld S)
      → Added h d k p host u u'
      → find_peer u.peers host (u.servers d).peers ≡ absent
      → find_peer u'.peers host (u'.servers d).peers ≡ found p
  find_peer-Added p host u u' a e =
      ap (find_peer u'.peers host) a.list
      ∙ find_peer-append u'.peers host p (u.servers d).peers
          (find_peer-same u.peers u'.peers host (u.servers d).peers a.others ∙ e) a.exists a.address

  pub route-absent :
      (p : ℕ) (m : NetworkMessage) (u : UdpWorld S)
      → let told = notify h d m u in
        find_peer told.peers m.peer (told.servers d).peers ≡ absent
        → (told.net.endpoints d).has_new_peer_handler ≡ true
        → route h d p m u
          ≡ keep_peer h d p (h.new_peer d m p (make_peer h d p m.peer (heard_from h d m.peer told)))
  unfolding route deliver
  route-absent p m u e set =
      ap (λ o. deliver h d p m o (notify h d m u)) e ∙ delivered (notify h d m u) set
    where
      delivered :
          (v : UdpWorld S)
          → (v.net.endpoints d).has_new_peer_handler ≡ true
          → deliver h d p m absent v
            ≡ keep_peer h d p (h.new_peer d m p (make_peer h d p m.peer (heard_from h d m.peer v)))
      delivered v set = rw set refl

  pub route-found :
      (p q : ℕ) (m : NetworkMessage) (u : UdpWorld S)
      → let told = notify h d m u in
        find_peer told.peers m.peer (told.servers d).peers ≡ found q
        → route h d p m u ≡ notify_new_data h q m (heard_from h d m.peer told)
  unfolding route deliver
  route-found p q m u e = ap (λ o. deliver h d p m o (notify h d m u)) e

  -- What a first datagram from an address leaves, when the peers of the server exist, none of them has
  -- the address, there is a handler for new peers, the new peer's memory is not that of a peer that the
  -- server knows, and the user's handlers neither destroy peers nor make the server receive: one peer
  -- more, at the end of the list. Whatever comes from the same address next goes to that peer, and
  -- makes no other.
  pub route_twice :
      (p p' : ℕ) (m m' : NetworkMessage) (u : UdpWorld S)
      → mem p (u.servers d).peers ≡ false
      → find_peer u.peers m.peer (u.servers d).peers ≡ absent
      → ((notify h d m u).net.endpoints d).has_new_peer_handler ≡ true
      → m'.peer ≡ m.peer
      → let u1 = route h d p m u in
        ((u1.servers d).peers ≡ (u.servers d).peers ++ p ∷ [])
        × (route h d p' m' u1 ≡ notify_new_data h p m' (heard_from h d m'.peer (notify h d m' u1)))
  route_twice p p' m m' u fresh e set same =
      let told = notify h d m u in
      let u1 = route h d p m u in
      let s = notify-SameTable h d k d m u in
      let still = find_peer-SameTable m.peer u told s ∙ e in
      let added : Added h d k p m.peer told u1 =
        subst (λ x. Added h d k p m.peer told x) (sym (route-absent p m u still set))
          (new_peer-Added h d k p m told (ap (mem p) s.0 ∙ fresh)) in
      (
        added.list ∙ ap (λ l. l ++ p ∷ []) s.0,
        route-found p' p m' u1 (
            find_peer-SameTable m'.peer u1 (notify h d m' u1) (notify-SameTable h d k d m' u1)
            ∙ ap (λ x. find_peer u1.peers x (u1.servers d).peers) same
            ∙ find_peer-Added p m.peer told u1 added still),
      )
