-- ===== src/UdpServer/Lifetime.antt =====
-- What becomes of a server's peers when one of them or the server's socket goes.
use transport_cpp.Prelude.{ℕ, ◌≡◌, refl, true, false, none, List, [], ◌∷◌, mem, arith, ◌∙◌, ap}
use transport_cpp.Types.{nok, IoDataChoice, ErrorCode, internal}
use transport_cpp.Os.{Os}
use transport_cpp.Endpoints.{close_endpoint}
use transport_cpp.UdpServer.{
  PeerPart, UdpWorld, invalidate, invalidate_all, disconnect, destroy_peer, with_net,
}
use transport_cpp.UdpServer.Peer.{async_send, is_valid, send_to}

-- The peers of the list exist.
abbrev pub AllAlive : (ℕ → PeerPart) → List ℕ → Type 0
AllAlive peers [] = Unit {0}
AllAlive peers (p ∷ ps) = ((peers p).alive ≡ true) × AllAlive peers ps

module _ {S : Type 0} where
  -- A peer that does not exist any more is met.
  invalidate_all_dead :
      (p : ℕ) (ps : List ℕ) (u : UdpWorld S)
      → mem p ps ≡ true
      → (u.peers p).alive ≡ false
      → (invalidate_all ps u).net.world.fault ≡ true
  unfolding invalidate_all invalidate
  invalidate_all_dead p [] u m dead = cc
  invalidate_all_dead p (q ∷ qs) u m dead =
      ground (arith, m, dead, invalidate_all_dead p qs (invalidate q u))

  servers-destroy_peer :
      (os : Os S) (p : ℕ) (u : UdpWorld S) → (destroy_peer os p u).servers ≡ u.servers
  unfolding destroy_peer invalidate
  servers-destroy_peer os p u = ground arith

  alive-destroy_peer :
      (os : Os S) (p : ℕ) (u : UdpWorld S) → ((destroy_peer os p u).peers p).alive ≡ false
  unfolding destroy_peer
  alive-destroy_peer os p u = ground arith

  -- Destroying a peer that a server knows leaves the server its pointer, so that the server's
  -- `disconnect` reads the peer that is gone.
  pub disconnect_after_destroy :
      (os : Os S) (d p : ℕ) (u : UdpWorld S)
      → mem p (u.servers d).peers ≡ true
      → (((destroy_peer os p u).servers d).peers ≡ (u.servers d).peers)
        × ((disconnect os d (destroy_peer os p u)).net.world.fault ≡ true)
  unfolding disconnect
  disconnect_after_destroy os d p u m =
      let dead = destroy_peer os p u in
      let same = ap (λ f. (f d).peers) (servers-destroy_peer os p u) in
      (
        same,
        invalidate_all_dead p (dead.servers d).peers (with_net dead (close_endpoint os d dead.net))
            (ap (mem p) same ∙ m) (alive-destroy_peer os p u),
      )

  invalidate-AllAlive :
      (p : ℕ) (ps : List ℕ) (u : UdpWorld S)
      → AllAlive u.peers ps
      → AllAlive (invalidate p u).peers ps
  unfolding invalidate
  invalidate-AllAlive p [] u a = tt
  invalidate-AllAlive p (q ∷ qs) u a = (ground (arith, a.0), invalidate-AllAlive p qs u a.1)

  -- A peer that is not valid stays so.
  invalidate_all_stays :
      (p : ℕ) (ps : List ℕ) (u : UdpWorld S)
      → (u.peers p).valid ≡ false
      → (u.peers p).server ≡ none
      → (((invalidate_all ps u).peers p).valid ≡ false)
        × (((invalidate_all ps u).peers p).server ≡ none)
  unfolding invalidate_all invalidate
  invalidate_all_stays p [] u i s = (i, s)
  invalidate_all_stays p (q ∷ qs) u i s =
      ground (arith, i, s, invalidate_all_stays p qs (invalidate q u))

  invalidated :
      (p : ℕ) (ps : List ℕ) (u : UdpWorld S)
      → AllAlive u.peers ps
      → mem p ps ≡ true
      → (((invalidate_all ps u).peers p).valid ≡ false)
        × (((invalidate_all ps u).peers p).server ≡ none)
  unfolding invalidate_all invalidate
  invalidated p [] u a m = cc
  invalidated p (q ∷ qs) u a m = ground (
    arith,
    a.0,
    m,
    invalidate_all_stays p qs (invalidate q u),
    invalidated p qs (invalidate q u) (invalidate-AllAlive q qs u a.1),
  )

  servers-invalidate_all :
      (ps : List ℕ) (u : UdpWorld S) → (invalidate_all ps u).servers ≡ u.servers
  unfolding invalidate_all invalidate
  servers-invalidate_all [] u = refl
  servers-invalidate_all (q ∷ qs) u = ground (arith, servers-invalidate_all qs (invalidate q u))

  -- A peer without a server refuses to send.
  refused :
      (p : ℕ) (message : IoDataChoice) (u : UdpWorld S)
      → (u.peers p).server ≡ none
      → ((async_send p message u).0 ≡ nok)
        × (((async_send p message u).1.net.world.devices p).last_error.code
            ≡ internal ErrorCode.device_not_ready)
  unfolding async_send send_to
  refused p message u none_left = (rw (none_left, send_to) refl, ground (arith, none_left))

  -- `disconnect` of a server whose peers exist makes all its peers invalid and cuts them off, but
  -- keeps them in its list: what is sent through one of them is refused.
  pub disconnect-invalidates :
      (os : Os S) (d p : ℕ) (message : IoDataChoice) (u : UdpWorld S)
      → AllAlive u.peers (u.servers d).peers
      → mem p (u.servers d).peers ≡ true
      → let u' = disconnect os d u in
        (is_valid p u' ≡ false)
        × ((u'.servers d).peers ≡ (u.servers d).peers)
        × ((async_send p message u').0 ≡ nok)
        × (((async_send p message u').1.net.world.devices p).last_error.code
            ≡ internal ErrorCode.device_not_ready)
  unfolding disconnect is_valid
  disconnect-invalidates os d p message u a m =
      let closed = with_net u (close_endpoint os d u.net) in
      let i = invalidated p (u.servers d).peers closed a m in
      (
        i.0,
        ap (λ f. (f d).peers) (servers-invalidate_all (u.servers d).peers closed),
        (refused p message (disconnect os d u) i.1).0,
        (refused p message (disconnect os d u) i.1).1,
      )
