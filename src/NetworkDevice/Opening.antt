-- ===== src/NetworkDevice/Opening.antt =====
-- Opening a socket ends, and which handles are open afterwards.
use transport_cpp.Prelude.{
  ℕ, zero, suc, ◌<◌, ◌≡◌, refl, ◌==◌, if◌then◌else◌, Bool, false, Option, none, some, List, [], ◌∷◌,
  length, String, ap, subst, ◌∙◌, inl, inr, arith, Bool-cases,
}
use transport_cpp.Types.{ReturnCode, Bytes, HostAddr, IpVersion}
use transport_cpp.Os.{Os, Outcome, value, failed}
use transport_cpp.Os.OpenFiles.{Files, with_handle, without_handle, without_handle-with_handle}
use transport_cpp.World.{World, Device}
use transport_cpp.IoDevice.Opening.{Opened, Same, register_new_handle-opens}
use transport_cpp.Sockets.{NetOs, Address, AddrInfo, Hints, next, load_hints, hints_of}
use transport_cpp.NetworkDevice.Open.{
  Attempt, over, again, connected, connect_socket, try_connect, reused, sock_to_reuse, bind_reused,
  bind_socket, try_bind, address_loop, resolved, create_and_connect_socket, create_and_bind_socket,
}

-- `socket` opens a handle that was not open, and the other calls open and close none.
pub record SocketFiles {S : Type 0} (net : NetOs S) (is_open : S → ℕ → Bool) : Type 0 where
  pub opens :
      (a : Address) (s s' : S) (fd : ℕ)
      → net.socket a s ≡ (value fd, s')
      → (is_open s fd ≡ false) × (is_open s' ≡ with_handle fd (is_open s))
  pub socket_fails :
      (a : Address) (s s' : S) (errno : ℕ)
      → net.socket a s ≡ (failed errno, s')
      → is_open s' ≡ is_open s
  pub connect_keeps : (fd : ℕ) (b : Bytes) (s : S) → is_open (net.connect fd b s).1 ≡ is_open s
  pub bind_keeps : (fd : ℕ) (b : Bytes) (s : S) → is_open (net.bind fd b s).1 ≡ is_open s
  pub reuse_addr_keeps : (fd : ℕ) (s : S) → is_open (net.reuse_addr fd s).1 ≡ is_open s
  pub get_addr_info_keeps :
      (hints : Hints) (host : HostAddr) (s : S)
      → is_open (net.get_addr_info hints host s).1 ≡ is_open s

-- What the loop ends with, or goes on from.
abbrev Tried : {S : Type 0} → (S → ℕ → Bool) → ℕ → Device → (ℕ → Bool) → Attempt S → Type 0
Tried is_open d was before (over r) = Opened is_open d was before r
Tried is_open d was before (again w) = (is_open w.sys ≡ before) × Same d was w

-- Where the cursor stands: what `next` returned, and the addresses from there on.
abbrev At : List Address → Option Address × AddrInfo → Type 0
At [] (o, i) = o ≡ none
At (a ∷ rest) (o, i) = (o ≡ some a) × (i.current ≡ a ∷ rest)

-- A run ends, and as `Opened` says.
abbrev pub Ends :
    {S : Type 0} → (S → ℕ → Bool) → ℕ → Device → (ℕ → Bool) → Option (ReturnCode × World S) → Type 0
Ends is_open d was before o = (r : _) × (o ≡ some r) × Opened is_open d was before r

module _ {S : Type 0} (os : Os S) (net : NetOs S) (is_open : S → ℕ → Bool) (k : Files os is_open)
    (t : SocketFiles net is_open) where
  closed_again :
      (fd : ℕ) (before : ℕ → Bool) (s : S)
      → before fd ≡ false
      → is_open s ≡ with_handle fd before
      → is_open (os.close fd s) ≡ before
  closed_again fd before s free e =
      k.closes fd s ∙ ap (without_handle fd) e ∙ without_handle-with_handle fd before free

  connected-Tried :
      (d fd : ℕ) (was : Device) (before : ℕ → Bool) (r : Outcome (Unit {0}) × S) (w : World S)
      → Same d was w
      → before fd ≡ false
      → is_open r.1 ≡ with_handle fd before
      → Tried is_open d was before (connected os net d fd r w)
  connected-Tried d fd was before (failed errno, s) w same free e =
      (closed_again fd before s free e, same)
  connected-Tried d fd was before (value u, s) w same free e =
      let done = register_new_handle-opens os is_open k d fd (record w { sys = s }) in
      (inr (refl, (fd, done.0, free, done.1 ∙ e)), done.2 ∙ same.1)

  connect_socket-Tried :
      (d : ℕ) (was : Device) (a : Address) (s0 : S) (r : Outcome ℕ × S) (w : World S)
      → Same d was w
      → net.socket a s0 ≡ r
      → Tried is_open d was (is_open s0) (connect_socket os net d a r w)
  connect_socket-Tried d was a s0 (failed errno, s) w same h =
      (inl (refl, ground (arith, same), t.socket_fails a s0 s errno h), ground (arith, same))
  connect_socket-Tried d was a s0 (value fd, s) w same h =
      let new = t.opens a s0 s fd h in
      connected-Tried d fd was (is_open s0) _ w same new.0 (t.connect_keeps fd a.addr s ∙ new.1)

  bind_reused-Tried :
      (d fd : ℕ) (was : Device) (a : Address) (before : ℕ → Bool) (r : Outcome (Unit {0}) × S)
      (w : World S)
      → Same d was w
      → before fd ≡ false
      → is_open r.1 ≡ with_handle fd before
      → Tried is_open d was before (bind_reused os net d a fd (reused os net d r w))
  bind_reused-Tried d fd was a before (failed errno, s) w same free e =
      (inl (refl, ground (arith, same), closed_again fd before s free e), ground (arith, same))
  bind_reused-Tried d fd was a before (value u, s) w same free e =
      connected-Tried d fd was before _ _ same free (t.bind_keeps fd a.addr s ∙ e)

  bind_socket-Tried :
      (d : ℕ) (was : Device) (a : Address) (s0 : S) (r : Outcome ℕ × S) (w : World S)
      → Same d was w
      → net.socket a s0 ≡ r
      → Tried is_open d was (is_open s0) (bind_socket os net d a r w)
  unfolding sock_to_reuse
  bind_socket-Tried d was a s0 (failed errno, s) w same h =
      (inl (refl, ground (arith, same), t.socket_fails a s0 s errno h), ground (arith, same))
  bind_socket-Tried d was a s0 (value fd, s) w same h =
      let new = t.opens a s0 s fd h in
      bind_reused-Tried d fd was a (is_open s0) _ _ same new.0 (t.reuse_addr_keeps fd s ∙ new.1)

  next-At :
      (a : Address) (rest : List Address) (i : AddrInfo) → i.current ≡ a ∷ rest → At rest (next i)
  unfolding next
  next-At a [] i e = rw e refl
  next-At a (b ∷ rest) i e = rw e (refl, refl)

  module _ (d : ℕ) (was : Device) (try : Address → World S → Attempt S) (failure : String)
      (tries : (a : Address) (w : World S)
        → Same d was w
        → Tried is_open d was (is_open w.sys) (try a w)) where
    address_loop-Ends :
        (fuel : ℕ) (rest : List Address) (p : Option Address × AddrInfo) (w : World S)
        → length rest < fuel
        → At rest p
        → Same d was w
        → Ends is_open d was (is_open w.sys) (address_loop os net try failure fuel d p w)
    unfolding address_loop
    address_loop-Ends zero rest p w f at same = absurd (omega arith)
    address_loop-Ends (suc fuel) rest (none, i) w f at same =
        (_, refl, (inl (refl, ground (arith, same), refl), ground (arith, same)))
    address_loop-Ends (suc fuel) [] (some a, i) w f at same = cc
    address_loop-Ends (suc fuel) (b ∷ rest) (some a, i) w f at same =
        after (try a w) (tries a w same)
          (λ w' s. address_loop-Ends fuel rest (next i) w' (omega arith) (next-At b rest i at.1) s)
      where
        after :
            (t : Attempt S)
            → Tried is_open d was (is_open w.sys) t
            → ((w' : World S)
                → Same d was w'
                → Ends is_open d was
                    (is_open w'.sys)
                    (address_loop os net try failure fuel d (next i) w'))
            → Ends is_open d was (is_open w.sys) (elim t [
              | over r ↦ some r
              | again w' ↦ address_loop os net try failure fuel d (next i) w'
            ])
        after (over r) h later = (r, refl, h)
        after (again w') h later =
            subst
              (λ before.
                Ends is_open d was before (address_loop os net try failure fuel d (next i) w'))
              h.0 (later w' h.1)

    resolved-Ends :
        (fuel : ℕ) (status : ℕ) (addresses : List Address) (s : S) (w : World S)
        → length addresses < fuel
        → Same d was w
        → Ends is_open d was (is_open s) (
            resolved os net try failure fuel d
              (status, record { info = if status == 0 then addresses else []; current = [] }, s)
              w)
    unfolding next address_loop
    resolved-Ends fuel status [] s w f same = elim (Bool-cases (status == 0)) [
      | inl h ↦ rw h (_, refl, (inl (refl, ground (arith, same), refl), ground (arith, same)))
      | inr h ↦ rw h (_, refl, (inl (refl, ground (arith, same), refl), ground (arith, same)))
    ]
    resolved-Ends fuel status (a ∷ rest) s w f same = elim (Bool-cases (status == 0)) [
      | inl h ↦
          rw h (address_loop-Ends fuel (a ∷ rest) _ (record w { sys = s }) f (refl, refl) same)
      | inr h ↦ rw h (_, refl, (inl (refl, ground (arith, same), refl), ground (arith, same)))
    ]

  -- `createAndConnectSocket` ends when the fuel is more than the number of addresses. When it
  -- fails, the handles that are open are those that were open before, and the device keeps the
  -- handle that it had; when it succeeds, there is one more, and the device has it. The device's
  -- engine stays the same.
  pub create_and_connect_socket-Opened :
      (fuel d : ℕ) (host : HostAddr) (ip_hint : IpVersion) (sock_style : ℕ) (w : World S)
      → length (net.get_addr_info (hints_of ip_hint sock_style) host w.sys).0.1 < fuel
      → (r : ReturnCode × World S) × (create_and_connect_socket os net fuel d host ip_hint
            sock_style w
          ≡ some r)
        × Opened is_open d (w.devices d) (is_open w.sys) r
  unfolding create_and_connect_socket load_hints
  create_and_connect_socket-Opened fuel d host ip_hint sock_style w f =
      let hints = hints_of ip_hint sock_style in
      subst
        (λ before.
          Ends is_open d (w.devices d) before
            (create_and_connect_socket os net fuel d host ip_hint sock_style w))
        (t.get_addr_info_keeps hints host w.sys)
        (resolved-Ends d (w.devices d) (try_connect os net d) "Unable to connect socket"
          (λ a u same.
            connect_socket-Tried d (w.devices d) a u.sys (net.socket a u.sys) u same refl)
          fuel (net.get_addr_info hints host w.sys).0.0 _ _ w f (refl, refl))

  -- `createAndBindSocket` ends when the fuel is more than the number of addresses. When it
  -- fails, the handles that are open are those that were open before, and the device keeps the
  -- handle that it had; when it succeeds, there is one more, and the device has it. The device's
  -- engine stays the same.
  pub create_and_bind_socket-Opened :
      (fuel d : ℕ) (host : HostAddr) (ip_hint : IpVersion) (sock_style : ℕ) (w : World S)
      → length (net.get_addr_info (hints_of ip_hint sock_style) host w.sys).0.1 < fuel
      → (r : ReturnCode × World S) × (create_and_bind_socket os net fuel d host ip_hint sock_style w
          ≡ some r)
        × Opened is_open d (w.devices d) (is_open w.sys) r
  unfolding create_and_bind_socket load_hints
  create_and_bind_socket-Opened fuel d host ip_hint sock_style w f =
      let hints = hints_of ip_hint sock_style in
      subst
        (λ before.
          Ends is_open d (w.devices d) before
            (create_and_bind_socket os net fuel d host ip_hint sock_style w))
        (t.get_addr_info_keeps hints host w.sys)
        (resolved-Ends d (w.devices d) (try_bind os net d) "Unable to bind socket"
          (λ a u same. bind_socket-Tried d (w.devices d) a u.sys (net.socket a u.sys) u same refl)
          fuel (net.get_addr_info hints host w.sys).0.0 _ _ w f (refl, refl))
