-- ===== src/TcpServer/Binding.antt =====
-- Binding an acceptor, also one that is bound.
use transport_cpp.Prelude.{
  ℕ, ◌≡◌, ◌<◌, refl, Bool, true, false, Option, none, some, length, ◌∙◌, ap, ◌⊎◌, inl, inr, arith,
}
use transport_cpp.Types.{ReturnCode, ok, nok, passable, HostAddr, IpVersion}
use transport_cpp.Os.{Os, Outcome, value, failed}
use transport_cpp.Os.OpenFiles.{Files, with_handle, without_handle, without_handle-with_handle}
use transport_cpp.World.{World}
use transport_cpp.NetworkDevice.Open.{create_and_bind_socket}
use transport_cpp.Sockets.{NetOs, hints_of}
use transport_cpp.NetworkDevice.Opening.{SocketFiles, create_and_bind_socket-Opened}
use transport_cpp.Endpoints.{
  ConnectedHost, NetWorld, sock_stream, with_world, set_endpoint, settled, close_endpoint,
}
use transport_cpp.Endpoints.Reopening.{
  Reopened, without_optional, settled-Reopened, close_endpoint-Closed,
}
use transport_cpp.TcpServer.{
  ServerOs, disconnect, after_listen, listen, settled_listening, bind, is_bound,
}

-- `listen` opens and closes nothing.
abbrev pub ServerFiles : {S : Type 0} → ServerOs S → (S → ℕ → Bool) → Type 0
ServerFiles {S = S} server is_open = (fd : ℕ) (s : S) → is_open (server.listen fd s).1 ≡ is_open s

-- The acceptor counts as bound exactly when it has a handle. If it has one, the result is OK, the
-- handle is new and the only one opened, and the host is kept; if not, nothing is left open. The
-- engine is what it was.
abbrev pub Bound :
    {S : Type 0}
    → (S → ℕ → Bool)
    → ℕ
    → Option ℕ
    → (ℕ → Bool)
    → ConnectedHost
    → ReturnCode × NetWorld S
    → Type 0
Bound is_open d engine before host (code, v) =
    (((code ≡ ok)
        × ((v.endpoints d).active ≡ true)
        × ((v.endpoints d).host ≡ host)
        × ((fd : ℕ) × ((v.world.devices d).handle ≡ some fd)
            × (before fd ≡ false)
            × (is_open v.world.sys ≡ with_handle fd before)))
      ⊎ (((v.endpoints d).active ≡ false)
          × ((v.world.devices d).handle ≡ none)
          × (is_open v.world.sys ≡ before)))
    × ((v.world.devices d).engine ≡ engine)

module _ {S : Type 0} (os : Os S) (server : ServerOs S) (is_open : S → ℕ → Bool)
    (k : Files os is_open) (l : ServerFiles server is_open) (d e : ℕ) (before : ℕ → Bool)
    (host : ConnectedHost) where
  after_listen-Bound :
      (fd : ℕ) (r : Outcome (Unit {0}) × S) (v : NetWorld S)
      → (v.endpoints d).active ≡ true
      → (v.endpoints d).host ≡ host
      → (v.world.devices d).handle ≡ some fd
      → (v.world.devices d).engine ≡ some e
      → before fd ≡ false
      → is_open r.1 ≡ with_handle fd before
      → Bound is_open d (some e) before host (ok, after_listen os server d r v)
  unfolding after_listen disconnect
  after_listen-Bound fd (value u, s) v active kept has loaded free files =
      (inl (refl, active, kept, (fd, has, free, files)), loaded)
  after_listen-Bound fd (failed errno, s) v active kept has loaded free files =
      let v1 = with_world v (record v.world { sys = s }) in
      let c = close_endpoint-Closed os is_open k d e v1 loaded in
      (
        inr (
          c.inactive,
          c.no_handle,
          c.files
              ∙ ap (λ o. without_optional o (is_open s)) has
              ∙ ap (without_handle fd) files
              ∙ without_handle-with_handle fd before free,
        ),
        c.loaded,
      )

  listening-Bound :
      (q : ReturnCode × NetWorld S)
      → Reopened is_open d (some e) before host q
      → (r : ReturnCode × NetWorld S) × (settled_listening (listen os server d) (some q) ≡ some r)
        × Bound is_open d (some e) before host r
  unfolding listen
  listening-Bound (ok, v) (inl (f, inactive, no_handle, files), loaded) = cc
  listening-Bound (ok, v) (inr (f, active, kept, (fd, has, free, files)), loaded) = (
    (ok, after_listen os server d (server.listen fd v.world.sys) v),
    rw (has, listen) refl,
    after_listen-Bound fd (server.listen fd v.world.sys) v active kept has loaded free
        (l fd v.world.sys ∙ files),
  )
  listening-Bound (nok, v) (inl (f, inactive, no_handle, files), loaded) =
      ((nok, v), refl, (inr (inactive, no_handle, files), loaded))
  listening-Bound (nok, v) (inr (f, active, kept, opened), loaded) = cc
  listening-Bound (passable, v) (inl (f, inactive, no_handle, files), loaded) = cc
  listening-Bound (passable, v) (inr (f, active, kept, opened), loaded) = cc

module _ {S : Type 0} (os : Os S) (server : ServerOs S) (net : NetOs S) (is_open : S → ℕ → Bool)
    (k : Files os is_open) (l : ServerFiles server is_open) (t : SocketFiles net is_open) where
  -- `bind` of an acceptor with an engine ends when the fuel is more than the number of addresses. The
  -- handle that the acceptor had is closed. Then either it counts as bound, to the host that was
  -- given, `bind` returned OK, and it has one new handle, the only one opened; or it does not count
  -- as bound, has no handle, and none is left open.
  pub bind-Bound :
      (fuel d e : ℕ) (host : HostAddr) (ip_hint : IpVersion) (v : NetWorld S)
      → (v.world.devices d).engine ≡ some e
      → length
          (net.get_addr_info (hints_of ip_hint sock_stream) host (disconnect os d v).world.sys).0.1
        < fuel
      → (r : ReturnCode × NetWorld S) × (bind os server net fuel d host ip_hint v ≡ some r)
        × Bound is_open d
            (some e)
            (without_optional (v.world.devices d).handle (is_open v.world.sys))
            (record { addr = host; ip_hint = ip_hint })
            r
  unfolding bind disconnect
  bind-Bound fuel d e host ip_hint v loaded f =
      let (q, settles, reopened) =
        settled-Reopened is_open d (some e) _ _ _ _
          (close_endpoint-Closed os is_open k d e v loaded)
          (create_and_bind_socket-Opened os net is_open k t fuel d host ip_hint sock_stream _ f) in
      let (r, listens, bound) = listening-Bound os server is_open k l d e _ _ q reopened in
      (r, ap (settled_listening (listen os server d)) settles ∙ listens, bound)

  -- When `listen` fails on the handle that was opened, `bind` of an acceptor with an engine returns OK
  -- all the same, and the acceptor does not count as bound.
  pub bind_without_listening :
      (fuel d e fd errno : ℕ) (host : HostAddr) (ip_hint : IpVersion) (v : NetWorld S) (w : World S)
      (s : S)
      → create_and_bind_socket os net fuel d host ip_hint sock_stream (disconnect os d v).world
        ≡ some (ok, w)
      → (w.devices d).engine ≡ some e
      → (w.devices d).handle ≡ some fd
      → server.listen fd w.sys ≡ (failed errno, s)
      → (u : NetWorld S) × (bind os server net fuel d host ip_hint v ≡ some (ok, u))
        × (is_bound d u ≡ false)
  unfolding bind listen after_listen close_endpoint disconnect
  bind_without_listening fuel d e fd errno host ip_hint v w s opens loaded has fails =
      let to : ConnectedHost = record { addr = host; ip_hint = ip_hint } in
      let w1 : World S = record w { sys = s } in
      let opened =
        set_endpoint d (record ((disconnect os d v).endpoints d) { active = true; host = to })
          (with_world (disconnect os d v) w) in
      (
        disconnect os d (with_world opened w1),
        ap (λ o. settled_listening (listen os server d) (settled d to (disconnect os d v) o)) opens
            ∙ ground (arith, has, fails),
        (close_endpoint-Closed os is_open k d e (with_world opened w1) loaded).inactive,
      )
