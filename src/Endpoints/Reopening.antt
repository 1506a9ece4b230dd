-- ===== src/Endpoints/Reopening.antt =====
-- What closing an endpoint and opening it again leaves open.
use transport_cpp.Prelude.{
  ℕ, ◌≡◌, refl, Bool, true, false, Option, none, some, ◌∙◌, ◌⊎◌, inl, inr, arith, ap, subst,
  Option-cases,
}
use transport_cpp.Types.{ReturnCode, ok, nok, passable}
use transport_cpp.Os.{Os}
use transport_cpp.Os.OpenFiles.{Files, with_handle, without_handle}
use transport_cpp.World.{World}
use transport_cpp.Devices.{destroy_handle}
use transport_cpp.IoDevice.Opening.{Opened}
use transport_cpp.NetworkDevice.Opening.{Ends}
use transport_cpp.Endpoints.{ConnectedHost, NetWorld, close_endpoint, settled}

abbrev pub without_optional : Option ℕ → (ℕ → Bool) → ℕ → Bool
without_optional none f = f
without_optional (some h) f = without_handle h f

-- The endpoint's flag says whether it has a handle. On failure it has none; on success it has one
-- that was not open, which is the only one opened, and the host is kept. The engine is what it was.
abbrev pub Reopened :
    {S : Type 0}
    → (S → ℕ → Bool)
    → ℕ
    → Option ℕ
    → (ℕ → Bool)
    → ConnectedHost
    → ReturnCode × NetWorld S
    → Type 0
Reopened is_open d engine before host (code, v) =
    (((code ≡ nok)
        × ((v.endpoints d).active ≡ false)
        × ((v.world.devices d).handle ≡ none)
        × (is_open v.world.sys ≡ before))
      ⊎ ((code ≡ ok)
          × ((v.endpoints d).active ≡ true)
          × ((v.endpoints d).host ≡ host)
          × ((fd : ℕ) × ((v.world.devices d).handle ≡ some fd)
              × (before fd ≡ false)
              × (is_open v.world.sys ≡ with_handle fd before))))
    × ((v.world.devices d).engine ≡ engine)

-- What closing leaves: no flag and no handle, and one open handle less.
pub record Closed {S : Type 0} (is_open : S → ℕ → Bool) (d : ℕ) (engine : Option ℕ)
    (before : ℕ → Bool) (v : NetWorld S) : Type 0 where
  pub inactive : (v.endpoints d).active ≡ false
  pub no_handle : (v.world.devices d).handle ≡ none
  pub loaded : (v.world.devices d).engine ≡ engine
  pub files : is_open v.world.sys ≡ before

module _ {S : Type 0} (os : Os S) (is_open : S → ℕ → Bool) (k : Files os is_open) where
  destroyed_files :
      (d e : ℕ) (w : World S)
      → (w.devices d).engine ≡ some e
      → is_open (destroy_handle os d w).sys ≡ without_optional (w.devices d).handle (is_open w.sys)
  unfolding destroy_handle
  destroyed_files d e w loaded = elim (Option-cases (w.devices d).handle) [
    | inl n ↦ rw (loaded, n) refl
    | inr (h, has) ↦ rw (loaded, has) (k.closes h w.sys)
  ]

  pub close_endpoint-Closed :
      (d e : ℕ) (v : NetWorld S)
      → (v.world.devices d).engine ≡ some e
      → Closed is_open d
          (some e)
          (without_optional (v.world.devices d).handle (is_open v.world.sys))
          (close_endpoint os d v)
  unfolding close_endpoint destroy_handle
  close_endpoint-Closed d e v loaded = record {
    inactive = ground arith;
    no_handle = ground (arith, loaded);
    loaded = ground (arith, loaded);
    files = destroyed_files d e v.world loaded;
  }

module _ {S : Type 0} (is_open : S → ℕ → Bool) where
  endpoint-Reopened :
      (d : ℕ) (engine : Option ℕ) (before : ℕ → Bool) (host : ConnectedHost) (v : NetWorld S)
      (r : ReturnCode × World S)
      → Closed is_open d engine before v
      → Opened is_open d (v.world.devices d) before r
      → (q : ReturnCode × NetWorld S) × (settled d host v (some r) ≡ some q)
        × Reopened is_open d engine before host q
  endpoint-Reopened d engine before host v (ok, w) c (inl (f, had, same), kept) = cc
  endpoint-Reopened d engine before host v (ok, w) c (inr (f, opened), kept) =
      (_, refl, (inr (refl, ground arith, ground arith, opened), kept ∙ c.loaded))
  endpoint-Reopened d engine before host v (nok, w) c (inl (f, had, same), kept) =
      (_, refl, (inl (refl, c.inactive, had ∙ c.no_handle, same), kept ∙ c.loaded))
  endpoint-Reopened d engine before host v (nok, w) c (inr (f, opened), kept) = cc
  endpoint-Reopened d engine before host v (passable, w) c (inl (f, had, same), kept) = cc
  endpoint-Reopened d engine before host v (passable, w) c (inr (f, opened), kept) = cc

  -- An endpoint that was closed and is opened again.
  pub settled-Reopened :
      (d : ℕ) (engine : Option ℕ) (before : ℕ → Bool) (host : ConnectedHost) (v : NetWorld S)
      (o : Option (ReturnCode × World S))
      → Closed is_open d engine before v
      → Ends is_open d (v.world.devices d) (is_open v.world.sys) o
      → (q : ReturnCode × NetWorld S) × (settled d host v o ≡ some q)
        × Reopened is_open d engine before host q
  settled-Reopened d engine before host v o c (r, e, opened) =
      let (q, p, reopened) =
        endpoint-Reopened d engine before host v r c
          (subst (λ b. Opened is_open d (v.world.devices d) b r) c.files opened) in
      (q, ap (settled d host v) e ∙ p, reopened)
