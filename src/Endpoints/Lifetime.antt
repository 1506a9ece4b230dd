-- ===== src/Endpoints/Lifetime.antt =====
-- What holds of an endpoint that has an engine from the time it is made: its flag says whether it has a
-- handle, and of the open handles it accounts for that one.
use transport_cpp.Prelude.{
  ℕ, ◌≡◌, refl, Bool, true, false, not, Option, none, some, ◌∙◌, ap, arith, inl, inr,
}
use transport_cpp.Types.{ReturnCode}
use transport_cpp.Os.{Os}
use transport_cpp.Devices.{request_read}
use transport_cpp.IoDevice.Stable.{Stable}
use transport_cpp.Os.OpenFiles.{
  Files, Transfers, with_handle, without_handle, without_handle-with_handle,
}
use transport_cpp.World.{World}
use transport_cpp.Endpoints.{ConnectedHost, NetWorld, with_world, close_endpoint}
use transport_cpp.Endpoints.Reopening.{Closed, Reopened, without_optional, close_endpoint-Closed}

-- The flag and the open handles, by the handle of the endpoint; `base` are the other open handles.
abbrev pub Accounts : (ℕ → Bool) → Option ℕ → Bool → (ℕ → Bool) → Type 0
Accounts base none active now = (active ≡ false) × (now ≡ base)
Accounts base (some h) active now = (active ≡ true) × (base h ≡ false) × (now ≡ with_handle h base)

pub record Holds {S : Type 0} (is_open : S → ℕ → Bool) (base : ℕ → Bool) (d e : ℕ) (v : NetWorld S)
    : Type 0 where
  pub engine : (v.world.devices d).engine ≡ some e
  pub accounts :
      Accounts base (v.world.devices d).handle (v.endpoints d).active (is_open v.world.sys)

abbrev pub with_optional : Option ℕ → (ℕ → Bool) → ℕ → Bool
with_optional none f = f
with_optional (some h) f = with_handle h f

abbrev pub leaves_out : Option ℕ → (ℕ → Bool) → Bool
leaves_out none f = true
leaves_out (some h) f = not (f h)

-- What the rest of the program does: it may open and close other handles, and `base` are those that
-- are open then.
pub record Elsewhere {S : Type 0} (is_open : S → ℕ → Bool) (base : ℕ → Bool) (d : ℕ)
    (v u : NetWorld S) : Type 0 where
  pub handle : (u.world.devices d).handle ≡ (v.world.devices d).handle
  pub engine : (u.world.devices d).engine ≡ (v.world.devices d).engine
  pub flag : (u.endpoints d).active ≡ (v.endpoints d).active
  pub files : is_open u.world.sys ≡ with_optional (v.world.devices d).handle base
  pub outside : leaves_out (v.world.devices d).handle base ≡ true

without_own :
    (base now : ℕ → Bool) (handle : Option ℕ) (active : Bool)
    → Accounts base handle active now
    → without_optional handle now ≡ base
without_own base now none active (flag, files) = files
without_own base now (some h) active (flag, free, files) =
    ap (without_handle h) files ∙ without_handle-with_handle h base free

module _ (base : ℕ → Bool) where
  others :
      (handle : Option ℕ) (active : Bool) (now base' : ℕ → Bool)
      → leaves_out handle base' ≡ true
      → Accounts base handle active now
      → Accounts base' handle active (with_optional handle base')
  others none active now base' out (flag, files) = (flag, refl)
  others (some h) active now base' out (flag, free, files) = (flag, ground (arith, out), refl)

module _ {S : Type 0} (is_open : S → ℕ → Bool) (base : ℕ → Bool) (d e : ℕ) where
  same_Holds :
      (v : NetWorld S) (w u : World S)
      → (u.devices d).handle ≡ (w.devices d).handle
      → (u.devices d).engine ≡ (w.devices d).engine
      → is_open u.sys ≡ is_open w.sys
      → Holds is_open base d e (with_world v w)
      → Holds is_open base d e (with_world v u)
  same_Holds v w u handle engine files holds = record {
    engine = engine ∙ holds.engine;
    accounts = rw (handle, files) holds.accounts;
  }

  -- Reading and writing keep it.
  pub Holds-Stable :
      (os : Os S)
      → Transfers os is_open
      → (v : NetWorld S) → Stable os d (λ u. Holds is_open base d e (with_world v u))
  unfolding request_read
  Holds-Stable os k v = record {
    polls = λ ps ms w holds. same_Holds v w _ refl refl (k.poll_keeps ps ms w.sys) holds;
    reads = λ h n w holds. same_Holds v w _ refl refl (k.read_keeps h n w.sys) holds;
    writes = λ h b w holds. same_Holds v w _ refl refl (k.write_keeps h b w.sys) holds;
    faults = λ w holds. same_Holds v w _ refl refl refl holds;
    errs = λ code text w holds. same_Holds v w _ (ground arith) (ground arith) refl holds;
    requests = λ w holds. rw holds.engine (same_Holds v w _ refl refl refl holds);
  }

  Closed-Holds : (v : NetWorld S) → Closed is_open d (some e) base v → Holds is_open base d e v
  Closed-Holds v c = record { engine = c.loaded; accounts = rw c.no_handle (c.inactive, c.files) }

  pub close_endpoint-Holds :
      (os : Os S) (k : Files os is_open) (v : NetWorld S)
      → Holds is_open base d e v
      → Holds is_open base d e (close_endpoint os d v)
  close_endpoint-Holds os k v holds = Closed-Holds (close_endpoint os d v) (
      rw
        (← without_own base (is_open v.world.sys) (v.world.devices d).handle (v.endpoints d).active
          holds.accounts)
        (close_endpoint-Closed os is_open k d e v holds.engine))

  account_after :
      (before : ℕ → Bool) (host : ConnectedHost) (r : ReturnCode × NetWorld S)
      → before ≡ base
      → Reopened is_open d (some e) before host r
      → Holds is_open base d e r.1
  account_after before host (code, u) same (inl (failed, flag, closed, files), loaded) = record {
    engine = loaded;
    accounts = rw closed (flag, files ∙ same);
  }
  account_after before host (code, u) same
        (inr (opened, flag, kept, (fd, has, free, files)), loaded) =
      record { engine = loaded; accounts = rw has (flag, rw (← same) free, rw (← same) files) }

  pub Reopened-Holds :
      (v : NetWorld S) (host : ConnectedHost) (r : ReturnCode × NetWorld S)
      → Holds is_open base d e v
      → Reopened is_open d
          (some e)
          (without_optional (v.world.devices d).handle (is_open v.world.sys))
          host
          r
      → Holds is_open base d e r.1
  Reopened-Holds v host r holds o =
      account_after _ host r
        (without_own base (is_open v.world.sys) (v.world.devices d).handle (v.endpoints d).active
          holds.accounts)
        o

  pub Elsewhere-Holds :
      (base' : ℕ → Bool) (v u : NetWorld S)
      → Elsewhere is_open base' d v u
      → Holds is_open base d e v
      → Holds is_open base' d e u
  Elsewhere-Holds base' v u w holds = record {
    engine = w.engine ∙ holds.engine;
    accounts =
        rw (w.handle, w.flag, w.files)
          (others base (v.world.devices d).handle (v.endpoints d).active (is_open v.world.sys) base'
            w.outside holds.accounts);
  }
