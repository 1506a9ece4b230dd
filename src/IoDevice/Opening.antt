-- ===== src/IoDevice/Opening.antt =====
-- Registering a handle with a device, and which handles are open when a device is opened.
use transport_cpp.Prelude.{ℕ, ◌≡◌, refl, Bool, false, some, ◌∙◌, Option-cases, ◌⊎◌, inl, inr, arith}
use transport_cpp.Types.{ReturnCode, ok, nok}
use transport_cpp.Os.{Os, Outcome, value, failed}
use transport_cpp.Os.OpenFiles.{Files, with_handle}
use transport_cpp.World.{World, Device}
use transport_cpp.IoDevice.{register_new_handle, add_nonblock}
use transport_cpp.Devices

-- How opening ends: with an error, no handle more than before and the device's handle as it was, or
-- with one handle more, that of the device. The device's engine stays what it was.
abbrev pub Opened :
    {S : Type 0} → (S → ℕ → Bool) → ℕ → Device → (ℕ → Bool) → ReturnCode × World S → Type 0
Opened is_open d was before (code, w) =
    (((code ≡ nok) × ((w.devices d).handle ≡ was.handle) × (is_open w.sys ≡ before))
      ⊎ ((code ≡ ok)
          × ((fd : ℕ) × ((w.devices d).handle ≡ some fd)
              × (before fd ≡ false)
              × (is_open w.sys ≡ with_handle fd before))))
    × ((w.devices d).engine ≡ was.engine)

-- The device's handle and engine are what they were.
abbrev pub Same : {S : Type 0} → ℕ → Device → World S → Type 0
Same d was w = ((w.devices d).handle ≡ was.handle) × ((w.devices d).engine ≡ was.engine)

module _ {S : Type 0} (os : Os S) (is_open : S → ℕ → Bool) (k : Files os is_open) where
  add_nonblock-opens :
      (d h : ℕ) (r : Outcome ℕ × S) (w : World S)
      → (((add_nonblock os h r w).devices d).handle ≡ (w.devices d).handle)
        × (is_open (add_nonblock os h r w).sys ≡ is_open r.1)
        × (((add_nonblock os h r w).devices d).engine ≡ (w.devices d).engine)
  add_nonblock-opens d h (failed errno, s) w = (refl, refl, refl)
  add_nonblock-opens d h (value flags, s) w = (refl, k.set_flags_keeps h _ s, refl)

  -- A registered handle is the device's, and registering opens and closes nothing
  -- and leaves the device its engine.
  pub register_new_handle-opens :
      (d fd : ℕ) (w : World S)
      → (((register_new_handle os d (some fd) w).devices d).handle ≡ some fd)
        × (is_open (register_new_handle os d (some fd) w).sys ≡ is_open w.sys)
        × (((register_new_handle os d (some fd) w).devices d).engine ≡ (w.devices d).engine)
  unfolding register_new_handle Devices.register_new_handle
  register_new_handle-opens d fd w =
      let w1 = Devices.register_new_handle d (some fd) w in
      let set = add_nonblock-opens d fd (os.get_flags fd w1.sys) w1 in
      (set.0 ∙ handle, set.1 ∙ k.get_flags_keeps fd w1.sys ∙ same, set.2 ∙ engine)
    where
      handle : ((Devices.register_new_handle d (some fd) w).devices d).handle ≡ some fd
      handle = ground arith

      same : is_open (Devices.register_new_handle d (some fd) w).sys ≡ is_open w.sys
      same = elim (Option-cases (w.devices d).engine) [ inl n ↦ rw n refl | inr (e, h) ↦ rw h refl ]

      engine : ((Devices.register_new_handle d (some fd) w).devices d).engine ≡ (w.devices d).engine
      engine = ground arith
