-- ===== src/Serial/Opening.antt =====
-- Opening a serial port: which handles are open afterwards.
use transport_cpp.Prelude.{
  ℕ, zero, suc, ◌<◌, ==_iff, ◌≡◌, refl, ◌==◌, Bool, true, false, none, some, ◌∙◌, ap, sym, String,
  Bool-cases, inl, inr, arith,
}
use transport_cpp.Os.{Os, Outcome, value, failed}
use transport_cpp.Os.OpenFiles.{
  Files, with_handle, without_handle, without_handle_absent, without_handle-with_handle,
}
use transport_cpp.World.{World, Device}
use transport_cpp.IoDevice.Opening.{Opened, Same, register_new_handle-opens}
use transport_cpp.Tty.{Settings, SerialDevice, Termios, Flags, num_to_baud, parenb, set_bits}
use transport_cpp.Serial.{
  TtyOs, SerialWorld, open_device, disconnect, is_connected, get_port_settings, port_settings,
  opened_settings, any_bit, after_open, after_get, after_set,
}

-- `open` opens a handle that was not open, and the other calls open and close none.
pub record TtyFiles {S : Type 0} (tty : TtyOs S) (is_open : S → ℕ → Bool) : Type 0 where
  pub opens :
      (path : String) (s s' : S) (fd : ℕ)
      → tty.open_file path s ≡ (value fd, s')
      → (is_open s fd ≡ false) × (is_open s' ≡ with_handle fd (is_open s))
  pub open_fails :
      (path : String) (s s' : S) (errno : ℕ)
      → tty.open_file path s ≡ (failed errno, s')
      → is_open s' ≡ is_open s
  pub get_attr_keeps : (fd : ℕ) (s : S) → is_open (tty.get_attr fd s).1 ≡ is_open s
  pub set_attr_keeps :
      (fd : ℕ) (mode : Termios) (s : S) → is_open (tty.set_attr fd mode s).1 ≡ is_open s

module _ {S : Type 0} (os : Os S) (tty : TtyOs S) (is_open : S → ℕ → Bool) (k : Files os is_open)
    (t : TtyFiles tty is_open) where
  -- The mode of an opened handle is set.
  after_set-Opened :
      (d fd : ℕ) (was : Device) (before : ℕ → Bool) (r : Outcome ℕ × S) (w : World S)
      → Same d was w
      → before fd ≡ false
      → is_open r.1 ≡ with_handle fd before
      → Opened is_open d was before (after_set os d fd r w)
  after_set-Opened d fd was before (failed errno, s) w same free e = (
    inl (
      refl,
      ground (arith, same),
      k.closes fd s ∙ ap (without_handle fd) e ∙ without_handle-with_handle fd before free,
    ),
    ground (arith, same),
  )
  after_set-Opened d fd was before (value n, s) w same free e =
      let done = register_new_handle-opens os is_open k d fd (record w { sys = s }) in
      (inr (refl, (fd, done.0, free, done.1 ∙ e)), done.2 ∙ same.1)

  after_get-Opened :
      (d speed : ℕ) (settings : Settings) (fd : ℕ) (was : Device) (before : ℕ → Bool)
      (r : Outcome Termios × S) (w : World S)
      → Same d was w
      → before fd ≡ false
      → is_open r.1 ≡ with_handle fd before
      → Opened is_open d was before (after_get os tty d speed settings fd r w)
  after_get-Opened d speed settings fd was before (failed errno, s) w same free e = (
    inl (
      refl,
      ground (arith, same),
      k.closes fd s ∙ ap (without_handle fd) e ∙ without_handle-with_handle fd before free,
    ),
    ground (arith, same),
  )
  after_get-Opened d speed settings fd was before (value mode, s) w same free e =
      after_set-Opened d fd was before _ w same free (t.set_attr_keeps fd _ s ∙ e)

  after_open-Opened :
      (d speed : ℕ) (settings : Settings) (path : String) (was : Device) (s0 : S)
      (r : Outcome ℕ × S) (w : World S)
      → Same d was w
      → tty.open_file path s0 ≡ r
      → Opened is_open d was (is_open s0) (after_open os tty d speed settings r w)
  after_open-Opened d speed settings path was s0 (failed errno, s) w same h = (
    inl (
      refl,
      ground (arith, same),
      k.closes _ s ∙ without_handle_absent _ _ (k.no_minus_one s) ∙ t.open_fails path s0 s errno h,
    ),
    ground (arith, same),
  )
  after_open-Opened d speed settings path was s0 (value fd, s) w same h =
      let new = t.opens path s0 s fd h in
      after_get-Opened d speed settings fd was (is_open s0) _ w same new.0
        (t.get_attr_keeps fd s ∙ new.1)

  -- When `openDevice` fails, the handle of the device and the handles that are open are those that
  -- `disconnect` leaves; when it succeeds, there is one more, and the device has it. The device's
  -- engine stays the same.
  pub open_device-Opened :
      (d : ℕ) (device : SerialDevice) (v : SerialWorld S)
      → let (code, v') = open_device os tty d device v in
        let closed = (disconnect os d v).world in
        Opened is_open d (closed.devices d) (is_open closed.sys) (code, v'.world)
  unfolding open_device
  open_device-Opened d device v = elim (Bool-cases (num_to_baud device.settings.baud == 0)) [
    | inl h ↦ rw h (inl (refl, ground arith, refl), ground arith)
    | inr h ↦ rw h (
        after_open-Opened d _ device.settings device.path ((disconnect os d v).world.devices d) _ _
          _ (refl, refl) refl)
  ]

any_bit_set : (n i : ℕ) (word : Flags) → i < n → word i ≡ true → any_bit n word ≡ true
any_bit_set zero i word f e = absurd (omega arith)
any_bit_set (suc n) i word f e = elim (Bool-cases (n == i)) [
  | inl h ↦ ground (arith, ==_iff n i)
  | inr h ↦ ground (arith, any_bit_set n i word, ==_iff n i)
]

module _ {S : Type 0} (os : Os S) (tty : TtyOs S) where
  -- `isConnected` answers no after every call of `openDevice`, also when the call succeeds.
  pub open_device_not_connected :
      (d : ℕ) (device : SerialDevice) (v : SerialWorld S)
      → is_connected d (open_device os tty d device v).1 ≡ false
  unfolding open_device disconnect is_connected
  open_device_not_connected d device v = ground arith

  port_settings_parity :
      (fd : ℕ) (r : Outcome Termios × S) {s' : S} {settings : Settings}
      → port_settings os tty fd r ≡ (some settings, s')
      → settings.enable_parity ≡ true
  port_settings_parity fd (failed errno, s) e = cc
  port_settings_parity fd (value mode, s) e =
      let set = any_bit_set 32 8 (set_bits parenb mode.cflag) (omega arith) (ground arith) in
      ap (λ o. elim o [ none ↦ true | some x ↦ x.enable_parity ]) (sym (ap (λ p. p.0) e)) ∙ set

  opened_settings_parity :
      (r : Outcome ℕ × S) {s' : S} {settings : Settings}
      → opened_settings os tty r ≡ (some settings, s')
      → settings.enable_parity ≡ true
  opened_settings_parity (failed errno, s) e = cc
  opened_settings_parity (value fd, s) e = port_settings_parity fd (tty.get_attr fd s) e

  -- `getPortSettings` reports parity for every port that it can read.
  pub get_port_settings_parity :
      (path : String) (s s' : S) (settings : Settings)
      → get_port_settings os tty path s ≡ (some settings, s')
      → settings.enable_parity ≡ true
  unfolding get_port_settings
  get_port_settings_parity path s s' settings e = opened_settings_parity (tty.open_file path s) e
