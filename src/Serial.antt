-- ===== src/Serial.antt =====
-- The serial port (src/serial.cpp, include/transport-cpp/io/serial.h). The calls of <termios.h>, of
-- `open` and of <filesystem> are an interface of their own.
pub mod Opening
use transport_cpp.Prelude.{
  ℕ, zero, suc, ◌==◌, ◌||◌, if◌then◌else◌, Bool, true, false, Option, none, some, List, [], ◌∷◌,
  String, update,
}
use transport_cpp.Text.{joined}
use transport_cpp.Types.{ReturnCode, ok, nok, ErrorCode, internal, system}
use transport_cpp.Os.{Os, Outcome, value, failed}
use transport_cpp.World.{World, set_error}
use transport_cpp.Devices.{destroy_handle}
use transport_cpp.IoDevice.{register_new_handle}
use transport_cpp.Tty.{
  Flags, Termios, Settings, default_settings, SerialDevice, num_to_baud, configure, set_bits,
  parenb,
}

pub record TtyOs (S : Type 0) : Type 0 where
  -- `open(path, O_RDWR)`
  pub open_file : String → S → Outcome ℕ × S
  pub get_attr : ℕ → S → Outcome Termios × S
  -- `tcsetattr(fd, TCSANOW, tty)`
  pub set_attr : ℕ → Termios → S → Outcome ℕ × S
  -- The names of the files that the links of a directory point to; `none` when it does not exist.
  pub links : String → S → Option (List String)
  pub strerror : ℕ → String

-- Whether a word is not 0: whether one of its so many bits is set.
abbrev pub any_bit : ℕ → Flags → Bool
any_bit zero word = false
any_bit (suc n) word = word n || any_bit n word

-- The state with the field of `Serial`, `mIsConnected`.
pub record SerialWorld (S : Type 0) : Type 0 where
  pub world : World S
  pub connected : ℕ → Bool

-- `Serial::isConnected`
unfoldable pub is_connected : {S : Type 0} → ℕ → SerialWorld S → Bool
is_connected d v = v.connected d

module _ {S : Type 0} (os : Os S) where
  abbrev pub with_world : SerialWorld S → World S → SerialWorld S
  with_world v w = record v { world = w }

  -- `Serial::disconnect`
  unfoldable pub disconnect : ℕ → SerialWorld S → SerialWorld S
  disconnect d v = record v {
    world = destroy_handle os d v.world;
    connected = update v.connected d false;
  }

  -- `setError(errno, description); close(serialfd); return NOK`
  abbrev pub give_up : ℕ → ℕ → String → ℕ → World S → ReturnCode × World S
  give_up d errno description fd w =
      let w' = set_error d (system errno) description w in
      (nok, record w' { sys = os.close fd w'.sys })

  abbrev pub after_set : ℕ → ℕ → Outcome ℕ × S → World S → ReturnCode × World S
  after_set d fd (failed errno, s) w =
      give_up d errno "Unable to set serial settings" fd (record w { sys = s })
  after_set d fd (value n, s) w = (ok, register_new_handle os d (some fd) (record w { sys = s }))

  module _ (tty : TtyOs S) where
    abbrev pub after_get :
        ℕ → ℕ → Settings → ℕ → Outcome Termios × S → World S → ReturnCode × World S
    after_get d speed settings fd (failed errno, s) w =
        give_up d errno "Unable to get serial settings" fd (record w { sys = s })
    after_get d speed settings fd (value mode, s) w =
        after_set d fd (tty.set_attr fd (configure settings speed mode) s) w

    -- A failed `open` gives -1, which is closed.
    abbrev pub after_open : ℕ → ℕ → Settings → Outcome ℕ × S → World S → ReturnCode × World S
    after_open d speed settings (failed errno, s) w =
        give_up d errno (joined "Unable to open serial port: " (tty.strerror errno)) 4294967295
          (record w { sys = s })
    after_open d speed settings (value fd, s) w =
        after_get d speed settings fd (tty.get_attr fd s) w

    abbrev pub open_path : ℕ → SerialDevice → World S → ReturnCode × World S
    open_path d device w =
        let speed = num_to_baud device.settings.baud in
        if speed == 0
        then (nok, set_error d (internal ErrorCode.invalid_argument) "Unsupported board rate" w)
        else after_open d speed device.settings (tty.open_file device.path w.sys) w

    -- `Serial::openDevice`
    unfoldable pub open_device : ℕ → SerialDevice → SerialWorld S → ReturnCode × SerialWorld S
    unfolding disconnect
    open_device d device v =
        let closed = disconnect d v in
        let (code, w) = open_path d device closed.world in (code, with_world closed w)

    abbrev pub port_settings : ℕ → Outcome Termios × S → Option Settings × S
    port_settings fd (failed errno, s) = (none, os.close fd s)
    port_settings fd (value mode, s) = (
      some (record default_settings { enable_parity = any_bit 32 (set_bits parenb mode.cflag) }),
      os.close fd s,
    )

    abbrev pub opened_settings : Outcome ℕ × S → Option Settings × S
    opened_settings (failed errno, s) = (none, s)
    opened_settings (value fd, s) = port_settings fd (tty.get_attr fd s)

    -- `getPortSettings`, with its test `tty.c_cflag | PARENB`.
    unfoldable pub get_port_settings : String → S → Option Settings × S
    get_port_settings path s = opened_settings (tty.open_file path s)

    abbrev found : String → Option Settings → List SerialDevice → List SerialDevice
    found name none devices = devices
    found name (some settings) devices = record { path = name; settings = settings } ∷ devices

    abbrev scan : List String → S → List SerialDevice × S
    scan [] s = ([], s)
    scan (name ∷ names) s =
        let (settings, s1) = get_port_settings (joined "/dev/" name) s in
        let (devices, s2) = scan names s1 in (found name settings devices, s2)

    -- `Serial::getSystemSerialDevices`
    unfoldable pub get_system_serial_devices : S → List SerialDevice × S
    unfolding get_port_settings
    get_system_serial_devices s = elim (tty.links "/dev/serial/by-path" s) [
      | none ↦ ([], s)
      | some names ↦ scan names s
    ]
