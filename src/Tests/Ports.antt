-- ===== src/Tests/Ports.antt =====
-- A kernel with one handle to give, and the theorems on opening at its states.
use transport_cpp.Prelude.{
  ℕ, ◌≡◌, refl, ◌==◌, if◌then◌else◌, Bool, true, false, not, ◌&&◌, none, [], ◌∷◌, fun_ext, arith,
  sym, ap, length,
}
use transport_cpp.Types.{Bytes, HostAddr}
use transport_cpp.Os.{Os, Outcome, value, failed}
use transport_cpp.Os.OpenFiles.{Files, with_handle, without_handle}
use transport_cpp.Devices.Steps.{new_world}
use transport_cpp.Tty.{Termios, SerialDevice, default_settings, b7, configure, num_to_baud}
use transport_cpp.Serial.{TtyOs, SerialWorld, open_device, disconnect}
use transport_cpp.Serial.Opening.{TtyFiles, open_device-Opened}
use transport_cpp.IoDevice.Opening.{Opened}
use transport_cpp.Sockets.{NetOs, Address, unknown}
use transport_cpp.NetworkDevice.Opening.{SocketFiles}

-- The state is the set of open handles.
abbrev pub Handles : Type 0
Handles = ℕ → Bool

abbrev pub is_open : Handles → ℕ → Bool
is_open s k = s k && not (k == 4294967295)

abbrev pub no_handles : Handles
no_handles k = false

abbrev pub files : Os Handles
files = record {
  close = λ h s. without_handle h s;
  poll = λ ps ms s. (value 0, ps, s);
  read = λ h n s. (failed 11, s);
  write = λ h b s. (failed 11, s);
  get_flags = λ h s. (value 2, s);
  set_flags = λ h flags s. (value 0, s);
  now = λ s. (0, s);
}

pub files-Files : Files files is_open
files-Files = record {
  closes = λ h s. fun_ext (λ k. ground arith);
  get_flags_keeps = λ h s. refl;
  set_flags_keeps = λ h flags s. refl;
  no_minus_one = λ s. ground arith;
}

-- Handle 5, when it is free.
abbrev given : Bool → Handles → Outcome ℕ × Handles
given b s = if b then (failed 24, s) else (value 5, with_handle 5 s)

abbrev give : Handles → Outcome ℕ × Handles
give s = given (s 5) s

abbrev number : Outcome ℕ → ℕ
number (failed errno) = errno
number (value n) = n

give_opens_at :
    (s s' : Handles) (fd : ℕ) (b : Bool)
    → s 5 ≡ b
    → given b s ≡ (value fd, s')
    → (is_open s fd ≡ false) × (is_open s' ≡ with_handle fd (is_open s))
give_opens_at s s' fd true h e = cc
give_opens_at s s' fd false h e =
    let five : 5 ≡ fd = ap (λ p. number p.0) e in
    let left : with_handle 5 s ≡ s' = ap (λ p. p.1) e in
    rw (← five, ← left) (ground arith, fun_ext (λ k. ground arith))

give_fails_at :
    (s s' : Handles) (errno : ℕ) (b : Bool)
    → s 5 ≡ b
    → given b s ≡ (failed errno, s')
    → is_open s' ≡ is_open s
give_fails_at s s' errno true h e = ap (λ p. is_open p.1) (sym e)
give_fails_at s s' errno false h e = cc

give_opens :
    (s s' : Handles) (fd : ℕ)
    → give s ≡ (value fd, s')
    → (is_open s fd ≡ false) × (is_open s' ≡ with_handle fd (is_open s))
give_opens s s' fd e = give_opens_at s s' fd (s 5) refl e

give_fails : (s s' : Handles) (errno : ℕ) → give s ≡ (failed errno, s') → is_open s' ≡ is_open s
give_fails s s' errno e = give_fails_at s s' errno (s 5) refl e

abbrev raw : Termios
raw = record {
  iflag = λ k. true;
  oflag = λ k. false;
  cflag = λ k. k == 9;
  lflag = λ k. true;
  ispeed = 13;
  ospeed = 13;
}

abbrev tty : TtyOs Handles
tty = record {
  open_file = λ path s. give s;
  get_attr = λ fd s. (value raw, s);
  set_attr = λ fd mode s. (failed 5, s);
  links = λ path s. none;
  strerror = λ errno. "error";
}

tty-TtyFiles : TtyFiles tty is_open
tty-TtyFiles = record {
  opens = λ path s s' fd e. give_opens s s' fd e;
  open_fails = λ path s s' errno e. give_fails s s' errno e;
  get_attr_keeps = λ fd s. refl;
  set_attr_keeps = λ fd mode s. refl;
}

abbrev port : SerialDevice
port = record {
  path = "/dev/ttyUSB0";
  settings = record default_settings { baud = 115200; bits_per_byte = b7; enable_parity = true };
}

abbrev serial : SerialWorld Handles
serial = record { world = new_world no_handles; connected = λ d. false }

-- Setting the mode fails here.
open_device-Opened_example :
    let (code, v') = open_device files tty 3 port serial in
    let closed = (disconnect files 3 serial).world in
    Opened is_open 3 (closed.devices 3) (is_open closed.sys) (code, v'.world)
open_device-Opened_example =
    open_device-Opened files tty is_open files-Files tty-TtyFiles 3 port serial

speed_set : (configure port.settings (num_to_baud 115200) raw).ispeed ≡ 4098
unfolding num_to_baud configure
speed_set = refl

abbrev address : ℕ → Address
address n = record { family = 2; socktype = 1; protocol = 6; addr = n ∷ [] }

abbrev first_byte : Bytes → ℕ
first_byte [] = 0
first_byte (b ∷ bs) = b

abbrev refuse_first : Bytes → Outcome (Unit {0})
refuse_first b = if first_byte b == 1 then failed 111 else value tt

-- Two addresses, of which the first refuses.
abbrev pub net : NetOs Handles
net = record {
  get_addr_info = λ hints host s. ((0, address 1 ∷ address 2 ∷ []), s);
  gai_strerror = λ status. "error";
  socket = λ a s. give s;
  connect = λ fd b s. (refuse_first b, s);
  bind = λ fd b s. (refuse_first b, s);
  reuse_addr = λ fd s. (value tt, s);
  send_to = λ fd b a s. (value (length b), s);
  recv_from = λ fd n s. (failed 11, s);
  get_sock_name = λ fd s. (value unknown, s);
  errno = λ s. 111;
}

pub net-SocketFiles : SocketFiles net is_open
net-SocketFiles = record {
  opens = λ a s s' fd e. give_opens s s' fd e;
  socket_fails = λ a s s' errno e. give_fails s s' errno e;
  connect_keeps = λ fd b s. refl;
  bind_keeps = λ fd b s. refl;
  reuse_addr_keeps = λ fd s. refl;
  get_addr_info_keeps = λ hints host s. refl;
}

abbrev pub host : HostAddr
host = record { ip = "localhost"; port = 80 }
