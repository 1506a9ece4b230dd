-- ===== src/Tty.antt =====
-- The settings of a serial port and the terminal modes made of them (src/serial.cpp,
-- include/transport-cpp/io/serial.h). A flag word is the set of its bits, with the bit numbers of
-- Linux.
pub mod Words
pub mod Rates
pub mod Mode
pub use Words.*
use transport_cpp.Prelude.{
  ℕ, ◌==◌, if◌then◌else◌, Bool, true, false, not, ◌&&◌, ◌||◌, Option, none, some, List, [], ◌∷◌,
  String, lookup, mem,
}

pub record Termios : Type 0 where
  pub iflag : Flags
  pub oflag : Flags
  pub cflag : Flags
  pub lflag : Flags
  pub ispeed : ℕ
  pub ospeed : ℕ

pub data Bits : Type 0 where
  b5 b6 b7 b8 : Bits

pub record Settings : Type 0 where
  pub baud : ℕ
  pub enable_parity : Bool
  pub parity_even : Bool
  pub use2_stop_bits : Bool
  pub flow_control : Bool
  pub hang_up : Bool
  pub c_read : Bool
  pub c_local : Bool
  pub bits_per_byte : Bits
  pub cannon_mode : Bool
  pub i_sig : Bool
  pub echo : Bool
  pub erasure : Bool
  pub new_line_echo : Bool
  pub sw_flow_control : Bool
  pub special_handle : Bool
  pub nlcr : Bool
  pub out_interpret : Bool

abbrev pub default_settings : Settings
default_settings = record {
  baud = 9600;
  enable_parity = false;
  parity_even = true;
  use2_stop_bits = false;
  flow_control = false;
  hang_up = false;
  c_read = true;
  c_local = true;
  bits_per_byte = b8;
  cannon_mode = false;
  i_sig = false;
  echo = false;
  erasure = false;
  new_line_echo = false;
  sw_flow_control = false;
  special_handle = false;
  nlcr = false;
  out_interpret = false;
}

pub record SerialDevice : Type 0 where
  pub path : String
  pub settings : Settings

-- A rate and its `speed_t` on Linux.
abbrev pub baud_table : List (ℕ × ℕ)
baud_table =
    (0, 0)
    ∷ (50, 1)
    ∷ (75, 2)
    ∷ (110, 3)
    ∷ (134, 4)
    ∷ (150, 5)
    ∷ (200, 6)
    ∷ (300, 7)
    ∷ (600, 8)
    ∷ (1200, 9)
    ∷ (1800, 10)
    ∷ (2400, 11)
    ∷ (4800, 12)
    ∷ (9600, 13)
    ∷ (19200, 14)
    ∷ (38400, 15)
    ∷ (57600, 4097)
    ∷ (115200, 4098)
    ∷ (230400, 4099)
    ∷ (460800, 4100)
    ∷ (500000, 4101)
    ∷ (576000, 4102)
    ∷ (921600, 4103)
    ∷ (1000000, 4104)
    ∷ (1152000, 4105)
    ∷ (1500000, 4106)
    ∷ (2000000, 4107)
    ∷ (2500000, 4108)
    ∷ (3000000, 4109)
    ∷ (3500000, 4110)
    ∷ (4000000, 4111)
    ∷ []

abbrev pub or_zero : Option ℕ → ℕ
or_zero none = 0
or_zero (some n) = n

-- `num2Baud`
unfoldable pub num_to_baud : ℕ → ℕ
num_to_baud num = or_zero (lookup num baud_table)

-- CS5 to CS8
abbrev pub size_bits : Bits → Flags
size_bits b5 = mask []
size_bits b6 = mask (4 ∷ [])
size_bits b7 = mask (5 ∷ [])
size_bits b8 = mask (4 ∷ 5 ∷ [])

abbrev put_parity : Settings → Flags → Flags
put_parity s word bit =
    if s.enable_parity
    then put_bits (not s.parity_even) parodd (set_bits parenb word) bit
    else clear_bits parenb word bit

abbrev put_size : Bits → Flags → Flags
put_size size word = set_bits (size_bits size) (clear_bits csize word)

unfoldable pub control_flags : Settings → Flags → Flags
control_flags s word = put_size s.bits_per_byte (
    put_bits s.c_read cread (
      put_bits s.c_local clocal (
        put_bits s.hang_up hupcl (
          put_bits s.flow_control crtscts (put_bits s.use2_stop_bits cstopb (put_parity s word))))))

unfoldable pub local_flags : Settings → Flags → Flags
local_flags s word = put_bits s.new_line_echo echonl (
    put_bits s.erasure echoe
      (put_bits s.echo echo_flag (put_bits s.i_sig isig (put_bits s.cannon_mode icanon word))))

unfoldable pub input_flags : Settings → Flags → Flags
input_flags s word = put_bits s.special_handle special (put_bits s.sw_flow_control sw_flow word)

unfoldable pub output_flags : Settings → Flags → Flags
output_flags s word = put_bits s.nlcr onlcr (put_bits s.out_interpret opost word)

-- What `openDevice` makes of the mode that it found; the last two fields are `cfsetispeed` and
-- `cfsetospeed`.
unfoldable pub configure : Settings → ℕ → Termios → Termios
unfolding control_flags local_flags input_flags output_flags
configure s speed tty = record {
  iflag = input_flags s tty.iflag;
  oflag = output_flags s tty.oflag;
  cflag = control_flags s tty.cflag;
  lflag = local_flags s tty.lflag;
  ispeed = speed;
  ospeed = speed;
}
