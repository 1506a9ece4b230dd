-- ===== src/Tty/Mode.antt =====
-- The terminal mode that `openDevice` sets, bit by bit, and read back.
use transport_cpp.Prelude.{
  ℕ, ◌≡◌, Bool, true, false, if◌then◌else◌, not, ◌&&◌, Option, none, some, List, [], ◌∷◌, lookup,
}
use transport_cpp.Tty.{Flags, Termios, Settings, Bits, b5, b6, b7, b8}
use transport_cpp.Tty.Rates.{rate_of}

-- The character size of a mode.
abbrev pub size_of : Flags → Bits
size_of c = if c 5 then if c 4 then b8 else b7 else if c 4 then b6 else b5

-- The settings that a mode stands for, written down from the meaning of the bits. Software flow
-- control takes all of its three bits, special handling all of its seven.
abbrev pub settings_of : Termios → Settings
settings_of t = record {
  baud = rate_of t.ospeed;
  enable_parity = t.cflag 8;
  parity_even = not (t.cflag 9);
  use2_stop_bits = t.cflag 6;
  flow_control = t.cflag 31;
  hang_up = t.cflag 10;
  c_read = t.cflag 7;
  c_local = t.cflag 11;
  bits_per_byte = size_of t.cflag;
  cannon_mode = t.lflag 1;
  i_sig = t.lflag 0;
  echo = t.lflag 3;
  erasure = t.lflag 4;
  new_line_echo = t.lflag 6;
  sw_flow_control = t.iflag 10 && t.iflag 11 && t.iflag 12;
  special_handle =
      t.iflag 0 && t.iflag 1 && t.iflag 3 && t.iflag 5 && t.iflag 6 && t.iflag 7 && t.iflag 8;
  nlcr = t.oflag 2;
  out_interpret = t.oflag 0;
}

-- The bits of each word that depend on the settings, with their values; the bit of the kind of parity
-- does only if there is parity.
abbrev pub control_table : Settings → List (ℕ × Bool)
control_table s =
    (4, elim s.bits_per_byte [ b6 ↦ true | b8 ↦ true | _ ↦ false ])
    ∷ (5, elim s.bits_per_byte [ b7 ↦ true | b8 ↦ true | _ ↦ false ])
    ∷ (6, s.use2_stop_bits)
    ∷ (7, s.c_read)
    ∷ (8, s.enable_parity)
    ∷ (10, s.hang_up)
    ∷ (11, s.c_local)
    ∷ (31, s.flow_control)
    ∷ (if s.enable_parity then (9, not s.parity_even) ∷ [] else [])

abbrev pub local_table : Settings → List (ℕ × Bool)
local_table s =
    (0, s.i_sig) ∷ (1, s.cannon_mode) ∷ (3, s.echo) ∷ (4, s.erasure) ∷ (6, s.new_line_echo) ∷ []

abbrev pub input_table : Settings → List (ℕ × Bool)
input_table s =
    (0, s.special_handle)
    ∷ (1, s.special_handle)
    ∷ (3, s.special_handle)
    ∷ (5, s.special_handle)
    ∷ (6, s.special_handle)
    ∷ (7, s.special_handle)
    ∷ (8, s.special_handle)
    ∷ (10, s.sw_flow_control)
    ∷ (11, s.sw_flow_control)
    ∷ (12, s.sw_flow_control)
    ∷ []

abbrev pub output_table : Settings → List (ℕ × Bool)
output_table s = (0, s.out_interpret) ∷ (2, s.nlcr) ∷ []

abbrev or_else : Bool → Option Bool → Bool
or_else b none = b
or_else b (some c) = c

-- A word has the bits of a table, and all others as they were.
abbrev pub Sets : List (ℕ × Bool) → Flags → Flags → Type 0
Sets table old new = (bit : ℕ) → new bit ≡ or_else (old bit) (lookup bit table)

abbrev AllOf : (ℕ → Type 0) → List ℕ → Type 0
AllOf P [] = Unit {0}
AllOf P (x ∷ xs) = P x × AllOf P xs

abbrev control_bits : List ℕ
control_bits = 4 ∷ 5 ∷ 6 ∷ 7 ∷ 8 ∷ 9 ∷ 10 ∷ 11 ∷ 31 ∷ []
