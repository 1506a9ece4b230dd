-- ===== src/Tty/Words.antt =====
-- Words of flags and the masks that src/serial.cpp names, with the bit numbers of Linux.
use transport_cpp.Prelude.{ℕ, if◌then◌else◌, Bool, not, ◌&&◌, ◌||◌, List, [], ◌∷◌, mem}

-- A word of `tcflag_t`, by bit number.
abbrev pub Flags : Type 0
Flags = ℕ → Bool

-- `word |= mask` and `word &= ~mask`
abbrev pub set_bits : Flags → Flags → Flags
set_bits mask word bit = word bit || mask bit

abbrev pub clear_bits : Flags → Flags → Flags
clear_bits mask word bit = word bit && not (mask bit)

abbrev pub put_bits : Bool → Flags → Flags → Flags
put_bits b mask word bit = if b then set_bits mask word bit else clear_bits mask word bit

-- The word with these bits.
abbrev pub mask : List ℕ → Flags
mask bits bit = mem bit bits

abbrev pub parenb : Flags
parenb = mask (8 ∷ [])

abbrev pub parodd : Flags
parodd = mask (9 ∷ [])

abbrev pub cstopb : Flags
cstopb = mask (6 ∷ [])

abbrev pub crtscts : Flags
crtscts = mask (31 ∷ [])

abbrev pub hupcl : Flags
hupcl = mask (10 ∷ [])

abbrev pub clocal : Flags
clocal = mask (11 ∷ [])

abbrev pub cread : Flags
cread = mask (7 ∷ [])

abbrev pub csize : Flags
csize = mask (4 ∷ 5 ∷ [])

abbrev pub icanon : Flags
icanon = mask (1 ∷ [])

abbrev pub isig : Flags
isig = mask (0 ∷ [])

abbrev pub echo_flag : Flags
echo_flag = mask (3 ∷ [])

abbrev pub echoe : Flags
echoe = mask (4 ∷ [])

abbrev pub echonl : Flags
echonl = mask (6 ∷ [])

-- IXON, IXOFF and IXANY
abbrev pub sw_flow : Flags
sw_flow = mask (10 ∷ 12 ∷ 11 ∷ [])

-- IGNBRK, BRKINT, PARMRK, ISTRIP, INLCR, IGNCR and ICRNL
abbrev pub special : Flags
special = mask (0 ∷ 1 ∷ 3 ∷ 5 ∷ 6 ∷ 7 ∷ 8 ∷ [])

abbrev pub opost : Flags
opost = mask (0 ∷ [])

abbrev pub onlcr : Flags
onlcr = mask (2 ∷ [])
