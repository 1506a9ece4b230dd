-- ===== src/Tests.antt =====
-- Small kernels and states on which the theorems are applied.
pub mod Engines
pub mod Loop
pub mod Io
pub mod Ports
pub mod Network
pub mod Sending
pub mod Peers
pub mod Reconnects
pub mod Server
pub mod Lives
pub mod Texts
pub mod Udp
pub mod Groups
use transport_cpp.Prelude.{
  ℕ, suc, ◌+◌, ◌==◌, if◌then◌else◌, Bool, true, Option, none, some, List, [], ◌∷◌, ◌++◌, length,
}
use transport_cpp.Types.{Bytes, PollFd, pollin, pollout}
use transport_cpp.Os.{Os, value, failed}
use transport_cpp.World.{World}
use transport_cpp.Registry.{register_device}
use transport_cpp.Devices.{register_new_handle}
use transport_cpp.Devices.Steps.{new_world}

-- The state of a kernel that has just started.
abbrev pub boot : ℕ
boot = 0

-- A kernel on which nothing is ever ready; its state is its clock.
abbrev pub quiet : Os ℕ
quiet = record {
  close = λ h s. s;
  poll = λ ps ms s. (value 0, ps, s + 1);
  read = λ h n s. (failed 11, s);
  write = λ h b s. (failed 11, s);
  get_flags = λ h s. (value 2, s);
  set_flags = λ h flags s. (value 0, s);
  now = λ s. (s, s);
}

-- A kernel that takes everything that is written, and keeps it.
abbrev pub sink : Os (List Bytes)
sink = record {
  close = λ h s. s;
  poll = λ ps ms s. (value 1, record { fd = 7; events = pollout; revents = pollout } ∷ [], s);
  read = λ h n s. (failed 11, s);
  write = λ h b s. (value (length b), s ++ b ∷ []);
  get_flags = λ h s. (value 2, s);
  set_flags = λ h flags s. (value 0, s);
  now = λ s. (0, s);
}

abbrev pub with_input : List PollFd → List PollFd
with_input [] = []
with_input (p ∷ ps) = record p { revents = pollin } ∷ ps

abbrev next_piece : ℕ → Bytes
next_piece s = if s == 0 then 65 ∷ 66 ∷ [] else 67 ∷ []

-- A kernel with two pieces to read; its state counts the reads.
abbrev pub feed : Os ℕ
feed = record {
  close = λ h s. s;
  poll = λ ps ms s. (value 1, with_input ps, s);
  read = λ h n s.
      if s == 0
      then (value (next_piece 0), 1)
      else if s == 1
      then (value (next_piece 1), 2)
      else (failed 11, s);
  write = λ h b s. (value (length b), s);
  get_flags = λ h s. (value 2, s);
  set_flags = λ h flags s. (value 0, s);
  now = λ s. (s, s);
}

module _ {S : Type 0} where
  -- Device 3 has handle 7.
  unfoldable pub opened : S → World S
  opened s = register_new_handle 3 (some 7) (new_world s)

  -- And engine 1.
  unfoldable pub loaded : S → World S
  unfolding opened
  loaded s = (register_device 1 3 (opened s)).1
