-- ===== src/Os.antt =====
-- The system calls that the library makes, as an interface over a state of the kernel that the
-- model does not look into. Each call returns the kernel's next state.
pub mod OpenFiles
use transport_cpp.Prelude.{ℕ, List}
use transport_cpp.Int.{ℤ}
use transport_cpp.Types.{PollFd, Bytes}

-- A call's value, or -1 with the `errno` that it leaves.
pub data Outcome (A : Type 0) : Type 0 where
  value : A → Outcome A
  failed : ℕ → Outcome A

pub record Os (S : Type 0) : Type 0 where
  -- The result is never looked at.
  pub close : ℕ → S → S
  -- The number of entries with events, and the entries with `revents` written.
  pub poll : List PollFd → ℤ → S → Outcome ℕ × List PollFd × S
  -- At most so many bytes from a handle.
  pub read : ℕ → ℕ → S → Outcome Bytes × S
  pub write : ℕ → Bytes → S → Outcome ℕ × S
  -- `fcntl(fd, F_GETFL)` and `fcntl(fd, F_SETFL, flags)`
  pub get_flags : ℕ → S → Outcome ℕ × S
  pub set_flags : ℕ → ℕ → S → Outcome ℕ × S
  -- `steady_clock::now()`, in nanoseconds.
  pub now : S → ℕ × S

-- What the clock shows next.
abbrev pub clock : {S : Type 0} → Os S → S → ℕ
clock os s = (os.now s).0
