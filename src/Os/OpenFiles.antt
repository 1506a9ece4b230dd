-- ===== src/Os/OpenFiles.antt =====
-- Which handles are open: what the calls of the library are documented to do to them.
use transport_cpp.Prelude.{ℕ, List, ◌≡◌, ◌==◌, Bool, false, not, ◌&&◌, ◌||◌, fun_ext, arith}
use transport_cpp.Int.{ℤ}
use transport_cpp.Types.{PollFd, Bytes}
use transport_cpp.Os.{Os}

abbrev pub with_handle : ℕ → (ℕ → Bool) → ℕ → Bool
with_handle h f k = (k == h) || f k

abbrev pub without_handle : ℕ → (ℕ → Bool) → ℕ → Bool
without_handle h f k = f k && not (k == h)

pub without_handle_absent : (h : ℕ) (f : ℕ → Bool) → f h ≡ false → without_handle h f ≡ f
without_handle_absent h f e = fun_ext (λ k. ground arith)

pub without_handle-with_handle :
    (h : ℕ) (f : ℕ → Bool) → f h ≡ false → without_handle h (with_handle h f) ≡ f
without_handle-with_handle h f e = fun_ext (λ k. ground arith)

-- `close` closes one handle, `fcntl` opens and closes none, and -1 is never open.
pub record Files {S : Type 0} (os : Os S) (is_open : S → ℕ → Bool) : Type 0 where
  pub closes : (h : ℕ) (s : S) → is_open (os.close h s) ≡ without_handle h (is_open s)
  pub get_flags_keeps : (h : ℕ) (s : S) → is_open (os.get_flags h s).1 ≡ is_open s
  pub set_flags_keeps : (h flags : ℕ) (s : S) → is_open (os.set_flags h flags s).1 ≡ is_open s
  pub no_minus_one : (s : S) → is_open s 4294967295 ≡ false

-- Nor do `poll`, `read` and `write` open or close any.
pub record Transfers {S : Type 0} (os : Os S) (is_open : S → ℕ → Bool) : Type 0 where
  pub poll_keeps : (ps : List PollFd) (ms : ℤ) (s : S) → is_open (os.poll ps ms s).2 ≡ is_open s
  pub read_keeps : (h n : ℕ) (s : S) → is_open (os.read h n s).1 ≡ is_open s
  pub write_keeps : (h : ℕ) (b : Bytes) (s : S) → is_open (os.write h b s).1 ≡ is_open s
