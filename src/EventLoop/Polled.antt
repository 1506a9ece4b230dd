-- ===== src/EventLoop/Polled.antt =====
-- `poll` writes `revents` into the engine's list, which leaves the tables as they are.
use transport_cpp.Prelude.{
  ℕ, ◌≡◌, refl, ◌==◌, Bool, false, ◌||◌, List, [], ◌∷◌, arith, ap, ◌∙◌, sym, subst,
}
use transport_cpp.Types.{PollFd}
use transport_cpp.Engine.Tables.{has_fd, DistinctFds}
use transport_cpp.World.{World}
use transport_cpp.World.Invariant.{IsWellFormed}
use transport_cpp.Engine.Handles.{IsConsistent}
use transport_cpp.EventLoop.{polled}

-- The handles of the entries.
abbrev pub handles : List PollFd → List ℕ
handles [] = []
handles (p ∷ ps) = p.fd ∷ handles ps

abbrev mem_handle : ℕ → List ℕ → Bool
mem_handle h [] = false
mem_handle h (k ∷ ks) = (k == h) || mem_handle h ks

abbrev AreApart : List ℕ → Type 0
AreApart [] = Unit {0}
AreApart (k ∷ ks) = (mem_handle k ks ≡ false) × AreApart ks

has_fd-handles : (h : ℕ) (ps : List PollFd) → has_fd h ps ≡ mem_handle h (handles ps)
has_fd-handles h [] = refl
has_fd-handles h (p ∷ ps) = ap (λ b. (p.fd == h) || b) (has_fd-handles h ps)

AreApart-handles : (ps : List PollFd) → DistinctFds ps → AreApart (handles ps)
AreApart-handles [] d = tt
AreApart-handles (p ∷ ps) d = (sym (has_fd-handles p.fd ps) ∙ d.0, AreApart-handles ps d.1)

DistinctFds-of : (ps : List PollFd) → AreApart (handles ps) → DistinctFds ps
DistinctFds-of [] d = tt
DistinctFds-of (p ∷ ps) d = (has_fd-handles p.fd ps ∙ d.0, DistinctFds-of ps d.1)

module _ {S : Type 0} (e : ℕ) (fds : List PollFd) (s : S) (w : World S)
    (same : handles fds ≡ handles (w.engines e).poll_devices) where
  has_fd-same : (h : ℕ) → has_fd h fds ≡ has_fd h (w.engines e).poll_devices
  has_fd-same h =
      has_fd-handles h fds
      ∙ ap (mem_handle h) same
      ∙ sym (has_fd-handles h (w.engines e).poll_devices)

  polled-IsConsistent :
      IsConsistent (w.engines e) → IsConsistent (record (w.engines e) { poll_devices = fds })
  polled-IsConsistent c = record {
    distinct =
        DistinctFds-of fds
          (subst AreApart (sym same) (AreApart-handles (w.engines e).poll_devices c.distinct));
    mapped = λ h. c.mapped h ∙ sym (has_fd-same h);
  }

  -- If `poll` keeps the handles of the list, it keeps the invariant.
  pub polled-IsWellFormed : IsWellFormed w → IsWellFormed (polled e fds s w)
  polled-IsWellFormed v = record {
    consistent = λ e'. ground (arith, v.consistent e', polled-IsConsistent (v.consistent e));
    distinct = λ e'. ground (arith, v.distinct e', v.distinct e);
    listed = λ e' d. ground (arith, v.listed e' d);
    owner = λ e' h d. ground (arith, v.owner e' h d);
  }
