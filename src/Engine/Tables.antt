-- ===== src/Engine/Tables.antt =====
-- The poll list as a table keyed by handle: `find_if`, assignment through the iterator, `erase`.
use transport_cpp.Prelude.{
  ℕ, ◌≡◌, refl, ◌==◌, if◌then◌else◌, Bool, false, true, ◌||◌, List, [], ◌∷◌, ◌++◌, Option, none,
  some, arith,
}
use transport_cpp.Types.{PollFd}

abbrev pub has_fd : ℕ → List PollFd → Bool
has_fd h [] = false
has_fd h (p ∷ ps) = (p.fd == h) || has_fd h ps

-- The events that the first entry with the handle is polled for.
abbrev pub events_of : ℕ → List PollFd → Option ℕ
events_of h [] = none
events_of h (p ∷ ps) = if p.fd == h then some p.events else events_of h ps

abbrev pub update_first : ℕ → (PollFd → PollFd) → List PollFd → List PollFd
update_first h f [] = []
update_first h f (p ∷ ps) = if p.fd == h then f p ∷ ps else p ∷ update_first h f ps

abbrev pub erase_first_fd : ℕ → List PollFd → List PollFd
erase_first_fd h [] = []
erase_first_fd h (p ∷ ps) = if p.fd == h then ps else p ∷ erase_first_fd h ps

-- No handle is polled twice.
abbrev pub DistinctFds : List PollFd → Type 0
DistinctFds [] = Unit {0}
DistinctFds (p ∷ ps) = (has_fd p.fd ps ≡ false) × DistinctFds ps

pub has_fd-append :
    (h : ℕ) (xs ys : List PollFd) → has_fd h (xs ++ ys) ≡ (has_fd h xs || has_fd h ys)
has_fd-append h [] ys = refl
has_fd-append h (p ∷ xs) ys = ground (arith, has_fd-append h xs ys)

pub DistinctFds-append :
    (xs : List PollFd) (p : PollFd)
    → DistinctFds xs
    → has_fd p.fd xs ≡ false
    → DistinctFds (xs ++ p ∷ [])
DistinctFds-append [] p d n = (refl, tt)
DistinctFds-append (x ∷ xs) p d n =
    ground (arith, has_fd-append x.fd xs (p ∷ []), DistinctFds-append xs p d.1)

-- `(*handle_pos).fd = h`
abbrev pub with_fd : ℕ → PollFd → PollFd
with_fd h p = record p { fd = h }

pub has_fd-with_fd :
    (j old h : ℕ) (ps : List PollFd)
    → DistinctFds ps
    → has_fd old ps ≡ true
    → has_fd j (update_first old (with_fd h) ps)
      ≡ (if h == j then true else if old == j then false else has_fd j ps)
has_fd-with_fd j old h [] d e = ground arith
has_fd-with_fd j old h (p ∷ ps) d e = ground (arith, has_fd-with_fd j old h ps d.1)

pub DistinctFds-with_fd :
    (old h : ℕ) (ps : List PollFd)
    → DistinctFds ps
    → has_fd old ps ≡ true
    → has_fd h ps ≡ false
    → DistinctFds (update_first old (with_fd h) ps)
DistinctFds-with_fd old h [] d e n = tt
DistinctFds-with_fd old h (p ∷ ps) d e n =
    ground (arith, has_fd-with_fd p.fd old h ps d.1, DistinctFds-with_fd old h ps d.1)

pub has_fd-erase_first_fd :
    (j h : ℕ) (ps : List PollFd)
    → DistinctFds ps
    → has_fd j (erase_first_fd h ps) ≡ (if h == j then false else has_fd j ps)
has_fd-erase_first_fd j h [] d = ground arith
has_fd-erase_first_fd j h (p ∷ ps) d = ground (arith, has_fd-erase_first_fd j h ps d.1)

pub DistinctFds-erase_first_fd :
    (h : ℕ) (ps : List PollFd) → DistinctFds ps → DistinctFds (erase_first_fd h ps)
DistinctFds-erase_first_fd h [] d = tt
DistinctFds-erase_first_fd h (p ∷ ps) d =
    ground (arith, has_fd-erase_first_fd p.fd h ps d.1, DistinctFds-erase_first_fd h ps d.1)

abbrev pub with_events : ℕ → PollFd → PollFd
with_events events p = record p { events = events }

pub has_fd-with_events :
    (j h events : ℕ) (ps : List PollFd)
    → has_fd j (update_first h (with_events events) ps) ≡ has_fd j ps
has_fd-with_events j h events [] = refl
has_fd-with_events j h events (p ∷ ps) = ground (arith, has_fd-with_events j h events ps)

pub DistinctFds-with_events :
    (h events : ℕ) (ps : List PollFd)
    → DistinctFds ps
    → DistinctFds (update_first h (with_events events) ps)
DistinctFds-with_events h events [] d = tt
DistinctFds-with_events h events (p ∷ ps) d =
    ground (arith, has_fd-with_events p.fd h events ps, DistinctFds-with_events h events ps d.1)

-- A request changes what its own handle is polled for, and nothing else.
pub events_of-with_events :
    (j h events : ℕ) (ps : List PollFd)
    → events_of j (update_first h (with_events events) ps)
      ≡ (if h == j then if has_fd h ps then some events else none else events_of j ps)
events_of-with_events j h events [] = ground arith
events_of-with_events j h events (p ∷ ps) = ground (arith, events_of-with_events j h events ps)
