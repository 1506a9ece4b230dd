-- ===== src/EventLoop/Collect.antt =====
-- The scan of the poll list sorts every entry that has events into the vector of its class.
use transport_cpp.Prelude.{
  ℕ, suc, ◌+◌, ◌≤◌, ◌≡◌, refl, ◌==◌, leb, if◌then◌else◌, Bool, true, false, Option, none, some,
  List, [], ◌∷◌, ◌++◌, append-nil, append_assoc, arith, inl, inr, Bool-cases, ◌∙◌, sym,
}
use transport_cpp.Types.{PollFd}
use transport_cpp.EventLoop.{
  Event, ready_read, ready_write, ready_error, ready_hangup, ready_invalid, ready_peer_disconnect,
  classify, Ready, cleared, push, counted, collect,
}

abbrev is_event : Event → Option Event → Bool
is_event ready_read (some ready_read) = true
is_event ready_write (some ready_write) = true
is_event ready_error (some ready_error) = true
is_event ready_hangup (some ready_hangup) = true
is_event ready_invalid (some ready_invalid) = true
is_event ready_peer_disconnect (some ready_peer_disconnect) = true
is_event _ _ = false

-- The handles of a class, in the order of the poll list.
abbrev pub fds_of : Event → List PollFd → List ℕ
fds_of e [] = []
fds_of e (p ∷ ps) = if is_event e (classify p.revents) then p.fd ∷ fds_of e ps else fds_of e ps

-- The number of entries with events: what `poll` returns.
abbrev pub raised : List PollFd → ℕ
raised [] = 0
raised (p ∷ ps) = if p.revents == 0 then raised ps else suc (raised ps)

abbrev pub sorted : List PollFd → Ready → Ready
sorted ps r = record {
  read = r.read ++ fds_of ready_read ps;
  write = r.write ++ fds_of ready_write ps;
  error = r.error ++ fds_of ready_error ps;
  hangup = r.hangup ++ fds_of ready_hangup ps;
  invalid = r.invalid ++ fds_of ready_invalid ps;
  peer_disconnect = r.peer_disconnect ++ fds_of ready_peer_disconnect ps;
}

classify-zero : classify 0 ≡ none
unfolding classify
classify-zero = refl

-- Without events there is nothing to sort.
fds_of-raised : (e : Event) (ps : List PollFd) → raised ps ≡ 0 → fds_of e ps ≡ []
fds_of-raised e [] h = refl
fds_of-raised ready_read (p ∷ ps) h = ground (arith, classify-zero, fds_of-raised ready_read ps)
fds_of-raised e (p ∷ ps) h = ground (arith, classify-zero, fds_of-raised e ps)

sorted-raised : (ps : List PollFd) (r : Ready) → raised ps ≡ 0 → sorted ps r ≡ r
sorted-raised ps r h = simp (
  fds_of-raised ready_read ps h,
  fds_of-raised ready_write ps h,
  fds_of-raised ready_error ps h,
  fds_of-raised ready_hangup ps h,
  fds_of-raised ready_invalid ps h,
  fds_of-raised ready_peer_disconnect ps h,
  append-nil,
)

sorted-cons :
    (p : PollFd) (ps : List PollFd) (r : Ready) (c : Option Event)
    → classify p.revents ≡ c
    → sorted ps (push c p.fd r) ≡ sorted (p ∷ ps) r
sorted-cons p ps r none h = simp h
sorted-cons p ps r (some ready_read) h = simp (h, append_assoc)
sorted-cons p ps r (some e) h = simp (h, append_assoc)

counted-raised :
    (p : PollFd) (ps : List PollFd) (count : ℕ)
    → counted (classify p.revents) count + raised ps ≤ count + raised (p ∷ ps)
counted-raised p ps count = ground (arith, classify-zero)

scan :
    (res : ℕ) (ps : List PollFd) (count : ℕ) (r : Ready)
    → count + raised ps ≤ res
    → collect res ps count r ≡ sorted ps r
unfolding collect
scan res [] count r h = simp append-nil
scan res (p ∷ ps) count r h =
    let c = classify p.revents in
    let count' = counted c count in
    let bound : count' + raised ps ≤ res = omega (arith, counted-raised p ps count) in
    elim (Bool-cases (leb res count')) [
      | inl stop ↦
          rw stop
            (sym (sorted-raised ps (push c p.fd r) (ground arith)) ∙ sorted-cons p ps r c refl)
      | inr on ↦ rw on (scan res ps count' (push c p.fd r) bound ∙ sorted-cons p ps r c refl)
    ]

-- Stopping at `res` entries loses none: if `res` is at least the number of entries with events, each
-- of the six vectors holds exactly the handles of its class, in the order of the poll list.
pub collect-sorted :
    (res : ℕ) (ps : List PollFd)
    → raised ps ≤ res
    → collect res ps 0 cleared ≡ record {
      read = fds_of ready_read ps;
      write = fds_of ready_write ps;
      error = fds_of ready_error ps;
      hangup = fds_of ready_hangup ps;
      invalid = fds_of ready_invalid ps;
      peer_disconnect = fds_of ready_peer_disconnect ps;
    }
collect-sorted res ps h = scan res ps 0 cleared (omega arith)
