-- ===== src/EventLoop/Classes.antt =====
-- Which method an entry of the poll list leads to.
use transport_cpp.Prelude.{ℕ, ◌+◌, ◌≡◌, refl, if◌then◌else◌, Bool, true, false, Option, none, some}
use transport_cpp.Types.{pollin, pollout, pollerr, pollhup, pollnval}
use transport_cpp.EventLoop.{
  Event, ready_read, ready_write, ready_error, ready_hangup, ready_invalid, classify,
}

-- What an entry asks for: `requestRead` asks for input only, and `requestWrite` for output only.
pub data Request : Type 0 where
  input output : Request

abbrev asked : Request → ℕ
asked input = pollin
asked output = pollout

abbrev bit_if : Bool → ℕ → ℕ
bit_if true bit = bit
bit_if false bit = 0

-- What `poll` may report for such an entry: what was asked for, and the three events that need not
-- be asked for.
abbrev pub reported : Request → Bool → Bool → Bool → Bool → ℕ
reported r ready error hangup invalid =
    bit_if ready (asked r) + bit_if error pollerr + bit_if hangup pollhup + bit_if invalid pollnval

abbrev asked_event : Request → Event
asked_event input = ready_read
asked_event output = ready_write

-- The order of precedence.
abbrev pub expected : Request → Bool → Bool → Bool → Bool → Option Event
expected r ready error hangup invalid =
    if error
    then some ready_error
    else if hangup
    then some ready_hangup
    else if invalid
    then some ready_invalid
    else if ready
    then some (asked_event r)
    else none

-- Of what `poll` reports for an entry, an error comes first, then a hangup, then an invalid handle,
-- and what was asked for comes last; an entry with any of them leads to a method.
pub classify-expected :
    (r : Request) (ready error hangup invalid : Bool)
    → classify (reported r ready error hangup invalid) ≡ expected r ready error hangup invalid
unfolding classify
classify-expected input true true true true = refl
classify-expected input true true true false = refl
classify-expected input true true false true = refl
classify-expected input true true false false = refl
classify-expected input true false true true = refl
classify-expected input true false true false = refl
classify-expected input true false false true = refl
classify-expected input true false false false = refl
classify-expected input false true true true = refl
classify-expected input false true true false = refl
classify-expected input false true false true = refl
classify-expected input false true false false = refl
classify-expected input false false true true = refl
classify-expected input false false true false = refl
classify-expected input false false false true = refl
classify-expected input false false false false = refl
classify-expected output true true true true = refl
classify-expected output true true true false = refl
classify-expected output true true false true = refl
classify-expected output true true false false = refl
classify-expected output true false true true = refl
classify-expected output true false true false = refl
classify-expected output true false false true = refl
classify-expected output true false false false = refl
classify-expected output false true true true = refl
classify-expected output false true true false = refl
classify-expected output false true false true = refl
classify-expected output false true false false = refl
classify-expected output false false true true = refl
classify-expected output false false true false = refl
classify-expected output false false false true = refl
classify-expected output false false false false = refl
