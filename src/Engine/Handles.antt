-- ===== src/Engine/Handles.antt =====
-- What the registration of handles keeps true of an engine's tables.
use transport_cpp.Prelude.{
  ℕ, ◌≡◌, refl, true, false, Option, none, some, [], ◌∷◌, has_key, has_key-insert,
  has_key-erase_key, erase_key, arith, inl, inr, Bool-cases,
}
use transport_cpp.Types.{pollin, pollout}
use transport_cpp.Engine.{
  Engine, register_new_handle, de_register_handle, request_read, request_write, initial,
  request_events, add_entry, move_entry, new_entry,
}
use transport_cpp.Engine.Tables.{
  has_fd, DistinctFds, has_fd-append, DistinctFds-append, has_fd-with_fd, DistinctFds-with_fd,
  has_fd-erase_first_fd, DistinctFds-erase_first_fd, has_fd-with_events, DistinctFds-with_events,
}

-- No handle is polled twice, and the map has an entry for a handle exactly when it is polled.
pub record IsConsistent (e : Engine) : Type 0 where
  pub distinct : DistinctFds e.poll_devices
  pub mapped : (h : ℕ) → has_key h e.device_mapping ≡ has_fd h e.poll_devices

pub initial-IsConsistent : IsConsistent initial
unfolding initial
initial-IsConsistent = record { distinct = tt; mapped = λ h. refl }

add_entry-IsConsistent :
    (h dev : ℕ) (e : Engine)
    → IsConsistent e
    → has_fd h e.poll_devices ≡ false
    → IsConsistent (add_entry h dev e).1
add_entry-IsConsistent h dev e c n = record {
  distinct = DistinctFds-append e.poll_devices (new_entry h) c.distinct n;
  mapped = λ j. ground (
    arith,
    c.mapped j,
    has_key-insert j h dev e.device_mapping,
    has_fd-append j e.poll_devices (new_entry h ∷ []),
  );
}

move_entry-IsConsistent :
    (old h dev : ℕ) (e : Engine)
    → IsConsistent e
    → has_fd old e.poll_devices ≡ true
    → has_fd h e.poll_devices ≡ false
    → IsConsistent (move_entry old h dev e).1
move_entry-IsConsistent old h dev e c p n = record {
  distinct = DistinctFds-with_fd old h e.poll_devices c.distinct p n;
  mapped = λ j. ground (
    arith,
    c.mapped j,
    has_key-insert j h dev (erase_key old e.device_mapping),
    has_key-erase_key j old e.device_mapping,
    has_fd-with_fd j old h e.poll_devices c.distinct p,
  );
}

pub register_new_handle-IsConsistent :
    (old : Option ℕ) (h dev : ℕ) (e : Engine)
    → IsConsistent e
    → has_fd h e.poll_devices ≡ false
    → IsConsistent (register_new_handle old (some h) dev e).1
unfolding register_new_handle
register_new_handle-IsConsistent none h dev e c n = add_entry-IsConsistent h dev e c n
register_new_handle-IsConsistent (some old) h dev e c n =
    elim (Bool-cases (has_fd old e.poll_devices)) [
      | inl polled ↦ rw polled (move_entry-IsConsistent old h dev e c polled n)
      | inr unknown ↦ rw unknown (add_entry-IsConsistent h dev e c n)
    ]

pub de_register_handle-IsConsistent :
    (handle : Option ℕ) (e : Engine) → IsConsistent e → IsConsistent (de_register_handle handle e).1
unfolding de_register_handle
de_register_handle-IsConsistent none e c = c
de_register_handle-IsConsistent (some h) e c = elim (Bool-cases (has_fd h e.poll_devices)) [
  | inl polled ↦ rw polled (record {
    distinct = DistinctFds-erase_first_fd h e.poll_devices c.distinct;
    mapped = λ j. ground (
      arith,
      c.mapped j,
      has_key-erase_key j h e.device_mapping,
      has_fd-erase_first_fd j h e.poll_devices c.distinct,
    );
  })
  | inr unknown ↦ rw unknown (record { distinct = c.distinct; mapped = c.mapped })
]

request_events-IsConsistent :
    (events : ℕ) (handle : Option ℕ) (e : Engine)
    → IsConsistent e
    → IsConsistent (request_events events handle e)
request_events-IsConsistent events none e c = c
request_events-IsConsistent events (some h) e c = record {
  distinct = DistinctFds-with_events h events e.poll_devices c.distinct;
  mapped = λ j. rw (has_fd-with_events j h events e.poll_devices) (c.mapped j);
}

pub request_read-IsConsistent :
    (handle : Option ℕ) (e : Engine) → IsConsistent e → IsConsistent (request_read handle e)
unfolding request_read
request_read-IsConsistent = request_events-IsConsistent pollin

pub request_write-IsConsistent :
    (handle : Option ℕ) (e : Engine) → IsConsistent e → IsConsistent (request_write handle e)
unfolding request_write
request_write-IsConsistent = request_events-IsConsistent pollout
