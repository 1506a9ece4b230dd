-- ===== src/Registry/Effects.antt =====
-- What one engine's tables look like after a handle is registered or dropped, seen through lookups.
use transport_cpp.Prelude.{
  ℕ, ◌≡◌, refl, ◌==◌, if◌then◌else◌, false, Option, none, some, lookup, lookup-insert,
  lookup-erase_key, lookup-eq-none, erase_key, arith, ◌∙◌,
}
use transport_cpp.Engine.{Engine, register_new_handle, de_register_handle, set_error}
use transport_cpp.Engine.Tables.{has_fd}
use transport_cpp.Engine.Handles.{IsConsistent}

-- What a look-up finds when the entry of one handle is taken out.
abbrev pub without : Option ℕ → ℕ → Option ℕ → Option ℕ
without none j r = r
without (some h) j r = if h == j then none else r

pub lookup-de_register_handle :
    (handle : Option ℕ) (j : ℕ) (g : Engine)
    → IsConsistent g
    → lookup j (de_register_handle handle g).1.device_mapping
      ≡ without handle j (lookup j g.device_mapping)
unfolding de_register_handle set_error
lookup-de_register_handle none j g c = refl
lookup-de_register_handle (some h) j g c =
    ground (arith, c.mapped h, lookup-erase_key j h g.device_mapping)

pub device_list-de_register_handle :
    (handle : Option ℕ) (g : Engine) → (de_register_handle handle g).1.device_list ≡ g.device_list
unfolding de_register_handle set_error
device_list-de_register_handle none g = refl
device_list-de_register_handle (some h) g = ground arith

pub lookup-register_new_handle :
    (old : Option ℕ) (h dev j : ℕ) (g : Engine)
    → IsConsistent g
    → has_fd h g.poll_devices ≡ false
    → lookup j (register_new_handle old (some h) dev g).1.device_mapping
      ≡ (if h == j then some dev else without old j (lookup j g.device_mapping))
unfolding register_new_handle
lookup-register_new_handle none h dev j g c n =
    lookup-insert j h dev g.device_mapping (lookup-eq-none h g.device_mapping (c.mapped h ∙ n))
lookup-register_new_handle (some old) h dev j g c n = ground (
  arith,
  c.mapped h,
  c.mapped old,
  c.mapped j,
  lookup-insert j h dev g.device_mapping,
  lookup-insert j h dev (erase_key old g.device_mapping),
  lookup-erase_key h old g.device_mapping,
  lookup-erase_key j old g.device_mapping,
)

pub device_list-register_new_handle :
    (old new : Option ℕ) (dev : ℕ) (g : Engine)
    → (register_new_handle old new dev g).1.device_list ≡ g.device_list
unfolding register_new_handle
device_list-register_new_handle old none dev g = refl
device_list-register_new_handle none (some h) dev g = refl
device_list-register_new_handle (some old) (some h) dev g = ground arith
