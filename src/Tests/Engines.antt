-- ===== src/Tests/Engines.antt =====
-- The theorems on engines and devices at concrete states.
use transport_cpp.Prelude.{ℕ, ◌≡◌, refl, true, false, none, some, lookup, mem, arith}
use transport_cpp.Types.{ok}
use transport_cpp.Engine.{handle_in_list}
use transport_cpp.Engine
use transport_cpp.Engine.Tables.{has_fd}
use transport_cpp.World.{World}
use transport_cpp.World.Invariant.{IsWellFormed}
use transport_cpp.Registry.{
  register_device, de_register_device, de_register_bounded, destroy_engine, deload_engine,
}
use transport_cpp.Registry.Admit.{register_device-IsWellFormed, register_device-serves}
use transport_cpp.Registry.Release.{de_register_device-releases}
use transport_cpp.Registry.Rounds.{de_register_bounded-returns}
use transport_cpp.Registry.Destructor.{destroy_engine_overruns}
use transport_cpp.Devices.{register_new_handle, destroy_handle}
use transport_cpp.Devices.Handles.{register_new_handle-IsWellFormed, destroy_handle_unloaded_twice}
use transport_cpp.Devices.Steps.{
  here, next, registers, opens, destroys_handle, Reach-IsWellFormed, new_world,
  new_world-IsWellFormed,
}
use transport_cpp.Tests.{boot, quiet, opened, loaded}

program : Unit {0}
unfolding opened loaded register_device register_new_handle Engine.register_new_handle
    Engine.initial Engine.set_error destroy_handle deload_engine Engine.de_register_handle
    de_register_device
program = tt

opened-IsWellFormed : IsWellFormed (opened boot)
unfolding opened Engine.initial
opened-IsWellFormed =
    register_new_handle-IsWellFormed 3 7 (new_world boot) (new_world-IsWellFormed boot)
      (λ e h. refl)

pub loaded-valid : IsWellFormed (loaded boot)
unfolding program
loaded-valid = register_device-IsWellFormed 1 3 (opened boot) opened-IsWellFormed refl

register_device-serves_example :
    let w' = (register_device 1 3 (opened boot)).1 in
    ((w'.devices 3).engine ≡ some 1)
    × (mem 3 (w'.engines 1).device_list ≡ true)
    × (lookup 7 (w'.engines 1).device_mapping ≡ some 3)
    × (has_fd 7 (w'.engines 1).poll_devices ≡ true)
unfolding program
register_device-serves_example =
    register_device-serves 1 3 7 (opened boot) opened-IsWellFormed refl refl

de_register_device-releases_example :
    let (code, w') = de_register_device 1 3 (loaded boot) in
    (code ≡ ok)
    × ((w'.devices 3).engine ≡ none)
    × (mem 3 (w'.engines 1).device_list ≡ false)
    × (handle_in_list (w'.devices 3).handle (w'.engines 1).poll_devices ≡ false)
unfolding program
de_register_device-releases_example =
    de_register_device-releases 1 3 (loaded boot) loaded-valid refl

de_register_bounded-returns_example :
    de_register_bounded 2 2 3 (loaded boot) ≡ some (de_register_device 2 3 (loaded boot))
de_register_bounded-returns_example = de_register_bounded-returns 0 2 3 (loaded boot)

-- Open, register, open another handle for the device, destroy it.
abbrev last : World ℕ
last = destroy_handle quiet 3 (register_new_handle 3 (some 8) (loaded boot))

Reach-IsWellFormed_example : IsWellFormed last
unfolding program
Reach-IsWellFormed_example =
    Reach-IsWellFormed quiet
      (next
        (next (next (next here (opens 3 7 (λ e h. refl))) (registers 1 3 refl))
          (opens 3 8 (λ e h. ground arith)))
        (destroys_handle 3))
      (new_world-IsWellFormed boot)

-- Two devices in engine 1.
two : World ℕ
unfolding loaded
two = (register_device 1 4 (register_new_handle 4 (some 9) (loaded boot))).1

two-valid : IsWellFormed two
unfolding program two
two-valid =
    register_device-IsWellFormed 1 4 _
      (register_new_handle-IsWellFormed 4 9 (loaded boot) loaded-valid (λ e h. ground arith)) refl

destroy_engine_overruns_example : destroy_engine 1 two ≡ none
unfolding program two
destroy_engine_overruns_example = destroy_engine_overruns 1 two two-valid (omega arith)

destroy_handle_unloaded_twice_example :
    let w' = destroy_handle quiet 3 (opened boot) in
    ((w'.devices 3).handle ≡ some 7)
    × ((destroy_handle quiet 3 w').sys ≡ quiet.close 7 (quiet.close 7 (opened boot).sys))
unfolding program
destroy_handle_unloaded_twice_example =
    destroy_handle_unloaded_twice quiet 3 7 (opened boot) refl refl
