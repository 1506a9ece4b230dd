-- ===== src/Tests/Reconnects.antt =====
-- Closing endpoints and opening them again at concrete states.
use transport_cpp.Prelude.{ℕ, ◌≡◌, refl, Bool, false, some, arith, fun_ext}
use transport_cpp.Types.{ReturnCode, ok, HostAddr, any}
use transport_cpp.Engine
use transport_cpp.Engine.Tables.{has_fd}
use transport_cpp.Os.{Outcome, value, failed}
use transport_cpp.Os.OpenFiles.{Files, without_handle}
use transport_cpp.World.Invariant.{IsWellFormed}
use transport_cpp.Registry.{register_device}
use transport_cpp.Devices.{register_new_handle}
use transport_cpp.Sockets.{inet}
use transport_cpp.NetworkDevice.Open.{create_and_bind_socket}
use transport_cpp.Endpoints.{NetWorld}
use transport_cpp.Endpoints.Reopening.{Closed, Reopened}
use transport_cpp.TcpClient
use transport_cpp.TcpClient.Reading.{ready_read-closes}
use transport_cpp.TcpClient.Reconnect.{connect_to_host-Reopened}
use transport_cpp.TcpServer.{ServerOs, listen, notify_new_peer, is_bound}
use transport_cpp.TcpServer
use transport_cpp.TcpServer.Binding.{Bound, bind-Bound, bind_without_listening}
use transport_cpp.Tests.{boot, quiet, opened, loaded}
use transport_cpp.Tests.Engines.{loaded-valid}
use transport_cpp.Tests.Peers.{device, echoing}
use transport_cpp.Tests.Ports.{
  Handles, is_open, no_handles, files, files-Files, net, net-SocketFiles, host,
}

program : Unit {0}
unfolding opened loaded register_device register_new_handle Engine.register_new_handle
    Engine.initial
program = tt

-- On the kernel where nothing happens no handle counts as open.
abbrev none_open : ℕ → ℕ → Bool
none_open s h = false

quiet-Files : Files quiet none_open
quiet-Files = record {
  closes = λ h s. fun_ext (λ k. ground arith);
  get_flags_keeps = λ h s. refl;
  set_flags_keeps = λ h flags s. refl;
  no_minus_one = λ s. refl;
}

ready_read-closes_example :
    (u : NetWorld ℕ) × (TcpClient.ready_read quiet echoing 1 3 (device boot)
      ≡ some (echoing.disconnected 3 u))
    × Closed none_open 3 (some 1) (without_handle 7 (none_open boot)) u
    × (has_fd 7 (u.world.engines 1).poll_devices ≡ false)
    × IsWellFormed u.world
unfolding program
ready_read-closes_example =
    ready_read-closes quiet echoing none_open quiet-Files 0 3 1 7 (device boot) boot loaded-valid
      refl refl refl refl

-- A kernel in which one connection waits, and `listen` fails or not.
abbrev pub accepting : {S : Type 0} → Outcome (Unit {0}) → ServerOs S
accepting listened = record {
  listen = λ fd s. (listened, s);
  accept = λ fd s. (value 8, inet (value "10.0.0.2") 4000, s);
}

abbrev pub caller : HostAddr
caller = record { ip = "10.0.0.2"; port = 4000 }

connect_to_host-Reopened_example :
    (r : ReturnCode × NetWorld Handles) × (TcpClient.connect_to_host files net 3 3 host any
        (device no_handles)
      ≡ some r)
    × Reopened is_open 3
        (some 1)
        (without_handle 7 (is_open no_handles))
        (record { addr = host; ip_hint = any })
        r
unfolding program
connect_to_host-Reopened_example =
    connect_to_host-Reopened files net is_open files-Files net-SocketFiles 3 3 1 host any
      (device no_handles) refl (omega arith)

-- `listen` fails.
bind-Bound_example :
    (r : ReturnCode × NetWorld Handles) × (TcpServer.bind files
        (accepting (failed 98))
        net
        3
        3
        host
        any
        (device no_handles)
      ≡ some r)
    × Bound is_open 3
        (some 1)
        (without_handle 7 (is_open no_handles))
        (record { addr = host; ip_hint = any })
        r
unfolding program
bind-Bound_example =
    bind-Bound files (accepting (failed 98)) net is_open files-Files (λ fd s. refl) net-SocketFiles
      3 3 1 host any (device no_handles) refl (omega arith)

bind_without_listening_example :
    (u : NetWorld Handles) × (TcpServer.bind files
        (accepting (failed 98))
        net
        3
        3
        host
        any
        (device no_handles)
      ≡ some (ok, u))
    × (is_bound 3 u ≡ false)
unfolding program create_and_bind_socket TcpServer.disconnect
    transport_cpp.IoDevice.register_new_handle
bind_without_listening_example =
    bind_without_listening files (accepting (failed 98)) net is_open files-Files (λ fd s. refl)
      net-SocketFiles 3 3 1 5 98 host any (device no_handles) _ _ refl refl refl refl
