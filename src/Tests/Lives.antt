-- ===== src/Tests/Lives.antt =====
-- Lives of endpoints at concrete states.
use transport_cpp.Prelude.{◌≡◌, refl, true, false, none, [], ◌∷◌, arith}
use transport_cpp.Types.{ReturnCode, any, plain}
use transport_cpp.Engine
use transport_cpp.Os.OpenFiles.{Transfers}
use transport_cpp.Registry.{register_device}
use transport_cpp.Devices.{register_new_handle}
use transport_cpp.Devices.Steps.{new_world}
use transport_cpp.Endpoints.{NetWorld}
use transport_cpp.Endpoints.Lifetime.{Holds}
use transport_cpp.TcpClient.{disconnect, ready_hangup}
use transport_cpp.TcpClient.Reconnect.{connect_to_host-Reopened}
use transport_cpp.TcpClient.Lifetime.{
  HandlersKeep, here, next, connects, disconnects, hangs_up, queues, writes, Reach-Holds,
}
use transport_cpp.TcpClient.Writing.{Traffic}
use transport_cpp.EventLoop.{ready_write}
use transport_cpp.IoDevice.{async_send}
use transport_cpp.Loop.{Program, client, call, virtual_of, join, split}
use transport_cpp.Os.{value}
use transport_cpp.TcpServer.{ServerOs}
use transport_cpp.Tests.Reconnects.{accepting}
use transport_cpp.TcpServer
use transport_cpp.TcpServer.Hangup.{ready_hangup_stays_bound}
use transport_cpp.UdpEndpoints.{disconnect_client}
use transport_cpp.UdpEndpoints.Reconnect.{ready_error-Reopens}
use transport_cpp.UdpEndpoints.Lifetime.{Life, Step, Life-Holds}
use transport_cpp.Tests.{boot, quiet, opened, loaded}
use transport_cpp.Tests.Peers.{device, echoing, with_handlers}
use transport_cpp.Tests.Ports.{
  Handles, is_open, no_handles, files, files-Files, net, net-SocketFiles, host,
}

program : Unit {0}
unfolding opened loaded register_device register_new_handle Engine.register_new_handle
    Engine.initial
program = tt

files-Transfers : Transfers files is_open
files-Transfers = record {
  poll_keeps = λ ps ms s. refl;
  read_keeps = λ h n s. refl;
  write_keeps = λ h b s. refl;
}

-- Device 3 has engine 1 and no handle yet.
abbrev idle : NetWorld Handles
idle = record {
  world = (register_device 1 3 (new_world no_handles)).1;
  endpoints = λ d. record with_handlers { active = false };
}

files-Traffic : Traffic files net is_open
files-Traffic = record { send_keeps = λ fd b a s. refl; now_keeps = λ s. refl }

abbrev of_clients : Program Handles
of_clients = record { class_of = λ d. client; fresh = λ v. 4; handlers = echoing; fuel = 9 }

abbrev serving : ServerOs Handles
serving = accepting (value tt)

abbrev byte_written : NetWorld Handles → NetWorld Handles
byte_written v = split (
    call files net serving of_clients client ready_write 3 (
      join (
        split
          (async_send (virtual_of files net serving of_clients client) 3 (plain (1 ∷ []))
            (join v)).1)))

echoing-HandlersKeep : HandlersKeep files net serving of_clients is_open 3 1
echoing-HandlersKeep base = record {
  message = λ m v holds. holds;
  data_arrived = λ b v holds. holds;
  disconnected = λ v holds. holds;
}

-- The client connects, queues a byte, which the event of writing sends, its peer hangs up, and it
-- disconnects.
Reach-Holds_example :
    (r : ReturnCode × NetWorld Handles) × Holds is_open
      (is_open no_handles)
      3
      1
      (disconnect files 3 (ready_hangup files echoing 3 (byte_written r.1)))
unfolding program
Reach-Holds_example =
    let (r, run, o) =
      connect_to_host-Reopened files net is_open files-Files net-SocketFiles 3 3 1 host any idle
        refl (omega arith) in
    (
      r,
      Reach-Holds files net serving of_clients is_open 3 1 files-Files files-Transfers
          net-SocketFiles files-Traffic echoing-HandlersKeep
          (next
            (next
              (next
                (next (next here (connects 3 host any r (omega arith) run))
                  (queues (plain (1 ∷ []))))
                writes)
              hangs_up)
            disconnects)
          (record { engine = refl; accounts = (refl, refl) }),
    )

ready_hangup_stays_bound_example :
    (TcpServer.is_bound 3 (TcpServer.ready_hangup quiet 3 (device boot)) ≡ true)
    × (((TcpServer.ready_hangup quiet 3 (device boot)).world.devices 3).handle ≡ none)
    × (TcpServer.is_bound 3 (TcpServer.disconnect quiet 3 (device boot)) ≡ false)
    × ((TcpServer.ready_hangup quiet 3 (device boot)).world
        ≡ (TcpServer.disconnect quiet 3 (device boot)).world)
unfolding program
ready_hangup_stays_bound_example = ready_hangup_stays_bound quiet 3 1 (device boot) refl refl

-- An error makes the client connect, and it disconnects.
Life-Holds_example :
    (r : ReturnCode × NetWorld Handles) × Holds is_open
      (is_open no_handles)
      3
      1
      (disconnect_client files 3 r.1)
unfolding program
Life-Holds_example =
    let (r, run, o) =
      (ready_error-Reopens files net is_open files-Files net-SocketFiles 3 3 1 idle refl
        (omega arith)).0 in
    (
      r,
      Life-Holds files net is_open 3 1 files-Files net-SocketFiles
          (Life.next (Life.next Life.here (Step.client_errs 3 r.1 (omega arith) run))
            Step.client_disconnects)
          (record { engine = refl; accounts = (refl, refl) }),
    )
