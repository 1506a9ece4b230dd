-- ===== src/Tests/Sending.antt =====
-- The theorem on the addressed queue at a kernel that keeps what it is given.
use transport_cpp.Prelude.{◌≡◌, refl, true, some, List, [], ◌∷◌, ◌++◌, length}
use transport_cpp.Types.{Bytes, nok, plain, unique, HostAddr, any, ipv4, OutgoingMessage}
use transport_cpp.Engine
use transport_cpp.Os.{value, failed}
use transport_cpp.World.{World}
use transport_cpp.Registry.{register_device}
use transport_cpp.Devices.{register_new_handle}
use transport_cpp.IoDevice.{Virtual, io_data_choice_valid, data_ptr}
use transport_cpp.Sockets.{NetOs, Address}
use transport_cpp.NetworkDevice.{set_net}
use transport_cpp.NetworkDevice.Queue.{rounds}
use transport_cpp.NetworkDevice.Sending.{Takes, rounds-send}
use transport_cpp.Tests.{opened, loaded}

program : Unit {0}
unfolding opened loaded register_device register_new_handle Engine.initial io_data_choice_valid
    data_ptr
program = tt

abbrev pub Mail : Type 0
Mail = List (Bytes × Bytes)

abbrev at_port : HostAddr → Address
at_port host = record { family = 2; socktype = 2; protocol = 17; addr = host.port ∷ [] }

abbrev pub put : Bytes → Bytes → Mail → Mail
put b a s = s ++ (b, a) ∷ []

abbrev pub post : NetOs Mail
post = record {
  get_addr_info = λ hints host s. ((0, at_port host ∷ []), s);
  gai_strerror = λ status. "error";
  socket = λ a s. (failed 24, s);
  connect = λ fd b s. (failed 111, s);
  bind = λ fd b s. (failed 98, s);
  reuse_addr = λ fd s. (value tt, s);
  send_to = λ fd b a s. (value (length b), put b a s);
  recv_from = λ fd n s. (failed 11, s);
  get_sock_name = λ fd s. (failed 9, s);
  errno = λ s. 11;
}

post-Takes : Takes post 7 at_port put
post-Takes = record { resolves = λ hints host s. refl; sends = λ b a s. refl }

abbrev pub inherited : Virtual Mail
inherited = record {
  device_is_ready = λ d w. true;
  ready_error = λ d w. w;
  ready_hangup = λ d w. w;
  ready_peer_disconnect = λ d w. w;
  perform_sync_send = λ d m w. (nok, w);
}

abbrev waiting : List OutgoingMessage
waiting =
    record { addr = record { ip = "10.0.0.1"; port = 53 }; message = plain (1 ∷ []); ip_hint = any }
    ∷ record {
      addr = record { ip = "10.0.0.2"; port = 54 };
      message = unique (some (2 ∷ 3 ∷ []));
      ip_hint = ipv4;
    }
    ∷ []

abbrev queued : Mail → World Mail
queued s = set_net 3 (record { has_network_callback = true; outgoing = waiting }) (loaded s)

abbrev empty : Mail
empty = []

rounds-send_example :
    let w' = rounds post inherited 3 2 (queued empty) in
    ((w'.net 3).outgoing ≡ []) × (w'.sys ≡ (1 ∷ [], 53 ∷ []) ∷ (2 ∷ 3 ∷ [], 54 ∷ []) ∷ [])
unfolding program
rounds-send_example =
    rounds-send at_port put post inherited 3 7 post-Takes waiting (queued empty) refl refl
      (refl, (refl, tt))
