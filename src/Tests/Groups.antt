-- ===== src/Tests/Groups.antt =====
-- A multicaster that publishes a second group.
use transport_cpp.Prelude.{
  ℕ, ◌≡◌, if◌then◌else◌, Option, List, String, refl, true, false, none, some, [], ◌∷◌, arith,
}
use transport_cpp.Types.{Bytes, IoDataChoice, plain, unique, HostAddr, ipv4}
use transport_cpp.Os.{value}
use transport_cpp.Multicaster.{GroupOs, CasterWorld, bytes_eq}
use transport_cpp.Multicaster.Groups.{publish_to_group}
use transport_cpp.Multicaster.Interface.{no_interface}
use transport_cpp.Multicaster.Publishing.{Published, publish_to_group-Published}
use transport_cpp.Engine
use transport_cpp.Registry.{register_device}
use transport_cpp.Devices.{register_new_handle}
use transport_cpp.IoDevice.{set_io, io_data_choice_valid, data_ptr}
use transport_cpp.Interfaces.{
  IfAddr, InterfaceOs, address, broadcast_loop, get_local_broadcaster_addr,
}
use transport_cpp.Interfaces.Broadcasting.{
  broadcast_of, ipv4_of, any_named, get_local_broadcaster_addr-broadcast_of,
}
use transport_cpp.Multicaster.Sending.{rounds, pieces, send_all, rounds-publish}
use transport_cpp.Tests.{boot, opened, loaded}
use transport_cpp.Tests.Sending.{Mail, post, inherited}

-- Every text is read as 239.0.0.1.
abbrev one_group : GroupOs ℕ
one_group = record {
  pton = λ family ip s. (value (some (239 ∷ 0 ∷ 0 ∷ 1 ∷ [])), s);
  set_sock_opt = λ sock o s. (value tt, s);
  if_name_to_index = λ name s. (1, s);
}

abbrev caster : CasterWorld ℕ
caster = record {
  world = loaded boot;
  casters = λ d. record {
    initialised = true;
    ip_version = ipv4;
    set_interface = no_interface;
    published_sock_addr = some (2 ∷ 0 ∷ []);
    published_addr = none;
    subscribed_addr = none;
  };
}

abbrev group : HostAddr
group = record { ip = "239.0.0.1"; port = 4096 }

publish_to_group-Published_example :
    Published one_group 3 group ipv4
      (239 ∷ 0 ∷ 0 ∷ 1 ∷ [])
      caster
      (publish_to_group one_group 3 group caster)
publish_to_group-Published_example =
    publish_to_group-Published one_group 3 group ipv4 (239 ∷ 0 ∷ 0 ∷ 1 ∷ []) (loaded boot).sys
      caster refl refl refl (omega arith, omega arith, omega arith, omega arith)

program : Unit {0}
unfolding loaded opened register_device register_new_handle Engine.register_new_handle
    Engine.initial io_data_choice_valid data_ptr broadcast_loop get_local_broadcaster_addr
program = tt

abbrev queued : List IoDataChoice
queued = plain (1 ∷ 2 ∷ []) ∷ unique (some (3 ∷ [])) ∷ []

-- Two messages wait at a multicaster that publishes to a group.
abbrev posting : CasterWorld Mail
posting = record {
  world = set_io 3 (record { has_callback = false; queue = queued }) (loaded {S = Mail} []);
  casters = caster.casters;
}

rounds-publish_example :
    let u' = rounds post inherited 3 7 (2 ∷ 0 ∷ []) 2 posting in
    ((u'.world.io 3).queue ≡ [])
    × (u'.world.sys ≡ send_all post inherited 3 7 (2 ∷ 0 ∷ []) (pieces queued posting.world) [])
unfolding program
rounds-publish_example =
    rounds-publish post inherited 3 7 (2 ∷ 0 ∷ []) queued posting refl refl refl (refl, (refl, tt))

abbrev entry : String → Option (ℕ × Bytes) → Bytes → IfAddr
entry name addr mask = record { name = name; addr = addr; netmask = some mask }

-- "lo" has addresses of other families before its IPv4 address.
abbrev interfaces : InterfaceOs ℕ
interfaces = record {
  get_if_addrs = λ s. (
    entry "eth0" (some (2, 10 ∷ 0 ∷ 0 ∷ 1 ∷ [])) (255 ∷ 0 ∷ 0 ∷ 0 ∷ [])
        ∷ entry "lo" none []
        ∷ entry "lo" (some (17, [])) []
        ∷ entry "lo" (some (2, 192 ∷ 168 ∷ 1 ∷ 7 ∷ [])) (255 ∷ 255 ∷ 255 ∷ 0 ∷ [])
        ∷ [],
    s,
  );
  ntop = λ family b. if bytes_eq b (192 ∷ 168 ∷ 1 ∷ 255 ∷ []) then "192.168.1.255" else "other";
}

get_local_broadcaster_addr-broadcast_of_example :
    let list = (interfaces.get_if_addrs boot).0 in
    get_local_broadcaster_addr interfaces "lo" boot
    ≡ (broadcast_of interfaces.ntop (ipv4_of "lo" list) (any_named "lo" list), boot)
get_local_broadcaster_addr-broadcast_of_example =
    get_local_broadcaster_addr-broadcast_of interfaces "lo" boot (
      ((omega arith, (omega arith, (omega arith, (omega arith, tt)))), refl),
      ((omega arith, (omega arith, (omega arith, (omega arith, tt)))), refl),
      tt,
    )

found_address : (get_local_broadcaster_addr interfaces "lo" boot).0 ≡ address "192.168.1.255"
unfolding program
found_address = refl
