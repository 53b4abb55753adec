-- ===== src/Tests/LifeCycle.antt =====
-- The life cycle service on a node with one physical function that leads to the daemon.
use ipu_opi_plugins.Prelude.{
  ap, ◌≡◌, ◌≢◌, refl, Bool, true, false, some, String, List, [], ◌∷◌, arith, ◌==◌, string_eq,
  nat_eq, if◌then◌else◌,
}
use ipu_opi_plugins.Prelude.Int.{pos, to_int32}
use ipu_opi_plugins.Outcome.{ok, err}
use ipu_opi_plugins.Text.Space.{trim_space, split}
use ipu_opi_plugins.Text.Hardware.{hardware_string}
use ipu_opi_plugins.Netlink.{Link, new_link, plain}
use ipu_opi_plugins.IpuPlugin.LifeCycle.{
  no_pf, System, Addr, IpPort, LifeCycleService, is_pf, get_filtered_pfs, get_comm_pf, set_ip,
  configure_channel, init,
}
use ipu_opi_plugins.IpuPlugin.LifeCycle.Selection.{Tests}
use ipu_opi_plugins.IpuPlugin.LifeCycle.Channel.{Assigns, init-Assigns}

abbrev link : Link
link = record (new_link plain "ens1f0d3") { hardware_addr = 0 ∷ 1 ∷ 0 ∷ 3 ∷ 2 ∷ 20 ∷ [] }

-- The state is the list of the addresses that were added.
abbrev test_system : System (List (String × Addr))
test_system = record {
  link_list = λ k. some (link ∷ []);
  addr_list = λ k l. some [];
  addr_add = λ l a k. (true, (l.name, a) ∷ k);
  get_device = λ k name. some "0x1452\n";
  get_vendor = λ k name. some "0x8086\n";
  parse_ip4 = λ s. some (192 ∷ 168 ∷ 1 ∷ 1 ∷ []);
}

abbrev service : LifeCycleService
service = record {
  daemon_host_ip = "192.168.1.1";
  daemon_ipu_ip = "192.168.1.2";
  daemon_port = pos 50151;
  mode = "host";
}

abbrev after : List (String × Addr)
after = (init test_system service false []).1

abbrev answer : IpPort
answer = record { ip = "192.168.1.2"; port = to_int32 (pos 50151) }

inits : init test_system service false [] ≡ (ok answer, after)
unfolding init configure_channel get_filtered_pfs is_pf get_comm_pf set_ip trim_space split
    hardware_string string_eq nat_eq
inits = refl

finds : get_comm_pf test_system "host" [] (link ∷ []) ≡ ok link
unfolding get_comm_pf split hardware_string string_eq nat_eq
finds = refl

misses : get_comm_pf test_system "ipu" [] (link ∷ []) ≡ err no_pf
unfolding get_comm_pf split hardware_string string_eq nat_eq
misses = refl

init-Assigns_example :
    (answer ≡ record { ip = service.daemon_ipu_ip; port = to_int32 service.daemon_port })
    × (service.mode ≡ (if false then "ipu" else "host"))
    × ((l : Link) × Tests test_system true service.mode [] l
        × Assigns test_system l
            (if false then service.daemon_host_ip else service.daemon_ipu_ip)
            []
            after)
init-Assigns_example = init-Assigns test_system service false [] after answer inits

not_ipu : service.mode ≢ (if true then "ipu" else "host")
unfolding string_eq
not_ipu e = let f : ◌≡◌ {A = Bool} false true = ap (λ s. s == "ipu") e in ground arith
