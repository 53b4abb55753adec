-- ===== src/Tests/BridgePort.antt =====
-- The bridge port service on a node with an uplink and a bridge, in memory.
use ipu_opi_plugins.Prelude.{
  ◌&&◌, ◌≡◌, ◌≢◌, refl, true, false, none, some, String, [], ◌∷◌, arith, ◌==◌, string_eq, nat_eq,
  if◌then◌else◌,
}
use ipu_opi_plugins.Prelude.Int.{pos}
use ipu_opi_plugins.Outcome.{ok}
use ipu_opi_plugins.Dict.{lookup, insert, erase}
use ipu_opi_plugins.Text.Decimal.{atoi, format}
use ipu_opi_plugins.Netlink.{LinkType, new_link, Device, bridge, plain}
use ipu_opi_plugins.Netlink.Memory.{Kernel, device_of, memory, memory-IsLawful}
use ipu_opi_plugins.IpuPlugin.BridgePort.{
  BridgePortSpec, BridgePort, State, Plugin, RuleClient, vlan_intf_name, create_bridge_port,
  delete_bridge_port, create_and_set_up_vlan, add_bridge_port, remove_bridge_port,
  remove_vlan_interface,
}
use ipu_opi_plugins.IpuPlugin.Bridge.Linux.{add_port, delete_port}
use ipu_opi_plugins.IpuPlugin.BridgePort.Validation.{IsAcceptable}
use ipu_opi_plugins.IpuPlugin.BridgePort.Ports.{
  is_answered, as_up, as_up-IsAcceptable, Answers, IsValid,
}
use ipu_opi_plugins.IpuPlugin.BridgePort.Devices.{linux_plugin, LeavesDevices}
use ipu_opi_plugins.IpuPlugin.BridgePort.RoundTrip.{delete-create}
use ipu_opi_plugins.IpuPlugin.BridgePort.Devices.{create_links, delete_links}
use ipu_opi_plugins.IpuPlugin.BridgePort.Validation.{create_refused}
use ipu_opi_plugins.IpuPlugin.BridgePort.Ports.{create-Answers, create-IsValid, delete-IsValid}

-- Rules that always load.
abbrev pub idle : RuleClient Kernel
idle = record { add_rules = λ mac vlan k. (ok tt, k); delete_rules = λ mac vlan k. (ok tt, k) }

pub idle-LeavesDevices : LeavesDevices idle device_of
idle-LeavesDevices = record {
  add_rules_lem = λ mac v k j. refl;
  delete_rules_lem = λ mac v k j. refl;
}

abbrev device : LinkType → String → Device
device t n = record { link = new_link t n; master = none; up = true }

abbrev node : Kernel
node = record {
  devices = ("eth0", device plain "eth0") ∷ ("br0", device bridge "br0") ∷ [];
  next_index = 3;
}

abbrev test_spec : BridgePortSpec
test_spec = record {
  ptype = 1;
  mac_address = 0 ∷ 7 ∷ 1 ∷ 2 ∷ 3 ∷ 4 ∷ [];
  logical_bridges = "5" ∷ [];
}

abbrev pub test_port : BridgePort
test_port = record { name = "p"; spec = some test_spec; status = none }

abbrev pub start : State Kernel
start = record { ports = []; system = node }

five : atoi "5" ≡ some (pos 5)
unfolding atoi nat_eq
five = refl

too_large : atoi "4095" ≡ some (pos 4095)
unfolding atoi nat_eq
too_large = refl

abbrev test_fit : IsAcceptable test_port
test_fit = record {
  spec = test_spec;
  given = refl;
  short = omega arith;
  vsi = 7;
  second = refl;
  vsi_pos = omega arith;
  first = "5";
  bridged = refl;
  vlan = 5;
  parsed = five;
  vlan_low = omega arith;
  vlan_high = omega arith;
}

abbrev pub test_plugin : Plugin Kernel
test_plugin = linux_plugin memory "br0" "eth0" idle

abbrev pub created : State Kernel
created = (create_bridge_port test_plugin (some test_port) start).1

abbrev deleted : State Kernel
deleted = (delete_bridge_port test_plugin "p" created).1

pub creates : (create_bridge_port test_plugin (some test_port) start).0 ≡ ok (as_up test_port)
unfolding create_bridge_port add_bridge_port create_and_set_up_vlan add_port memory atoi format
    lookup insert string_eq nat_eq
creates = refl

pub deletes : (delete_bridge_port test_plugin "p" created).0 ≡ ok tt
unfolding create_bridge_port add_bridge_port create_and_set_up_vlan add_port delete_bridge_port
    remove_bridge_port remove_vlan_interface delete_port memory atoi format lookup insert erase
    string_eq nat_eq
deletes = refl

interface_absent : device_of node (vlan_intf_name "p" (pos 5)) ≡ none
unfolding lookup format string_eq nat_eq
interface_absent = refl

port_absent : lookup "p" start.ports ≡ none
unfolding lookup
port_absent = refl

port_there : lookup "p" created.ports ≡ some (as_up test_port)
unfolding create_bridge_port add_bridge_port create_and_set_up_vlan add_port memory atoi format
    lookup insert string_eq nat_eq
port_there = refl

delete-create_example :
    (deleted.ports ≡ start.ports)
    × ((j : String) → device_of deleted.system j ≡ device_of start.system j)
delete-create_example =
    delete-create memory-IsLawful idle idle-LeavesDevices "br0" "eth0" test_port start test_fit
      port_absent interface_absent creates deletes

create_links_example :
    (d : Device) × (device_of created.system (vlan_intf_name "p" (pos test_fit.vlan)) ≡ some d)
    × (d.link.link_type ≡ LinkType.vlan)
    × (d.master ≡ some "br0")
    × (d.up ≡ true)
    × ((j : String)
        → (vlan_intf_name "p" (pos test_fit.vlan) == j) ≡ false
        → device_of created.system j ≡ device_of start.system j)
create_links_example =
    create_links memory-IsLawful idle idle-LeavesDevices "br0" "eth0" test_port start test_fit
      port_absent creates

delete_links_example :
    device_of deleted.system "eth0"
    ≡ (if vlan_intf_name "p" (pos 5) == "eth0" then none else device_of created.system "eth0")
delete_links_example =
    delete_links memory-IsLawful idle idle-LeavesDevices "br0" "eth0" "p" created (as_up test_port)
      (as_up-IsAcceptable test_port test_fit) port_there deletes "eth0"

nothing-IsValid : IsValid start
unfolding lookup
nothing-IsValid name port h = ground arith

create-IsValid_example : IsValid created
create-IsValid_example = create-IsValid test_plugin test_port start nothing-IsValid

delete-IsValid_example :
    IsValid deleted
    × ((other : String)
        → lookup other deleted.ports ≡ (
            if is_answered (delete_bridge_port test_plugin "p" created).0 && "p" == other
            then none
            else lookup other created.ports))
delete-IsValid_example = delete-IsValid test_plugin "p" created create-IsValid_example

create-Answers_example :
    Answers test_port start (create_bridge_port test_plugin (some test_port) start)
create-Answers_example = create-Answers test_plugin test_port start

-- A port with a VLAN number that is too large.
abbrev wide_port : BridgePort
wide_port = record test_port { spec = some (record test_spec { logical_bridges = "4095" ∷ [] }) }

wide_port-refused : ¬ IsAcceptable wide_port
wide_port-refused fit =
    let a = fit.given in
    let b = fit.bridged in
    let c = fit.parsed in let d = fit.vlan_high in let e = too_large in ground arith

create_refused_example :
    ((resp : BridgePort) → (create_bridge_port test_plugin (some wide_port) start).0 ≢ ok resp)
    × ((create_bridge_port test_plugin (some wide_port) start).1 ≡ start)
create_refused_example = create_refused test_plugin wide_port start wide_port-refused
