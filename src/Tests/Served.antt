-- ===== src/Tests/Served.antt =====
-- Two pods on virtual functions of ens1, at the server of a node in memory.
use ipu_opi_plugins.Prelude.{◌≡◌, ◌≢◌, refl, ℕ, none, some, String, arith, string_eq, nat_eq}
use ipu_opi_plugins.Prelude.Int.{ℤ, pos, wrap64, ◌+ℤ◌}
use ipu_opi_plugins.Outcome.{ok}
use ipu_opi_plugins.Dict.{lookup, insert, erase}
use ipu_opi_plugins.Text.Decimal.{atoi, format}
use ipu_opi_plugins.Netlink.Memory.{Kernel, device_of, memory, memory-IsLawful}
use ipu_opi_plugins.IpuPlugin.BridgePort.{
  vlan_intf_name, BridgePort, State, create_bridge_port, delete_bridge_port, create_and_set_up_vlan,
  add_bridge_port, remove_bridge_port, remove_vlan_interface,
}
use ipu_opi_plugins.IpuPlugin.Bridge.Linux.{add_port, delete_port}
use ipu_opi_plugins.IpuPlugin.BridgePort.Ports.{as_up}
use ipu_opi_plugins.IpuPlugin.BridgePort.Names.{interface_of}
use ipu_opi_plugins.IpuPlugin.BridgePort.Runs.{
  Reach, here, created, IsAttached, IsSound, empty-IsSound, Reach-IsSound,
}
use ipu_opi_plugins.SriovCni.Command.{port_name, create_request}
use ipu_opi_plugins.SriovCni.Command.Served.{delete-create_request, delete_keeps_other}
use ipu_opi_plugins.Tests.BridgePort.{idle, idle-LeavesDevices, start, test_plugin}
use ipu_opi_plugins.Tests.Requests.{conf_for, test_mac}

abbrev request : ℕ → BridgePort
request v = create_request (conf_for "ens1" v) test_mac

abbrev one : State Kernel
one = (create_bridge_port test_plugin (some (request 1)) start).1

abbrev two : State Kernel
two = (create_bridge_port test_plugin (some (request 2)) one).1

abbrev first : String
first = port_name (conf_for "ens1" 1)

abbrev second : String
second = port_name (conf_for "ens1" 2)

makes_one : (create_bridge_port test_plugin (some (request 1)) start).0 ≡ ok (as_up (request 1))
unfolding create_bridge_port add_bridge_port create_and_set_up_vlan add_port memory atoi format
    lookup insert string_eq nat_eq create_request port_name wrap64 ◌+ℤ◌
makes_one = refl

makes_two : (create_bridge_port test_plugin (some (request 2)) one).0 ≡ ok (as_up (request 2))
unfolding create_bridge_port add_bridge_port create_and_set_up_vlan add_port memory atoi format
    lookup insert string_eq nat_eq create_request port_name wrap64 ◌+ℤ◌
makes_two = refl

takes_one : (delete_bridge_port test_plugin first one).0 ≡ ok tt
unfolding create_bridge_port add_bridge_port create_and_set_up_vlan add_port delete_bridge_port
    remove_bridge_port remove_vlan_interface delete_port memory atoi format lookup insert erase
    string_eq nat_eq create_request port_name wrap64 ◌+ℤ◌
takes_one = refl

takes_one_of_two : (delete_bridge_port test_plugin first two).0 ≡ ok tt
unfolding create_bridge_port add_bridge_port create_and_set_up_vlan add_port delete_bridge_port
    remove_bridge_port remove_vlan_interface delete_port memory atoi format lookup insert erase
    string_eq nat_eq create_request port_name wrap64 ◌+ℤ◌
takes_one_of_two = refl

has_two : lookup second two.ports ≡ some (as_up (request 2))
unfolding create_bridge_port add_bridge_port create_and_set_up_vlan add_port memory atoi format
    lookup insert string_eq nat_eq create_request port_name wrap64 ◌+ℤ◌
has_two = refl

free : device_of start.system (vlan_intf_name first (pos 3)) ≡ none
unfolding lookup string_eq format port_name nat_eq
free = refl

fresh : lookup first start.ports ≡ none
unfolding lookup
fresh = refl

delete-create_request_example :
    IsAttached "br0" (device_of one.system (vlan_intf_name first (pos 3)))
    × ((delete_bridge_port test_plugin first one).1.ports ≡ start.ports)
    × ((j : String)
        → device_of (delete_bridge_port test_plugin first one).1.system j
          ≡ device_of start.system j)
delete-create_request_example =
    delete-create_request memory-IsLawful idle idle-LeavesDevices "br0" "eth0" (conf_for "ens1" 1) 1
      test_mac 8 start refl (omega arith) (omega arith) refl (omega arith) fresh free makes_one
      takes_one

goes : Reach test_plugin start two
goes =
    created (request 2) (as_up (request 2)) (created (request 1) (as_up (request 1)) here makes_one)
      makes_two

two-IsSound : IsSound memory-IsLawful idle idle-LeavesDevices "br0" "eth0" two
two-IsSound =
    Reach-IsSound memory-IsLawful idle idle-LeavesDevices "br0" "eth0"
      (empty-IsSound memory-IsLawful idle idle-LeavesDevices "br0" "eth0" start refl) goes

other_number : ◌≢◌ {A = ℤ} (pos 1) (pos 2)
other_number e = ground arith

delete_keeps_other_example :
    (lookup second (delete_bridge_port test_plugin first two).1.ports ≡ some (as_up (request 2)))
    × IsAttached "br0" (
        device_of
          (delete_bridge_port test_plugin first two).1.system
          (interface_of second (as_up (request 2))))
delete_keeps_other_example =
    delete_keeps_other memory-IsLawful idle idle-LeavesDevices "br0" "eth0" (conf_for "ens1" 1)
      (conf_for "ens1" 2) two (as_up (request 2)) (omega arith) (omega arith) refl other_number
      two-IsSound has_two takes_one_of_two
