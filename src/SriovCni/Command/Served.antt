-- ===== src/SriovCni/Command/Served.antt =====
-- The requests of the CNI plugin at the server: the port of one pod, and the ports of two.
use ipu_opi_plugins.Prelude.{
  ℕ, ◌+◌, ◌≤◌, ◌<◌, ◌≡◌, ◌≢◌, sym, ◌∙◌, ap, false, Option, none, some, String, List, length,
  get_elem?, ◌==◌, string_eq, arith,
}
use ipu_opi_plugins.Prelude.Int.{pos, IsInt64}
use ipu_opi_plugins.Outcome.{ok}
use ipu_opi_plugins.Dict.{lookup, lookup-erase}
use ipu_opi_plugins.Netlink.{Netlink, Device, IsLawful}
use ipu_opi_plugins.SriovCni.Types.{NetConf}
use ipu_opi_plugins.SriovCni.Command.{port_name, create_request}
use ipu_opi_plugins.SriovCni.Command.Requests.{
  create_request-IsAcceptable, vlan-create_request, port_name_injective,
}
use ipu_opi_plugins.IpuPlugin.BridgePort.{
  BridgePort, State, Plugin, RuleClient, vlan_intf_name, create_bridge_port, delete_bridge_port,
}
use ipu_opi_plugins.IpuPlugin.BridgePort.Devices.{linux_plugin, LeavesDevices, create_links}
use ipu_opi_plugins.IpuPlugin.BridgePort.Names.{interface_of}
use ipu_opi_plugins.IpuPlugin.BridgePort.Retry.{delete_erases}
use ipu_opi_plugins.IpuPlugin.BridgePort.RoundTrip.{delete-create}
use ipu_opi_plugins.IpuPlugin.BridgePort.Runs.{IsAttached, IsSound, Reach-IsSound, here, deleted}

module _ {K : Type 0} {N : Netlink K} {dev : K → String → Option Device} (L : IsLawful N dev)
    (client : RuleClient K) (keeps : LeavesDevices client dev) (br_name uplink : String) where
  abbrev plugin : Plugin K
  plugin = linux_plugin N br_name uplink client

  -- The interface of the pod's port at the node.
  abbrev pub pod_interface : NetConf → ℕ → String
  pod_interface conf v = vlan_intf_name (port_name conf) (pos (v + 2))

  -- In a lawful kernel, with the Linux bridge as the controller and a rule client that changes no
  -- network device: the port that `cmdAdd` asks for, of a virtual function with a number from 0
  -- to 4092 and an address of at most 6 bytes whose second byte is not 0, under a name that is
  -- not in the map and with an interface that is not there. When it is created and then the name
  -- that `cmdDel` gives is deleted, both with success, its vlan interface, of the number of the
  -- virtual function and 2, was in the bridge and up in between, and then the map of ports and
  -- every network device are as they were.
  pub delete-create_request :
      (conf : NetConf) (v : ℕ) (mac : List ℕ) (vsi : ℕ) (s : State K) {resp : BridgePort}
      → conf.vf_id ≡ pos v
      → v ≤ 4092
      → length mac ≤ 6
      → get_elem? mac 1 ≡ some vsi
      → 0 < vsi
      → lookup (port_name conf) s.ports ≡ none
      → dev s.system (pod_interface conf v) ≡ none
      → (create_bridge_port
          (linux_plugin N br_name uplink client)
          (some (create_request conf mac))
          s).0
        ≡ ok resp
      → (delete_bridge_port
          (linux_plugin N br_name uplink client)
          (port_name conf)
          (create_bridge_port
            (linux_plugin N br_name uplink client)
            (some (create_request conf mac))
            s).1).0
        ≡ ok tt
      → let made =
          (create_bridge_port
            (linux_plugin N br_name uplink client)
            (some (create_request conf mac))
            s).1 in
        let back =
          (delete_bridge_port (linux_plugin N br_name uplink client) (port_name conf) made).1 in
        IsAttached br_name (dev made.system (pod_interface conf v))
        × (back.ports ≡ s.ports)
        × ((j : String) → dev back.system j ≡ dev s.system j)
  unfolding create_request
  delete-create_request conf v mac vsi s e bound short second positive fresh free made gone =
      let fit = create_request-IsAcceptable conf v mac vsi e bound short second positive in
      let vlan = vlan-create_request conf v mac e (omega arith) fit in
      let place = ap (λ n. vlan_intf_name (port_name conf) (pos n)) vlan in
      let port = create_request conf mac in
      let (d, there, kind, mastered, upped, _) =
        create_links L client keeps br_name uplink port s fit fresh made in
      let (ports, devices) =
        delete-create L client keeps br_name uplink port s fit fresh
          (ap (dev s.system) (sym place) ∙ free) made gone in
      let after = (create_bridge_port plugin (some port) s).1.system in
      ((d, ap (dev after) place ∙ there, kind, mastered, upped), ports, devices)

  differs : (a b : String) → a ≢ b → (a == b) ≡ false
  differs a b h = ground arith

  -- In a lawful kernel, with the Linux bridge as the controller and a rule client that changes no
  -- network device: for configurations with the same master and different 64-bit numbers of
  -- virtual functions, in a state in which every port in the map is acceptable, up and kept under
  -- its own name and has its vlan interface in the bridge and up, a successful deletion of the
  -- port of one keeps the port of the other in the map, with its interface in the bridge and up.
  pub delete_keeps_other :
      (conf other : NetConf) (s : State K) (port : BridgePort)
      → IsInt64 conf.vf_id
      → IsInt64 other.vf_id
      → conf.master ≡ other.master
      → conf.vf_id ≢ other.vf_id
      → IsSound L client keeps br_name uplink s
      → lookup (port_name other) s.ports ≡ some port
      → (delete_bridge_port (linux_plugin N br_name uplink client) (port_name conf) s).0 ≡ ok tt
      → let left =
          (delete_bridge_port (linux_plugin N br_name uplink client) (port_name conf) s).1 in
        (lookup (port_name other) left.ports ≡ some port)
        × IsAttached br_name (dev left.system (interface_of (port_name other) port))
  delete_keeps_other conf other s port fits fits' same distinct sound there gone =
      let apart : (port_name conf == port_name other) ≡ false =
        differs (port_name conf) (port_name other)
          (λ e. distinct (port_name_injective conf other fits fits' same e)) in
      let stays =
        ap (lookup (port_name other)) (delete_erases plugin (port_name conf) s gone)
        ∙ lookup-erase (port_name other) (port_name conf) s.ports
        ∙ rw apart there in
      let left =
        Reach-IsSound L client keeps br_name uplink sound (deleted (port_name conf) here gone) in
      (stays, left.in_sync (port_name other) port stays)
