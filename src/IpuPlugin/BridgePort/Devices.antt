-- ===== src/IpuPlugin/BridgePort/Devices.antt =====
-- What the two handlers leave in a lawful kernel, with the Linux bridge as the controller.
use ipu_opi_plugins.Prelude.{
  ℕ, ◌≡◌, refl, ◌∙◌, ap, true, false, Option, none, some, String, List, arith, ◌==◌, string_eq,
  if◌then◌else◌, ==-refl, get_elem?,
}
use ipu_opi_plugins.Prelude.Int.{ℤ, pos}
use ipu_opi_plugins.Outcome.{ok}
use ipu_opi_plugins.Dict.{lookup}
use ipu_opi_plugins.Text.Decimal.{atoi}
use ipu_opi_plugins.Netlink.{LinkType, Netlink, Device, IsLawful}
use ipu_opi_plugins.IpuPlugin.Bridge.Linux.{linux_bridge_controller, add_port, delete_port}
use ipu_opi_plugins.IpuPlugin.Bridge.Linux.Laws.{add_port_joins, delete_port_leaves}
use ipu_opi_plugins.IpuPlugin.BridgePort.{
  BridgePortSpec, BridgePort, State, Plugin, RuleClient, vlan_intf_name, remove_vlan_interface,
  create_bridge_port, add_bridge_port, delete_bridge_port,
}
use ipu_opi_plugins.IpuPlugin.BridgePort.Validation.{IsAcceptable}
use ipu_opi_plugins.IpuPlugin.BridgePort.Calls.{
  create_vlan_lem, made_vlan, add_bridge_port_name, add_bridge_port_calls, remove_bridge_port_calls,
}
use ipu_opi_plugins.IpuPlugin.BridgePort.Ports.{create_new, delete_present}

-- The plugin over a Linux bridge.
abbrev pub linux_plugin : {K : Type 0} → Netlink K → String → String → RuleClient K → Plugin K
linux_plugin N br_name uplink client = record {
  uplink_interface = uplink;
  netlink = N;
  bridge_ctlr = linux_bridge_controller N br_name;
  p4_rt_client = client;
}

-- The rules go to the packet processor: they change no network device.
pub record LeavesDevices {K : Type 0} (client : RuleClient K) (dev : K → String → Option Device)
    : Type 0 where
  pub add_rules_lem :
      (mac : List ℕ) (vlan : ℤ) (k : K) (j : String)
      → dev (client.add_rules mac vlan k).1 j ≡ dev k j
  pub delete_rules_lem :
      (mac : List ℕ) (vlan : ℤ) (k : K) (j : String)
      → dev (client.delete_rules mac vlan k).1 j ≡ dev k j

module _ {K : Type 0} {N : Netlink K} {dev : K → String → Option Device} (L : IsLawful N dev)
    (client : RuleClient K) (keeps : LeavesDevices client dev) (br_name uplink : String) where
  abbrev plugin : Plugin K
  plugin = linux_plugin N br_name uplink client

  add_links :
      (port : BridgePort) (spec : BridgePortSpec) (first : String) (vlan : ℤ) (s : State K)
      {resp : BridgePort}
      → get_elem? spec.logical_bridges 0 ≡ some first
      → atoi first ≡ some vlan
      → (add_bridge_port plugin port spec vlan s).0 ≡ ok resp
      → let intf = vlan_intf_name port.name vlan in
        let after = (add_bridge_port plugin port spec vlan s).1 in
        (d : Device) × (dev after.system intf ≡ some d)
        × (d.link.link_type ≡ LinkType.vlan)
        × (d.master ≡ some br_name)
        × (d.up ≡ true)
        × ((j : String) → (intf == j) ≡ false → dev after.system j ≡ dev s.system j)
  add_links port spec first vlan s e1 e2 h =
      let intf = vlan_intf_name port.name vlan in
      let (name, made) = add_bridge_port_name plugin port spec vlan s h in
      let (named, others) =
        create_vlan_lem L uplink port.name spec.logical_bridges first vlan s.system e1 e2 made in
      let k = (made_vlan plugin port spec vlan s).1 in
      let (joined, final) =
        add_bridge_port_calls plugin port spec vlan s intf (made ∙ ap ok named) h in
      let (d, there, is_vlan, after) = add_port_joins L br_name intf k joined in
      (
        record d { master = some br_name; up = true },
        ap (λ t. dev t intf) final
            ∙ keeps.add_rules_lem spec.mac_address vlan (add_port N br_name intf k).1 intf
            ∙ after intf
            ∙ rw ==-refl,
        is_vlan,
        refl,
        refl,
        λ j other.
            ap (λ t. dev t j) final
            ∙ keeps.add_rules_lem spec.mac_address vlan (add_port N br_name intf k).1 j
            ∙ after j
            ∙ rw other (others j other),
      )

  -- In a lawful kernel, with the Linux bridge as the controller and a rule client that changes no
  -- network device: when an acceptable port whose name is not in the map is created with success,
  -- there is a vlan interface named after the port and its vlan, which has the bridge as its
  -- master and is up, and no other device has changed.
  pub create_links :
      (port : BridgePort) (s : State K) (fit : IsAcceptable port) {resp : BridgePort}
      → lookup port.name s.ports ≡ none
      → (create_bridge_port (linux_plugin N br_name uplink client) (some port) s).0 ≡ ok resp
      → let intf = vlan_intf_name port.name (pos fit.vlan) in
        let after = (create_bridge_port (linux_plugin N br_name uplink client) (some port) s).1 in
        (d : Device) × (dev after.system intf ≡ some d)
        × (d.link.link_type ≡ LinkType.vlan)
        × (d.master ≡ some br_name)
        × (d.up ≡ true)
        × ((j : String) → (intf == j) ≡ false → dev after.system j ≡ dev s.system j)
  create_links port s fit fresh h = rw (create_new plugin port s fit fresh) (
      add_links port fit.spec fit.first (pos fit.vlan) s fit.bridged fit.parsed
        (rw (create_new plugin port s fit fresh) at h))

  remove_vlan_lem :
      (name : String) (d : Device) (k : K)
      → dev k name ≡ some d
      → d.link.link_type ≡ LinkType.vlan
      → (remove_vlan_interface N name k).0 ≡ ok tt
      → (j : String)
      → dev (remove_vlan_interface N name k).1 j ≡ (if name == j then none else dev k j)
  unfolding remove_vlan_interface
  remove_vlan_lem name d k there is_vlan h j =
      let found : N.link_by_name k name ≡ some d.link = ground (arith, L.link_by_name_lem k name) in
      let same = L.named k name d there in
      ground (arith, L.link_del_lem d.link k is_vlan (ground arith) j)

  -- In a lawful kernel, with the Linux bridge as the controller and a rule client that changes no
  -- network device: when an acceptable port that is in the map is deleted with success, the vlan
  -- interface named after the port's name and its vlan is gone, and no other device has changed.
  pub delete_links :
      (name : String) (s : State K) (port : BridgePort) (fit : IsAcceptable port)
      → lookup name s.ports ≡ some port
      → (delete_bridge_port (linux_plugin N br_name uplink client) name s).0 ≡ ok tt
      → let intf = vlan_intf_name name (pos fit.vlan) in
        let after = (delete_bridge_port (linux_plugin N br_name uplink client) name s).1 in
        (j : String) → dev after.system j ≡ (if intf == j then none else dev s.system j)
  delete_links name s port fit there h j =
      let intf = vlan_intf_name name (pos fit.vlan) in
      let removed = rw (delete_present plugin name s port there) at h in
      let (left, gone, final) =
        remove_bridge_port_calls plugin name port fit.spec fit.first (pos fit.vlan) s fit.given
          fit.bridged fit.parsed removed in
      let (d, was, is_vlan, after) = delete_port_leaves L br_name intf s.system left in
      let k = (delete_port N br_name intf s.system).1 in
      let k' = (remove_vlan_interface N intf k).1 in
      rw (delete_present plugin name s port there) (
        ap (λ t. dev t j) final
        ∙ keeps.delete_rules_lem fit.spec.mac_address (pos fit.vlan) k' j
        ∙ remove_vlan_lem intf (record d { master = none; up = false }) k (after intf ∙ rw ==-refl)
            is_vlan gone j
        ∙ ground (arith, after j))
