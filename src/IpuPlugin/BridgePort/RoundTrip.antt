-- ===== src/IpuPlugin/BridgePort/RoundTrip.antt =====
-- Creating a port and deleting it again.
use ipu_opi_plugins.Prelude.{
  ◌≡◌, ◌∙◌, Option, none, some, String, arith, ◌==◌, string_eq, ==-refl, Bool-cases, inl, inr,
}
use ipu_opi_plugins.Prelude.Int.{pos}
use ipu_opi_plugins.Outcome.{ok}
use ipu_opi_plugins.Dict.{lookup, lookup-insert, erase-insert}
use ipu_opi_plugins.Netlink.{Netlink, Device, IsLawful}
use ipu_opi_plugins.IpuPlugin.BridgePort.{
  BridgePort, State, Plugin, RuleClient, vlan_intf_name, create_bridge_port, delete_bridge_port,
}
use ipu_opi_plugins.IpuPlugin.BridgePort.Validation.{IsAcceptable}
use ipu_opi_plugins.IpuPlugin.BridgePort.Ports.{as_up, as_up-IsAcceptable, create_puts}
use ipu_opi_plugins.IpuPlugin.BridgePort.Retry.{delete_erases}
use ipu_opi_plugins.IpuPlugin.BridgePort.Devices.{
  linux_plugin, LeavesDevices, create_links, delete_links,
}

module _ {K : Type 0} {N : Netlink K} {dev : K → String → Option Device} (L : IsLawful N dev)
    (client : RuleClient K) (keeps : LeavesDevices client dev) (br_name uplink : String) where
  abbrev plugin : Plugin K
  plugin = linux_plugin N br_name uplink client

  -- In a lawful kernel, with the Linux bridge as the controller and a rule client that changes no
  -- network device: where an acceptable port whose name is not in the map is created and then
  -- deleted, both with success, and its vlan interface was not there before, the map of ports and
  -- every network device are as they were.
  pub delete-create :
      (port : BridgePort) (s : State K) (fit : IsAcceptable port) {resp : BridgePort}
      → lookup port.name s.ports ≡ none
      → dev s.system (vlan_intf_name port.name (pos fit.vlan)) ≡ none
      → (create_bridge_port (linux_plugin N br_name uplink client) (some port) s).0 ≡ ok resp
      → (delete_bridge_port
          (linux_plugin N br_name uplink client)
          port.name
          (create_bridge_port (linux_plugin N br_name uplink client) (some port) s).1).0
        ≡ ok tt
      → let made = (create_bridge_port (linux_plugin N br_name uplink client) (some port) s).1 in
        let back = (delete_bridge_port (linux_plugin N br_name uplink client) port.name made).1 in
        (back.ports ≡ s.ports) × ((j : String) → dev back.system j ≡ dev s.system j)
  delete-create port s fit fresh free made gone =
      let s' = (create_bridge_port plugin (some port) s).1 in
      let put = create_puts plugin port s fresh made in
      let intf = vlan_intf_name port.name (pos fit.vlan) in
      let there : lookup port.name s'.ports ≡ some (as_up port) =
        rw put (lookup-insert port.name port.name (as_up port) s.ports ∙ rw ==-refl) in
      let (d, _, _, _, _, others) =
        create_links L client keeps br_name uplink port s fit fresh made in
      (
        delete_erases plugin port.name s' gone
            ∙ rw put (erase-insert port.name (as_up port) s.ports fresh),
        λ j.
            delete_links L client keeps br_name uplink port.name s' (as_up port)
              (as_up-IsAcceptable port fit) there gone j
            ∙ elim (Bool-cases (intf == j)) [
              | inl same ↦ ground arith
              | inr other ↦ rw other (others j other)
            ],
      )
