-- ===== src/IpuPlugin/BridgePort/Calls.antt =====
-- The calls that a handler has made where it succeeds, and what the vlan interface's creation
-- leaves in a lawful kernel.
use ipu_opi_plugins.Prelude.{
  ◌≡◌, false, Option, some, String, List, arith, ◌==◌, string_eq, inl, inr, Option-cases, get_elem?,
  some_of,
}
use ipu_opi_plugins.Prelude.Int.{ℤ}
use ipu_opi_plugins.Outcome.{Outcome, ok, ok_of}
use ipu_opi_plugins.Text.Decimal.{atoi}
use ipu_opi_plugins.Netlink.{Link, Netlink, Device, IsLawful}
use ipu_opi_plugins.IpuPlugin.BridgePort.{
  BridgePortSpec, BridgePort, State, Plugin, VlanError, vlan_intf_name, new_vlan,
  create_vlan_interface, create_and_set_up_vlan, remove_vlan_interface, add_bridge_port,
  remove_bridge_port,
}

module _ {K : Type 0} {N : Netlink K} {dev : K → String → Option Device} (L : IsLawful N dev) where
  create_vlan_interface_others :
      (up : Link) (name : String) (vlan_id : ℤ) (k : K) (j : String)
      → (name == j) ≡ false
      → (create_vlan_interface N up name vlan_id k).0 ≡ ok tt
      → dev (create_vlan_interface N up name vlan_id k).1 j ≡ dev k j
  unfolding create_vlan_interface
  create_vlan_interface_others up name vlan_id k j other h =
      elim (Option-cases (N.link_by_name k name)) [
        | inl absent ↦
            let (i, added) = L.link_add_lem (new_vlan up name vlan_id) k in
            ground (arith, added (ground arith) j)
        | inr (l, found) ↦ ground arith
      ]

  module _ (uplink name : String) (bridges : List String) (first : String) (vlan_id : ℤ)
      (k : K) where
    create_vlan_uplink :
        {intf : String}
        → (create_and_set_up_vlan N uplink name bridges k).0 ≡ ok intf
        → (up : Link) × (N.link_by_name k uplink ≡ some up)
    unfolding create_and_set_up_vlan
    create_vlan_uplink h = some_of (N.link_by_name k uplink) (λ e. ground arith)

    create_vlan_calls :
        (up : Link) {intf : String}
        → N.link_by_name k uplink ≡ some up
        → get_elem? bridges 0 ≡ some first
        → atoi first ≡ some vlan_id
        → (create_and_set_up_vlan N uplink name bridges k).0 ≡ ok intf
        → (intf ≡ vlan_intf_name name vlan_id)
          × ((create_vlan_interface N up (vlan_intf_name name vlan_id) vlan_id k).0 ≡ ok tt)
          × ((create_and_set_up_vlan N uplink name bridges k).1
              ≡ (create_vlan_interface N up (vlan_intf_name name vlan_id) vlan_id k).1)
    unfolding create_and_set_up_vlan
    create_vlan_calls up e e1 e2 h = ground arith

    -- The name is that of the port and its vlan, and no other device has changed.
    pub create_vlan_lem :
        {intf : String}
        → get_elem? bridges 0 ≡ some first
        → atoi first ≡ some vlan_id
        → (create_and_set_up_vlan N uplink name bridges k).0 ≡ ok intf
        → (intf ≡ vlan_intf_name name vlan_id)
          × ((j : String)
              → (vlan_intf_name name vlan_id == j) ≡ false
              → dev (create_and_set_up_vlan N uplink name bridges k).1 j ≡ dev k j)
    create_vlan_lem e1 e2 h =
        let (up, e) = create_vlan_uplink h in
        let (named, made, after) = create_vlan_calls up e e1 e2 h in
        (
          named,
          λ j other. rw after (
              create_vlan_interface_others up (vlan_intf_name name vlan_id) vlan_id k j other made),
        )

module _ {K : Type 0} (plugin : Plugin K) (port : BridgePort) (spec : BridgePortSpec) (vlan : ℤ)
    (s : State K) where
  open plugin use {netlink, uplink_interface, bridge_ctlr, p4_rt_client}

  abbrev pub made_vlan : Outcome VlanError String × K
  made_vlan =
      create_and_set_up_vlan netlink uplink_interface port.name spec.logical_bridges s.system

  pub add_bridge_port_name :
      {resp : BridgePort}
      → (add_bridge_port plugin port spec vlan s).0 ≡ ok resp
      → (intf : String) × (made_vlan.0 ≡ ok intf)
  unfolding add_bridge_port
  add_bridge_port_name h = ok_of made_vlan.0 (λ e q. ground arith) (λ q. ground arith)

  pub add_bridge_port_calls :
      (intf : String) {resp : BridgePort}
      → made_vlan.0 ≡ ok intf
      → (add_bridge_port plugin port spec vlan s).0 ≡ ok resp
      → ((bridge_ctlr.add_port intf made_vlan.1).0 ≡ ok tt)
        × ((add_bridge_port plugin port spec vlan s).1.system
            ≡ (p4_rt_client.add_rules spec.mac_address vlan
                (bridge_ctlr.add_port intf made_vlan.1).1).1)
  unfolding add_bridge_port
  add_bridge_port_calls intf e h = ground arith

module _ {K : Type 0} (plugin : Plugin K) (name : String) (port : BridgePort)
    (spec : BridgePortSpec) (first : String) (vlan : ℤ) (s : State K) where
  open plugin use {netlink, bridge_ctlr, p4_rt_client}

  pub remove_bridge_port_calls :
      port.spec ≡ some spec
      → get_elem? spec.logical_bridges 0 ≡ some first
      → atoi first ≡ some vlan
      → (remove_bridge_port plugin name port s).0 ≡ ok tt
      → let left = bridge_ctlr.delete_port (vlan_intf_name name vlan) s.system in
        let gone = remove_vlan_interface netlink (vlan_intf_name name vlan) left.1 in
        (left.0 ≡ ok tt)
        × (gone.0 ≡ ok tt)
        × ((remove_bridge_port plugin name port s).1.system
            ≡ (p4_rt_client.delete_rules spec.mac_address vlan gone.1).1)
  unfolding remove_bridge_port
  remove_bridge_port_calls e e1 e2 h = ground arith
