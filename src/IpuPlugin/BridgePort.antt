-- ===== src/IpuPlugin/BridgePort.antt =====
-- The bridge port service of ipu-plugin/pkg/ipuplugin/bridgeport.go.
-- A handler runs on the server's map of ports and on the system state `K` below it. The
-- generated messages are records; their pointers that a handler follows are options.
pub mod Validation
pub mod Ports
pub mod Retry
pub mod Calls
pub mod Devices
pub mod RoundTrip
pub mod Names
pub mod Spec
pub mod Runs
use ipu_opi_plugins.Prelude.{
  ℕ, ◌≡◌, ◌||◌, not, Bool, true, false, Option, none, some, String, ◌<>◌, List, [], ◌∷◌, ltb,
  length, get_elem?, if◌then◌else◌,
}
use ipu_opi_plugins.Prelude.Int.{ℤ, pos, ltb_ℤ}
use ipu_opi_plugins.Outcome.{
  Outcome, ok, err, panic, Action, pure, throw, throw_if, gets, modify, or_throw, or_crash, attempt,
  wrapping, zoom, ◌>>=◌, ◌>>◌,
}
use ipu_opi_plugins.Dict.{Dict, lookup, insert, erase}
use ipu_opi_plugins.Text.Decimal.{format, atoi}
use ipu_opi_plugins.Netlink.{LinkType, Link, new_link, Netlink}
use ipu_opi_plugins.IpuPlugin.Bridge.{BridgeError, BridgeController}
use ipu_opi_plugins.IpuPlugin.Bridge.Linux.{is_vlan}

-- `pb.BridgePortSpec`; `Ptype` is an enumeration that the plugin does not read.
pub record BridgePortSpec : Type 0 where
  pub ptype : ℕ
  pub mac_address : List ℕ
  pub logical_bridges : List String

-- `BPOperStatus_BP_OPER_STATUS_UP` is the one status that is set.
pub data OperStatus : Type 0 where
  oper_status_up : OperStatus

pub record BridgePort : Type 0 where
  pub name : String
  pub spec : Option BridgePortSpec
  pub status : Option OperStatus

pub data VlanError : Type 0 where
  uplink_not_found bad_vlan_id found_but_not_vlan link_add_failed link_del_failed : VlanError

-- One value for each error that a handler returns.
pub data PortError : Type 0 where
  invalid_mac_address vlan_not_provided : PortError
  invalid_vlan : ℤ → PortError
  invalid_vsi : ℕ → PortError
  create_vlan_failed remove_vlan_failed : VlanError → PortError
  add_port_failed delete_port_failed : BridgeError → PortError

-- `P4RTClient` of ipu-plugin/pkg/types/types.go: its methods return no error.
pub record RuleClient (K : Type 0) : Type 0 where
  pub add_rules : List ℕ → ℤ → Action K ⊥ (Unit {0})
  pub delete_rules : List ℕ → ℤ → Action K ⊥ (Unit {0})

-- The fields of `server` that the handlers read and do not write.
pub record Plugin (K : Type 0) : Type 0 where
  pub uplink_interface : String
  pub netlink : Netlink K
  pub bridge_ctlr : BridgeController K
  pub p4_rt_client : RuleClient K

-- `Ports`, and the system that the calls reach.
pub record State (K : Type 0) : Type 0 where
  pub ports : Dict BridgePort
  pub system : K

abbrev pub on_system : {K E A : Type 0} → Action K E A → Action (State K) E A
on_system m = zoom (λ s. s.system) (λ k s. record s { system = k }) m

abbrev pub never : {E : Type 0} → ⊥ → E
never h = absurd h

abbrev pub vlan_intf_name : String → ℤ → String
vlan_intf_name name vlan = name <> ("_vlan" <> format vlan)

-- The number that the first text stands for, and 0 if it stands for none. `bridges[0]` panics
-- on an empty slice.
get_first_vlan_id : {S E : Type 0} → List String → Action S E ℤ
get_first_vlan_id bridges = do
  first ← or_crash (get_elem? bridges 0)
  elim (atoi first) [ none ↦ pure (pos 0) | some vlan_id ↦ pure vlan_id ]

-- The `netlink.Vlan` that is added.
abbrev pub new_vlan : Link → String → ℤ → Link
new_vlan up_link name vlan_id = record (new_link LinkType.vlan name) {
  parent_index = up_link.index;
  vlan_id = vlan_id;
}

module _ {K : Type 0} (N : Netlink K) where
  -- An interface of that name that is there already is kept if it is a vlan.
  unfoldable pub create_vlan_interface : Link → String → ℤ → Action K VlanError (Unit {0})
  create_vlan_interface up_link name vlan_id = do
    found ← gets (λ k. N.link_by_name k name)
    elim found [
      | some link ↦ if is_vlan link then pure tt else throw found_but_not_vlan
      | none ↦ attempt (N.link_add (new_vlan up_link name vlan_id)) link_add_failed
    ]

  unfoldable pub create_and_set_up_vlan : String → String → List String → Action K VlanError String
  unfolding create_vlan_interface
  create_and_set_up_vlan uplink_interface vlan_name bridges = do
    up_link ← or_throw (← gets (λ k. N.link_by_name k uplink_interface)) uplink_not_found
    first ← or_crash (get_elem? bridges 0)
    vlan_id ← or_throw (atoi first) bad_vlan_id
    create_vlan_interface up_link (vlan_intf_name vlan_name vlan_id) vlan_id
    pure (vlan_intf_name vlan_name vlan_id)

  -- An interface that is not there is as good as removed.
  unfoldable pub remove_vlan_interface : String → Action K VlanError (Unit {0})
  remove_vlan_interface name = do
    found ← gets (λ k. N.link_by_name k name)
    elim found [ none ↦ pure tt | some link ↦ attempt (N.link_del link) link_del_failed ]

is_bridge_port_present : {K : Type 0} → State K → String → Bool
is_bridge_port_present s name = elim (lookup name s.ports) [ none ↦ false | some _ ↦ true ]

module _ {K : Type 0} (plugin : Plugin K) where
  -- The part of `CreateBridgePort` behind the tests.
  unfoldable pub add_bridge_port :
      BridgePort → BridgePortSpec → ℤ → Action (State K) PortError BridgePort
  add_bridge_port port spec vlan = do
    vlan_name ← wrapping create_vlan_failed (
        on_system (
          create_and_set_up_vlan plugin.netlink plugin.uplink_interface port.name
            spec.logical_bridges))
    wrapping add_port_failed (on_system (plugin.bridge_ctlr.add_port vlan_name))
    wrapping never (on_system (plugin.p4_rt_client.add_rules spec.mac_address vlan))
    let resp = record port { status = some oper_status_up }
    modify (λ s. record s { ports = insert port.name resp s.ports })
    pure resp

  unfoldable pub create_bridge_port : Option BridgePort → Action (State K) PortError BridgePort
  unfolding get_first_vlan_id is_bridge_port_present
  create_bridge_port request = do
    port ← or_crash request
    spec ← or_crash port.spec
    throw_if (ltb (length spec.mac_address) 1 || ltb 6 (length spec.mac_address))
        invalid_mac_address
    vf_vsi ← or_crash (get_elem? spec.mac_address 1)
    throw_if (ltb (length spec.logical_bridges) 1) vlan_not_provided
    vlan ← get_first_vlan_id spec.logical_bridges
    throw_if (ltb_ℤ vlan (pos 2) || ltb_ℤ (pos 4094) vlan) (invalid_vlan vlan)
    throw_if (ltb vf_vsi 1) (invalid_vsi vf_vsi)
    present ← gets (λ s. is_bridge_port_present s port.name)
    if present
        then gets (λ s. lookup port.name s.ports) >>= or_crash
        else add_bridge_port port spec vlan

  -- The part of `DeleteBridgePort` behind the lookup.
  unfoldable pub remove_bridge_port : String → BridgePort → Action (State K) PortError (Unit {0})
  unfolding get_first_vlan_id
  remove_bridge_port name port_info = do
    spec ← or_crash port_info.spec
    vlan ← get_first_vlan_id spec.logical_bridges
    let vlan_name = vlan_intf_name name vlan
    wrapping delete_port_failed (on_system (plugin.bridge_ctlr.delete_port vlan_name))
    wrapping remove_vlan_failed (on_system (remove_vlan_interface plugin.netlink vlan_name))
    wrapping never (on_system (plugin.p4_rt_client.delete_rules spec.mac_address vlan))
    modify (λ s. record s { ports = erase name s.ports })

  unfoldable pub delete_bridge_port : String → Action (State K) PortError (Unit {0})
  delete_bridge_port name = do
    found ← gets (λ s. lookup name s.ports)
    elim found [ none ↦ pure tt | some port_info ↦ remove_bridge_port name port_info ]

-- The three other calls of the service only answer.
pub update_bridge_port : {S E : Type 0} → BridgePort → Action S E BridgePort
update_bridge_port _ = pure (record { name = ""; spec = none; status = none })

pub get_bridge_port : {S E : Type 0} → String → Action S E BridgePort
get_bridge_port name = pure (record {
  name = name;
  spec = some (record { ptype = 0; mac_address = []; logical_bridges = [] });
  status = none;
})

pub list_bridge_ports : {S E : Type 0} → Action S E (List BridgePort)
list_bridge_ports = pure []
