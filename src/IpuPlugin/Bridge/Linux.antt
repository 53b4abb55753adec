-- ===== src/IpuPlugin/Bridge/Linux.antt =====
-- `linuxBridge` of ipu-plugin/pkg/ipuplugin/linuxbridge.go.
pub mod Laws
use ipu_opi_plugins.Prelude.{
  Bool, true, false, not, Option, none, some, String, ◌==◌, string_eq, if◌then◌else◌,
}
use ipu_opi_plugins.Outcome.{Action, pure, throw, throw_if, gets, or_throw, attempt, ◌>>=◌, ◌>>◌}
use ipu_opi_plugins.Netlink.{LinkType, bridge, vlan, plain, Link, new_link, Netlink}
use ipu_opi_plugins.IpuPlugin.Bridge.{
  BridgeError, name_empty, not_a_bridge, create_failed, bring_up_failed, port_not_found, not_a_vlan,
  bridge_not_found, set_master_failed, set_up_failed, set_no_master_failed, set_down_failed,
  BridgeController,
}

-- `link.(*netlink.Vlan)` and `br.Type() == "bridge"`
abbrev pub is_vlan : Link → Bool
is_vlan l = elim l.link_type [ vlan ↦ true | _ ↦ false ]

abbrev pub is_bridge : Link → Bool
is_bridge l = elim l.link_type [ bridge ↦ true | _ ↦ false ]

module _ {K : Type 0} (N : Netlink K) (br_name : String) where
  create_bridge : Action K BridgeError (Unit {0})
  create_bridge = do
    let br = new_link bridge br_name
    attempt (N.link_add br) create_failed
    attempt (N.link_set_up br) bring_up_failed

  -- The branches on the looked-up link.
  ensure_found : Option Link → Action K BridgeError (Unit {0})
  unfolding create_bridge
  ensure_found (some br) = if is_bridge br then pure tt else throw not_a_bridge
  ensure_found none = create_bridge

  unfoldable pub ensure_bridge_exists : Action K BridgeError (Unit {0})
  unfolding ensure_found
  ensure_bridge_exists = do
    throw_if (br_name == "") name_empty
    found ← gets (λ k. N.link_by_name k br_name)
    ensure_found found

  unfoldable pub add_port : String → Action K BridgeError (Unit {0})
  add_port port_name = do
    link ← or_throw (← gets (λ k. N.link_by_name k port_name)) port_not_found
    throw_if (not (is_vlan link)) not_a_vlan
    br ← or_throw (← gets (λ k. N.link_by_name k br_name)) bridge_not_found
    attempt (N.link_set_master link br) set_master_failed
    attempt (N.link_set_up link) set_up_failed

  unfoldable pub delete_port : String → Action K BridgeError (Unit {0})
  delete_port port_name = do
    link ← or_throw (← gets (λ k. N.link_by_name k port_name)) port_not_found
    throw_if (not (is_vlan link)) not_a_vlan
    attempt (N.link_set_no_master link) set_no_master_failed
    attempt (N.link_set_down link) set_down_failed

  -- `NewLinuxBridgeController`
  abbrev pub linux_bridge_controller : BridgeController K
  linux_bridge_controller = record {
    ensure_bridge_exists = ensure_bridge_exists;
    add_port = add_port;
    delete_port = delete_port;
  }
