-- ===== src/IpuPlugin/Rules.antt =====
-- `p4rtclient` of ipu-plugin/pkg/p4rtclient/p4rtclient.go: the entries that a bridge port puts
-- into the tables of the packet processor, and the commands that add and delete them.
pub mod Coverage
pub mod Address
use ipu_opi_plugins.Prelude.{
  ℕ, ◌||◌, ◌++◌, Option, none, some, String, ◌<>◌, List, [], ◌∷◌, ltb, length, get_elem?,
  if◌then◌else◌,
}
use ipu_opi_plugins.Prelude.Int.{ℤ, pos, ◌+ℤ◌, wrap64}
use ipu_opi_plugins.Outcome.{Outcome, ok, panic, Action, Attempt, of_outcome, ◌>>=◌}
use ipu_opi_plugins.Text.Decimal.{format}
use ipu_opi_plugins.Text.Hex.{format_hex}
use ipu_opi_plugins.Text.Hardware.{hardware_string, parse_hex}
use ipu_opi_plugins.Text.Space.{remove_char}
use ipu_opi_plugins.IpuPlugin.Bridge.{BridgeType, ovs_bridge, linux_bridge}

pub record P4rtClient : Type 0 where
  pub p4_rt_bin : String
  pub port_mux_vsi : ℤ
  pub p4br : String
  pub bridge_type : BridgeType

-- `fxpRuleParams`: the arguments of one command.
abbrev pub RuleParams : Type 0
RuleParams = List String

unfoldable pub get_vport_for_vsi : ℤ → ℤ
get_vport_for_vsi vsi = wrap64 (vsi +ℤ pos 16)

unfoldable pub get_mac_int_value_from_bytes : List ℕ → ℕ
get_mac_int_value_from_bytes mac = parse_hex (remove_char b':' (hardware_string mac))

abbrev call1 : String → ℤ → String
call1 f a = f <> ("(" <> (format a <> ")"))

abbrev call2 : String → ℤ → ℤ → String
call2 f a b = f <> ("(" <> (format a <> ("," <> (format b <> ")"))))

-- `[]string{"add-entry", …}`: the last argument is the key of the entry and its action.
abbrev add_entry : String → String → String → String → RuleParams
add_entry br table key action = "add-entry" ∷ br ∷ table ∷ (key <> (",action=" <> action)) ∷ []

-- `[]string{"del-entry", …}`: the last argument is the key.
abbrev del_entry : String → String → String → RuleParams
del_entry br table key = "del-entry" ∷ br ∷ table ∷ key ∷ []

-- `macAddr[1]` panics where there is one byte: the guard lets that size through.
guarded : (ℕ → List RuleParams) → List ℕ → Outcome ⊥ (List RuleParams)
guarded rules mac =
    if ltb (length mac) 1 || ltb 6 (length mac)
    then ok []
    else (elim (get_elem? mac 1) [ none ↦ panic | some vsi ↦ ok (rules vsi) ])

module _ (p : P4rtClient) where
  -- The first rules of `getAddRuleSets`; `vsi` is the second octet of the address.
  add_port_rules : ℕ → ℤ → List RuleParams
  add_port_rules vsi vlan =
      let vf_vsi = format (pos vsi) in
      let vid = format vlan in
      let vf_vport = get_vport_for_vsi (pos vsi) in
      let port_mux_vport = get_vport_for_vsi p.port_mux_vsi in
      add_entry p.p4br "linux_networking_control.handle_tx_from_host_to_ovs_and_ovs_to_wire_table"
        ("vmeta.common.vsi=" <> (vf_vsi <> ",user_meta.cmeta.bit32_zeros=0"))
        (call2 "linux_networking_control.add_vlan_and_send_to_port" vlan port_mux_vport)
      ∷ add_entry p.p4br "linux_networking_control.handle_tx_from_host_to_ovs_and_ovs_to_wire_table"
          ("vmeta.common.vsi=" <> (vf_vsi <> ",user_meta.cmeta.bit32_zeros=0"))
          (call2 "linux_networking_control.add_vlan_and_send_to_port" vlan port_mux_vport)
      ∷ add_entry p.p4br "linux_networking_control.handle_rx_loopback_from_host_to_ovs_table"
          ("vmeta.common.vsi=" <> (vf_vsi <> ",user_meta.cmeta.bit32_zeros=0"))
          (call1 "linux_networking_control.set_dest" port_mux_vport)
      ∷ add_entry p.p4br "linux_networking_control.vlan_push_mod_table"
          ("vmeta.common.mod_blob_ptr=" <> vid)
          ("linux_networking_control.vlan_push(1,0," <> (vid <> ")"))
      ∷ add_entry p.p4br "linux_networking_control.handle_tx_from_ovs_to_host_table"
          ("vmeta.common.vsi="
            <> (format p.port_mux_vsi <> (",hdrs.dot1q_tag[vmeta.common.depth].hdr.vid=" <> vid)))
          (call2 "linux_networking_control.remove_vlan_and_send_to_port" vlan vf_vport)
      ∷ add_entry p.p4br "linux_networking_control.handle_rx_loopback_from_ovs_to_host_table"
          ("vmeta.misc_internal.vm_to_vm_or_port_to_port[27:17]="
            <> (vf_vsi <> ",user_meta.cmeta.bit32_zeros=0"))
          (call1 "linux_networking_control.set_dest" vf_vport)
      ∷ add_entry p.p4br "linux_networking_control.vlan_pop_mod_table"
          ("vmeta.common.mod_blob_ptr=" <> vid) "linux_networking_control.vlan_pop"
      ∷ []

  -- The rules that are appended for a Linux bridge.
  add_mac_rules : BridgeType → List ℕ → ℕ → List RuleParams
  add_mac_rules ovs_bridge mac vsi = []
  add_mac_rules linux_bridge mac vsi =
      let vf_vport = get_vport_for_vsi (pos vsi) in
      let mac_value = format_hex (get_mac_int_value_from_bytes mac) in
      add_entry p.p4br "linux_networking_control.l2_fwd_tx_table"
        ("dst_mac=0x" <> (mac_value <> ",user_meta.pmeta.tun_flag1_d0=0x00"))
        (call1 "linux_networking_control.l2_fwd" vf_vport)
      ∷ add_entry p.p4br "linux_networking_control.sem_bypass" ("dst_mac=0x" <> mac_value)
          (call1 "linux_networking_control.set_dest" vf_vport)
      ∷ []

  -- The first rules of `getDelRuleSets`.
  del_port_rules : ℕ → ℤ → List RuleParams
  del_port_rules vsi vlan =
      let vf_vsi = format (pos vsi) in
      let vid = format vlan in
      del_entry p.p4br "linux_networking_control.handle_tx_from_host_to_ovs_and_ovs_to_wire_table"
        ("vmeta.common.vsi=" <> (vf_vsi <> ",user_meta.cmeta.bit32_zeros=0"))
      ∷ del_entry p.p4br "linux_networking_control.handle_rx_loopback_from_host_to_ovs_table"
          ("vmeta.common.vsi=" <> (vf_vsi <> ",user_meta.cmeta.bit32_zeros=0"))
      ∷ del_entry p.p4br "linux_networking_control.vlan_push_mod_table"
          ("vmeta.common.mod_blob_ptr=" <> vid)
      ∷ del_entry p.p4br "linux_networking_control.handle_tx_from_ovs_to_host_table" (
          "vmeta.common.vsi="
          <> (format p.port_mux_vsi <> (",hdrs.dot1q_tag[vmeta.common.depth].hdr.vid=" <> vid)))
      ∷ del_entry p.p4br "linux_networking_control.handle_rx_loopback_from_ovs_to_host_table" (
          "vmeta.misc_internal.vm_to_vm_or_port_to_port[27:17]="
          <> (vf_vsi <> ",user_meta.cmeta.bit32_zeros=0"))
      ∷ del_entry p.p4br "linux_networking_control.vlan_pop_mod_table"
          ("vmeta.common.mod_blob_ptr=" <> vid)
      ∷ []

  del_mac_rules : BridgeType → List ℕ → List RuleParams
  del_mac_rules ovs_bridge mac = []
  del_mac_rules linux_bridge mac =
      let mac_value = format_hex (get_mac_int_value_from_bytes mac) in
      del_entry p.p4br "linux_networking_control.l2_fwd_tx_table"
        ("dst_mac=0x" <> (mac_value <> ",user_meta.pmeta.tun_flag1_d0=0x00"))
      ∷ del_entry p.p4br "linux_networking_control.sem_bypass" ("dst_mac=0x" <> mac_value)
      ∷ []

  unfoldable pub get_add_rule_sets : List ℕ → ℤ → Outcome ⊥ (List RuleParams)
  unfolding add_port_rules add_mac_rules guarded
  get_add_rule_sets mac vlan =
      guarded (λ vsi. add_port_rules vsi vlan ++ add_mac_rules p.bridge_type mac vsi) mac

  unfoldable pub get_del_rule_sets : List ℕ → ℤ → Outcome ⊥ (List RuleParams)
  unfolding del_port_rules del_mac_rules guarded
  get_del_rule_sets mac vlan =
      guarded (λ vsi. del_port_rules vsi vlan ++ del_mac_rules p.bridge_type mac) mac

  -- `runP4rtCtlCommand` is the parameter `run`: the binary and its arguments, and whether the
  -- command ended with status 0. A failure is logged and the loop goes on.
  module _ {K : Type 0} (run : String → List String → Attempt K) where
    -- The command's environment and output are left to the parameter.
    abbrev pub run_p4rt_ctl_command : RuleParams → Attempt K
    run_p4rt_ctl_command params = run p.p4_rt_bin params

    run_rules : List RuleParams → Action K ⊥ (Unit {0})
    run_rules [] k = (ok tt, k)
    run_rules (r ∷ rules) k = run_rules rules (run_p4rt_ctl_command r k).1

    unfoldable pub add_rules : List ℕ → ℤ → Action K ⊥ (Unit {0})
    unfolding run_rules
    add_rules mac vlan = do rule_sets ← of_outcome (get_add_rule_sets mac vlan); run_rules rule_sets

    unfoldable pub delete_rules : List ℕ → ℤ → Action K ⊥ (Unit {0})
    unfolding run_rules
    delete_rules mac vlan = do
      rule_sets ← of_outcome (get_del_rule_sets mac vlan)
      run_rules rule_sets
