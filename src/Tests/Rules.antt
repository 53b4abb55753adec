-- ===== src/Tests/Rules.antt =====
-- The rules of a port, and the Linux bridge that it joins.
use ipu_opi_plugins.Prelude.{
  ℕ, ◌≡◌, refl, true, false, none, some, String, List, [], ◌∷◌, arith, ◌==◌, string_eq, nat_eq,
}
use ipu_opi_plugins.Prelude.Int.{pos}
use ipu_opi_plugins.Outcome.{ok}
use ipu_opi_plugins.Text.Hardware.{AreBytes}
use ipu_opi_plugins.Dict.{lookup, insert}
use ipu_opi_plugins.Netlink.{new_link, Device, bridge, vlan}
use ipu_opi_plugins.Netlink.Memory.{Kernel, device_of, memory, memory-IsLawful}
use ipu_opi_plugins.IpuPlugin.Bridge.{linux_bridge}
use ipu_opi_plugins.IpuPlugin.Bridge.Linux.{ensure_bridge_exists}
use ipu_opi_plugins.IpuPlugin.Bridge.Linux.Laws.{ensure_bridge_exists_lem}
use ipu_opi_plugins.IpuPlugin.Rules.{P4rtClient, RuleParams, get_add_rule_sets, get_del_rule_sets}
use ipu_opi_plugins.IpuPlugin.Rules.Coverage.{Match, rule_sets-Match}
use ipu_opi_plugins.IpuPlugin.Rules.Address.{mac_key_injective}

abbrev test_mac : List ℕ
test_mac = 0 ∷ 7 ∷ 1 ∷ 2 ∷ 3 ∷ 250 ∷ []

test_bytes : AreBytes test_mac
test_bytes =
    (omega arith, (omega arith, (omega arith, (omega arith, (omega arith, (omega arith, tt))))))

abbrev test_client : P4rtClient
test_client = record {
  p4br = "br0";
  port_mux_vsi = pos 10;
  bridge_type = linux_bridge;
  p4_rt_bin = "/opt/p4/p4-cp-nws/bin/p4rt-ctl";
}

rule_sets-Match_example :
    (adds dels : List RuleParams) × (get_add_rule_sets test_client test_mac (pos 5) ≡ ok adds)
    × (get_del_rule_sets test_client test_mac (pos 5) ≡ ok dels)
    × Match dels adds
rule_sets-Match_example = rule_sets-Match test_client test_mac (pos 5) (omega arith) (omega arith)

mac_key_injective_example : ◌≡◌ {A = List ℕ} test_mac test_mac
mac_key_injective_example =
    mac_key_injective test_mac test_mac test_bytes test_bytes (omega arith) refl refl

abbrev node : Kernel
node = record {
  devices =
      ("p_vlan5", record { link = new_link vlan "p_vlan5"; master = none; up = false })
      ∷ ("br0", record { link = new_link bridge "br0"; master = none; up = true })
      ∷ [];
  next_index = 3;
}

ensures : (ensure_bridge_exists memory "br1" node).0 ≡ ok tt
unfolding ensure_bridge_exists memory lookup insert string_eq
ensures = refl

ensure_bridge_exists_lem_example :
    (d : Device) × (device_of (ensure_bridge_exists memory "br1" node).1 "br1" ≡ some d)
    × (d.link.link_type ≡ bridge)
    × ((j : String)
        → ("br1" == j) ≡ false
        → device_of (ensure_bridge_exists memory "br1" node).1 j ≡ device_of node j)
ensure_bridge_exists_lem_example = ensure_bridge_exists_lem memory-IsLawful "br1" node ensures
