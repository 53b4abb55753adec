-- ===== src/Tests/Requests.antt =====
-- The request for the second virtual function of the physical function ens1.
use ipu_opi_plugins.Prelude.{false, ℕ, ◌≡◌, refl, arith, String, List, [], ◌∷◌, none, some, nat_eq}
use ipu_opi_plugins.Prelude.Int.{pos}
use ipu_opi_plugins.Text.Decimal.{format}
use ipu_opi_plugins.SriovCni.Types.{NetConf}
use ipu_opi_plugins.SriovCni.Command.{port_name, create_request}
use ipu_opi_plugins.SriovCni.Command.Requests.{
  create_request-IsAcceptable, create_request-refused, port_name_injective,
}
use ipu_opi_plugins.IpuPlugin.BridgePort.Validation.{IsAcceptable}

abbrev pub conf_for : String → ℕ → NetConf
conf_for master id = record {
  cni_version = "0.4.0";
  ipam_type = "";
  orig_vf_state = record {
    host_if_name = "ens1v1";
    spoof_chk = false;
    trust = false;
    admin_mac = "";
    effective_mac = "00:08:00:00:03:14";
    vlan = pos 0;
    vlan_qos = pos 0;
    vlan_proto = pos 0;
    min_tx_rate = pos 0;
    max_tx_rate = pos 0;
    link_state = 0;
  };
  dpdk_mode = false;
  master = master;
  mac = "";
  vlan = some (pos 0);
  vlan_qos = some (pos 0);
  vlan_proto = some "802.1q";
  device_id = "0000:03:00.5";
  vf_id = pos id;
  min_tx_rate = none;
  max_tx_rate = none;
  spoof_chk = "";
  trust = "";
  link_state = "";
  runtime_mac = "";
  dpu_daemon_address = "localhost:50151";
}

abbrev pub test_mac : List ℕ
test_mac = 0 ∷ 8 ∷ 0 ∷ 0 ∷ 3 ∷ 20 ∷ []

create_request-IsAcceptable_example : IsAcceptable (create_request (conf_for "ens1" 1) test_mac)
create_request-IsAcceptable_example =
    create_request-IsAcceptable (conf_for "ens1" 1) 1 test_mac 8 refl (omega arith) (omega arith)
      refl (omega arith)

create_request-refused_example : ¬ IsAcceptable (create_request (conf_for "ens1" 5000) test_mac)
create_request-refused_example =
    create_request-refused (conf_for "ens1" 5000) 5000 test_mac refl (omega arith) (omega arith)

port_name_injective_example : (conf_for "ens1" 1).vf_id ≡ (conf_for "ens1" 1).vf_id
port_name_injective_example =
    port_name_injective (conf_for "ens1" 1) (conf_for "ens1" 1) (omega arith) (omega arith) refl
      refl

-- Virtual functions of two physical functions that share a name of a port.
shared_name : port_name (conf_for "ens1" 11) ≡ port_name (conf_for "ens11" 1)
unfolding port_name format nat_eq
shared_name = refl
