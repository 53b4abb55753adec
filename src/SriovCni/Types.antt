-- ===== src/SriovCni/Types.antt =====
-- The data of sriov_cni/pkg/types/types.go. `CniConf` holds what the program reads of the CNI
-- library's `types.NetConf`. A pointer that may be nil is an `Option`.
use ipu_opi_plugins.Prelude.{ℕ, Bool, not, Option, String, List, ◌==◌, nat_eq}
use ipu_opi_plugins.Prelude.Int.{ℤ, pos}
use ipu_opi_plugins.Text.Hardware.{hardware_string}

-- `netlink.VfInfo`, as far as it is read.
pub record VfInfo : Type 0 where
  pub id : ℤ
  pub mac : List ℕ
  pub vlan : ℤ
  pub qos : ℤ
  pub vlan_proto : ℤ
  pub spoofchk : Bool
  pub link_state : ℕ
  pub max_tx_rate : ℕ
  pub min_tx_rate : ℕ
  pub trust : ℕ

pub record VfState : Type 0 where
  pub host_if_name : String
  pub spoof_chk : Bool
  pub trust : Bool
  pub admin_mac : String
  pub effective_mac : String
  pub vlan : ℤ
  pub vlan_qos : ℤ
  pub vlan_proto : ℤ
  pub min_tx_rate : ℤ
  pub max_tx_rate : ℤ
  pub link_state : ℕ

unfoldable pub fill_from_vf_info : VfState → VfInfo → VfState
fill_from_vf_info vs info = record vs {
  admin_mac = hardware_string info.mac;
  link_state = info.link_state;
  max_tx_rate = pos info.max_tx_rate;
  min_tx_rate = pos info.min_tx_rate;
  vlan = info.vlan;
  vlan_qos = info.qos;
  vlan_proto = info.vlan_proto;
  spoof_chk = info.spoofchk;
  trust = not (info.trust == 0);
}

pub record NetConf : Type 0 where
  pub cni_version : String
  pub ipam_type : String
  pub orig_vf_state : VfState
  pub dpdk_mode : Bool
  pub master : String
  pub mac : String
  pub vlan : Option ℤ
  pub vlan_qos : Option ℤ
  pub vlan_proto : Option String
  pub device_id : String
  pub vf_id : ℤ
  pub min_tx_rate : Option ℤ
  pub max_tx_rate : Option ℤ
  pub spoof_chk : String
  pub trust : String
  pub link_state : String
  pub runtime_mac : String
  pub dpu_daemon_address : String

abbrev pub proto_8021q : String
proto_8021q = "802.1q"

abbrev pub proto_8021ad : String
proto_8021ad = "802.1ad"
