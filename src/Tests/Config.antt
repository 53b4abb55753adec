-- ===== src/Tests/Config.antt =====
-- A configuration that is loaded and cannot be reset.
use ipu_opi_plugins.Prelude.{
  ◌≡◌, ◌≢◌, refl, ap, Bool, true, false, none, some, arith, ◌==◌, string_eq, nat_eq,
}
use ipu_opi_plugins.Prelude.Int.{pos}
use ipu_opi_plugins.Outcome.{ok}
use ipu_opi_plugins.Text.Space.{trim_space, split}
use ipu_opi_plugins.Text.Decimal.{atoi, format}
use ipu_opi_plugins.SriovCni.Types.{VfState, NetConf}
use ipu_opi_plugins.SriovCni.Utils.{
  base, get_sriov_num_vfs, get_vfid, find_vf, get_pf_name, get_vf_link_name,
}
use ipu_opi_plugins.SriovCni.Allocator.{is_allocated}
use ipu_opi_plugins.SriovCni.Config.{
  Json, to_lower, check_settings, find_interface, get_vf_info, settle, take_device, load_conf,
}
use ipu_opi_plugins.SriovCni.Config.Bounds.{IsComplete, load_conf-IsComplete}
use ipu_opi_plugins.Tests.SriovCni.{host, node, path_dec}

abbrev no_state : VfState
no_state = record {
  host_if_name = "";
  spoof_chk = false;
  trust = false;
  admin_mac = "";
  effective_mac = "";
  vlan = pos 0;
  vlan_qos = pos 0;
  vlan_proto = pos 0;
  min_tx_rate = pos 0;
  max_tx_rate = pos 0;
  link_state = 0;
}

-- The JSON text is not read: every text stands for this configuration.
abbrev pub input : NetConf
input = record {
  cni_version = "0.4.0";
  ipam_type = "";
  orig_vf_state = no_state;
  dpdk_mode = false;
  master = "";
  mac = "00:11";
  vlan = some (pos 100);
  vlan_qos = some (pos 3);
  vlan_proto = some "802.1AD";
  device_id = "0000:03:00.5";
  vf_id = pos 0;
  min_tx_rate = none;
  max_tx_rate = none;
  spoof_chk = "";
  trust = "on";
  link_state = "auto";
  runtime_mac = "";
  dpu_daemon_address = "";
}

abbrev json : Json
json = record { unmarshal = λ s. some input; marshal = λ n. none }

abbrev pub loaded : NetConf
loaded = record input {
  dpu_daemon_address = "localhost:50151";
  master = "ens1";
  vf_id = pos 1;
  orig_vf_state = record no_state { host_if_name = "ens1" };
  vlan_proto = some "802.1ad";
}

loads : load_conf host json "{}" node ≡ (ok loaded, node)
unfolding load_conf take_device settle find_interface check_settings get_vf_info get_pf_name
    get_vf_link_name is_allocated get_vfid find_vf get_sriov_num_vfs base split trim_space atoi
    format to_lower path_dec string_eq nat_eq
loads = refl

load_conf-IsComplete_example : IsComplete loaded
load_conf-IsComplete_example = load_conf-IsComplete host json "{}" loaded node node loads

pub has_mac : loaded.mac ≢ ""
unfolding string_eq
has_mac e = let f : ◌≡◌ {A = Bool} false true = ap (λ s. s == "") e in ground arith

pub no_admin_mac : host.parse_mac loaded.orig_vf_state.admin_mac ≡ none
unfolding string_eq
no_admin_mac = refl
