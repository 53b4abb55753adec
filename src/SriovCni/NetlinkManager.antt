-- ===== src/SriovCni/NetlinkManager.antt =====
-- The interface of sriov_cni/pkg/utils/netlink_manager.go, by which the manager of the virtual
-- functions calls the package netlink, and `MyNetlink`, which passes each call on.
use ipu_opi_plugins.Prelude.{ℕ, Bool, Option, String, List}
use ipu_opi_plugins.Prelude.Int.{ℤ}
use ipu_opi_plugins.Outcome.{Attempt}
use ipu_opi_plugins.SriovCni.Host.{Host, VfLink}

pub record NetlinkManager (K : Type 0) : Type 0 where
  pub link_by_name : K → String → Option VfLink
  pub link_set_vf_vlan_qos_proto : VfLink → ℤ → ℤ → ℤ → ℤ → Attempt K
  pub link_set_vf_hardware_addr : VfLink → ℤ → List ℕ → Attempt K
  pub link_set_hardware_addr : VfLink → List ℕ → Attempt K
  pub link_set_up : VfLink → Attempt K
  pub link_set_down : VfLink → Attempt K
  pub link_set_ns_fd : VfLink → ℕ → Attempt K
  pub link_set_name : VfLink → String → Attempt K
  pub link_set_vf_rate : VfLink → ℤ → ℤ → ℤ → Attempt K
  pub link_set_vf_spoofchk : VfLink → ℤ → Bool → Attempt K
  pub link_set_vf_trust : VfLink → ℤ → Bool → Attempt K
  pub link_set_vf_state : VfLink → ℤ → ℕ → Attempt K

abbrev pub my_netlink : {K : Type 0} → Host K → NetlinkManager K
my_netlink host = record {
  link_by_name = host.link_by_name;
  link_set_vf_vlan_qos_proto = host.link_set_vf_vlan_qos_proto;
  link_set_vf_hardware_addr = host.link_set_vf_hardware_addr;
  link_set_hardware_addr = host.link_set_hardware_addr;
  link_set_up = host.link_set_up;
  link_set_down = host.link_set_down;
  link_set_ns_fd = host.link_set_ns_fd;
  link_set_name = host.link_set_name;
  link_set_vf_rate = host.link_set_vf_rate;
  link_set_vf_spoofchk = host.link_set_vf_spoofchk;
  link_set_vf_trust = host.link_set_vf_trust;
  link_set_vf_state = host.link_set_vf_state;
}
