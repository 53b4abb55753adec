-- ===== src/SriovCni/Host.antt =====
-- What the CNI plugin uses of the node: the files below /sys and /var/lib/cni, the network
-- namespaces and the links. The packages `os`, `ns` and `netlink` are the fields of `Host`
-- over an unknown state `K` of the node.
use ipu_opi_plugins.Prelude.{ℕ, Bool, Option, String, List}
use ipu_opi_plugins.Prelude.Int.{ℤ}
use ipu_opi_plugins.Outcome.{Attempt}
use ipu_opi_plugins.SriovCni.Types.{VfInfo}

-- A path is the list of the elements that `filepath.Join` is given.
abbrev pub FilePath : Type 0
FilePath = List String

-- `os.Stat`
pub data Stat : Type 0 where
  there not_exist stat_failed : Stat

-- `os.Remove`, with the errors that the program tells apart.
pub data Removal : Type 0 where
  removed nothing_there remove_error : Removal

-- `ns.GetNS`: an open namespace, or no namespace at the path, or another error.
pub data NsResult : Type 0 where
  opened : ℕ → NsResult
  ns_not_exist ns_failed : NsResult

pub record VfLink : Type 0 where
  pub name : String
  pub index : ℕ
  pub hardware_addr : List ℕ
  pub vfs : List VfInfo

pub record Host (K : Type 0) : Type 0 where
  -- The answer tells whether the file is a symbolic link.
  pub lstat : K → FilePath → Option Bool
  pub stat : K → FilePath → Stat
  pub read_file : K → FilePath → Option String
  pub read_link : K → FilePath → Option String
  pub read_dir : K → FilePath → Option (List String)
  pub eval_symlinks : K → FilePath → Option FilePath
  pub stat_name : K → FilePath → Option String
  pub mkdir_all : FilePath → Attempt K
  pub write_file : FilePath → String → Attempt K
  pub remove : FilePath → Attempt K
  pub sleep : K → K
  pub get_ns : K → String → NsResult
  pub current_ns : K → Option ℕ
  -- `NetNS.Do` changes to the namespace, runs a function and changes back.
  pub enter : ℕ → Attempt K
  pub leave : K → K
  pub link_by_name : K → String → Option VfLink
  pub link_set_down : VfLink → Attempt K
  pub link_set_up : VfLink → Attempt K
  pub link_set_name : VfLink → String → Attempt K
  pub link_set_ns_fd : VfLink → ℕ → Attempt K
  pub link_set_hardware_addr : VfLink → List ℕ → Attempt K
  pub link_set_vf_vlan_qos_proto : VfLink → ℤ → ℤ → ℤ → ℤ → Attempt K
  pub link_set_vf_hardware_addr : VfLink → ℤ → List ℕ → Attempt K
  pub link_set_vf_rate : VfLink → ℤ → ℤ → ℤ → Attempt K
  pub link_set_vf_spoofchk : VfLink → ℤ → Bool → Attempt K
  pub link_set_vf_trust : VfLink → ℤ → Bool → Attempt K
  pub link_set_vf_state : VfLink → ℤ → ℕ → Attempt K
  pub parse_mac : String → Option (List ℕ)

-- The errors of the plugin, by the message that the source gives them; one that wraps another
-- keeps it.
pub data CniError : Type 0 where
  lookup_failed parse_mac_failed set_failed mac_differs namespace_failed : CniError
  no_such_vf unknown_link_state rename_failed down_failed up_failed move_failed : CniError
  sysfs_failed no_data bad_number vf_not_found pf_not_found link_name_not_found : CniError
  not_a_symlink driver_failed shared_pf_not_found : CniError
  mkdir_failed write_failed remove_failed stat_error read_failed : CniError
  bad_json no_pci_address already_allocated no_interface_or_driver : CniError
  bad_vlan bad_qos qos_without_vlan bad_proto proto_without_vlan bad_link_state : CniError
  no_cache bad_args ipam_failed dial_failed rpc_failed : CniError
  no_socket hops_failed send_failed icmp_failed neither_ip bad_hardware_addr : CniError
  bad_result missing_ip configure_failed print_failed : CniError
