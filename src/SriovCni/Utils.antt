-- ===== src/SriovCni/Utils.antt =====
-- The helpers of sriov_cni/pkg/utils/utils.go.
pub mod Retry
pub mod Shared
pub mod Time
pub mod VfId
use Prim.Native.String
use ipu_opi_plugins.Prelude.{
  ℕ, zero, suc, ◌+◌, ◌-◌, ◌≡◌, refl, Bool, true, false, not, ◌&&◌, ◌||◌, Option, none, some, String,
  ◌<>◌, List, [], ◌∷◌, ◌++◌, ltb, length, get_elem?, ◌==◌, string_eq, nat_eq, bytes_eq,
  if◌then◌else◌,
}
use ipu_opi_plugins.Prelude.Int.{ℤ, pos, negsuc}
use ipu_opi_plugins.Outcome.{
  Outcome, ok, err, panic, Action, pure, throw, throw_if, gets, or_throw, or_crash, attempt,
  of_outcome, ◌>>=◌, ◌>>◌,
}
use ipu_opi_plugins.Text.Decimal.{format, atoi}
use ipu_opi_plugins.Text.Space.{trim_space, split}
use ipu_opi_plugins.Text.Hardware.{hardware_string}
use ipu_opi_plugins.SriovCni.Types.{VfInfo}
use ipu_opi_plugins.SriovCni.NetlinkManager.{NetlinkManager, my_netlink}
use ipu_opi_plugins.SriovCni.Host.{
  bad_number, mac_differs, lookup_failed, no_data, not_a_symlink, driver_failed,
  link_name_not_found, mkdir_failed, parse_mac_failed, pf_not_found, read_failed, remove_failed,
  set_failed, sysfs_failed, vf_not_found, write_failed, Host, FilePath, CniError, VfLink,
}

abbrev pub net_directory : String
net_directory = "/sys/class/net"

abbrev pub sys_bus_pci : String
sys_bus_pci = "/sys/bus/pci/devices"

abbrev pub userspace_drivers : List String
userspace_drivers = "vfio-pci" ∷ "uio_pci_generic" ∷ "igb_uio" ∷ []

-- `filepath.Base`: the last element that is not empty.
last_part : String → List String → String
last_part d [] = d
last_part d (x ∷ xs) = last_part (if x == "" then d else x) xs

unfoldable pub base : String → String
unfolding last_part
base path = if path == "" then "." else last_part "/" (split b'/' path)

-- `xs[i]`; the program panics at `none`.
abbrev pub at : {A : Type 0} → List A → ℤ → Option A
at xs (pos i) = get_elem? xs i
at xs (negsuc i) = none

unfoldable pub is_valid_mac_address : List ℕ → Bool
is_valid_mac_address addr =
    length addr == 6
    && not (addr == 0 ∷ 0 ∷ 0 ∷ 0 ∷ 0 ∷ 0 ∷ [])
    && not (addr == 0xff ∷ 0xff ∷ 0xff ∷ 0xff ∷ 0xff ∷ 0xff ∷ [])

module _ {K : Type 0} (host : Host K) where
  abbrev n_link : NetlinkManager K
  n_link = my_netlink host

  abbrev pub Cni : Type 0 → Type 0
  Cni A = Action K CniError A

  unfoldable pub enable_arp_and_ndisc_notify : String → Cni (Unit {0})
  enable_arp_and_ndisc_notify if_name = do
    attempt (host.write_file ("/proc/sys/net/ipv4/conf/" ∷ if_name ∷ "arp_notify" ∷ []) "1")
        write_failed
    attempt (host.write_file ("/proc/sys/net/ipv6/conf/" ∷ if_name ∷ "ndisc_notify" ∷ []) "1")
        write_failed

  -- The functions that only read the node answer an outcome and leave the state alone.
  unfoldable pub get_sriov_num_vfs : K → String → Outcome CniError ℤ
  get_sriov_num_vfs k if_name =
      let sriov_file = net_directory ∷ if_name ∷ "device" ∷ "/sriov_numvfs" ∷ [] in
      elim (host.lstat k sriov_file) [
        | none ↦ err sysfs_failed
        | some _ ↦ elim (host.read_file k sriov_file) [
          | none ↦ err sysfs_failed
          | some data' ↦
              if data' == ""
              then err no_data
              else elim (atoi (trim_space data')) [ none ↦ err bad_number | some n ↦ ok n ]
        ]
      ]

  abbrev pub vf_dir : String → ℤ → FilePath
  vf_dir pf_name vf = net_directory ∷ pf_name ∷ "device" ∷ ("virtfn" <> format vf) ∷ []

  -- The test of one round of the loop in `GetVfid`; `continue` is a failed test.
  abbrev pub is_vf : K → String → String → ℕ → Bool
  is_vf k addr pf_name vf = elim (host.lstat k (vf_dir pf_name (pos vf))) [
    | none ↦ false
    | some _ ↦ elim (host.read_link k (vf_dir pf_name (pos vf))) [
      | none ↦ false
      | some pciinfo ↦ base pciinfo == addr
    ]
  ]

  -- The rounds from `vf` on, of which `n` are left.
  unfoldable pub find_vf : K → String → String → ℕ → ℕ → Outcome CniError ℤ
  find_vf k addr pf_name zero vf = err vf_not_found
  find_vf k addr pf_name (suc n) vf =
      let rest = find_vf k addr pf_name n (suc vf) in
      if is_vf k addr pf_name vf then ok (pos vf) else rest

  abbrev pub rounds : ℤ → ℕ
  rounds (pos n) = n
  rounds (negsuc n) = 0

  unfoldable pub get_vfid : K → String → String → Outcome CniError ℤ
  get_vfid k addr pf_name = elim (get_sriov_num_vfs k pf_name) [
    | err e ↦ err e
    | panic ↦ panic
    | ok vf_total ↦ find_vf k addr pf_name (rounds vf_total) 0
  ]

  abbrev pub first_name : CniError → List String → Outcome CniError String
  first_name e [] = err e
  first_name e (name ∷ names) = ok name

  -- The names in a directory that `os.Lstat` finds.
  abbrev pub names_in : K → FilePath → Outcome CniError (List String)
  names_in k dir = elim (host.lstat k dir) [
    | none ↦ err sysfs_failed
    | some _ ↦ elim (host.read_dir k dir) [ none ↦ err sysfs_failed | some names ↦ ok names ]
  ]

  unfoldable pub get_pf_name : K → String → Outcome CniError String
  get_pf_name k vf = elim (names_in k (sys_bus_pci ∷ vf ∷ "physfn" ∷ "net" ∷ [])) [
    | err e ↦ err e
    | panic ↦ panic
    | ok [] ↦ err pf_not_found
    | ok (name ∷ names) ↦ ok (trim_space name)
  ]

  unfoldable pub get_pci_address : K → String → ℤ → Outcome CniError String
  get_pci_address k if_name vf = elim (host.lstat k (vf_dir if_name vf)) [
    | none ↦ err sysfs_failed
    | some symlink ↦
        if not symlink then err not_a_symlink else elim (host.read_link k (vf_dir if_name vf)) [
          | none ↦ err sysfs_failed
          | some pciinfo ↦ ok (base pciinfo)
        ]
  ]

  unfoldable pub get_vf_link_name : K → String → Outcome CniError String
  get_vf_link_name k pci_addr = elim (names_in k (sys_bus_pci ∷ pci_addr ∷ "net" ∷ [])) [
    | err e ↦ err e
    | panic ↦ panic
    | ok names ↦ first_name link_name_not_found names
  ]

  unfoldable pub get_vf_link_names_from_vfid : K → String → ℤ → Outcome CniError (List String)
  get_vf_link_names_from_vfid k pf_name vf_id = names_in k (vf_dir pf_name vf_id ++ "net" ∷ [])

  is_one_of : String → List String → Bool
  is_one_of name [] = false
  is_one_of name (drv ∷ drvs) = name == drv || is_one_of name drvs

  unfoldable pub has_dpdk_driver : K → String → Outcome CniError Bool
  unfolding is_one_of
  has_dpdk_driver k pci_addr =
      elim (host.eval_symlinks k (sys_bus_pci ∷ pci_addr ∷ "driver" ∷ [])) [
        | none ↦ err driver_failed
        | some driver_path ↦ elim (host.stat_name k driver_path) [
          | none ↦ err driver_failed
          | some driver_name ↦ ok (is_one_of driver_name userspace_drivers)
        ]
      ]

  -- The file below `data_dir` that holds the configuration of a container's interface.
  abbrev pub cache_path : FilePath → String → String → FilePath
  cache_path data_dir cid pod_if_name = data_dir ++ (cid <> ("-" <> pod_if_name)) ∷ []

  unfoldable pub save_scratch_net_conf : FilePath → FilePath → String → Cni (Unit {0})
  save_scratch_net_conf data_dir path netconf = do
    attempt (host.mkdir_all data_dir) mkdir_failed
    attempt (host.write_file path netconf) write_failed

  unfoldable pub read_scratch_net_conf : K → FilePath → Outcome CniError String
  read_scratch_net_conf k path = elim (host.read_file k path) [
    | none ↦ err read_failed
    | some data' ↦ ok data'
  ]

  unfoldable pub clean_cached_net_conf : FilePath → Cni (Unit {0})
  clean_cached_net_conf path = attempt (host.remove path) remove_failed

  -- The rounds of `Retry` that are left, behind the outcome `last`.
  unfoldable pub retry_behind : Outcome CniError (Unit {0}) → ℕ → Cni (Unit {0}) → Cni (Unit {0})
  retry_behind last zero f k = (last, k)
  retry_behind last (suc n) f k =
      let (r, k') = f k in
      elim r [
        | ok _ ↦ (ok tt, k')
        | err e ↦ retry_behind (err e) n f (host.sleep k')
        | panic ↦ (panic, k')
      ]

  unfoldable pub retry : ℕ → Cni (Unit {0}) → Cni (Unit {0})
  retry retries f k = retry_behind (ok tt) retries f k

  -- The functions that `SetVFEffectiveMAC` and `SetVFHardwareMAC` retry.
  unfoldable pub try_effective_mac : VfLink → String → List ℕ → String → Cni (Unit {0})
  try_effective_mac org_link name hwaddr mac_address = do
    attempt (n_link.link_set_hardware_addr org_link hwaddr) set_failed
    link ← or_throw (← gets (λ k. n_link.link_by_name k name)) lookup_failed
    throw_if (not (hardware_string link.hardware_addr == mac_address)) mac_differs

  unfoldable pub try_hardware_mac : VfLink → String → ℤ → List ℕ → String → Cni (Unit {0})
  try_hardware_mac org_link pf vf_id hwaddr mac_address = do
    attempt (n_link.link_set_vf_hardware_addr org_link vf_id hwaddr) set_failed
    link ← or_throw (← gets (λ k. n_link.link_by_name k pf)) lookup_failed
    vf ← or_crash (at link.vfs vf_id)
    throw_if (not (hardware_string vf.mac == mac_address)) mac_differs

  unfoldable pub set_vf_effective_mac : String → String → Cni (Unit {0})
  set_vf_effective_mac name mac_address = do
    hwaddr ← or_throw (host.parse_mac mac_address) parse_mac_failed
    org_link ← or_throw (← gets (λ k. n_link.link_by_name k name)) lookup_failed
    retry 20 (try_effective_mac org_link name hwaddr mac_address)

  unfoldable pub set_vf_hardware_mac : String → ℤ → String → Cni (Unit {0})
  set_vf_hardware_mac pf vf_id mac_address = do
    hwaddr ← or_throw (host.parse_mac mac_address) parse_mac_failed
    org_link ← or_throw (← gets (λ k. n_link.link_by_name k pf)) lookup_failed
    retry 20 (try_hardware_mac org_link pf vf_id hwaddr mac_address)
