-- ===== src/SriovCni/Config.antt =====
-- The configuration of sriov_cni/pkg/config/config.go. The JSON text is read and written by
-- `encoding/json`, the parameter `Json`.
pub mod Bounds
use Prim.Native.String
use Prim.Native.String.{◌∷◌ as ◌∷ˢ◌}
use ipu_opi_plugins.Prelude.{
  zero, ℕ, zero, suc, ◌-◌, ◌≡◌, refl, Bool, true, false, not, ◌&&◌, ◌||◌, Option, none, some,
  String, ◌<>◌, Char, code, List, [], ◌∷◌, ◌++◌, leb, ◌==◌, string_eq, if◌then◌else◌,
}
use ipu_opi_plugins.Prelude.Int.{ℤ, pos, negsuc, ltb_ℤ}
use ipu_opi_plugins.Outcome.{
  Outcome, ok, err, panic, Action, pure, throw, throw_if, gets, or_throw, of_outcome, ◌>>=◌, ◌>>◌,
}
use ipu_opi_plugins.SriovCni.Types.{NetConf, VfState, proto_8021q, proto_8021ad}
use ipu_opi_plugins.SriovCni.Host.{
  bad_link_state, proto_without_vlan, bad_proto, qos_without_vlan, already_allocated, bad_qos,
  no_interface_or_driver, no_pci_address, bad_json, bad_vlan, driver_failed, read_failed, Host,
  FilePath, CniError,
}
use ipu_opi_plugins.SriovCni.Utils.{
  Cni, get_pf_name, get_vfid, get_vf_link_name, has_dpdk_driver, cache_path, read_scratch_net_conf,
  save_scratch_net_conf,
}
use ipu_opi_plugins.SriovCni.Allocator.{new_pci_allocator, is_allocated}

abbrev pub default_cni_dir : FilePath
default_cni_dir = "/var/lib/cni/sriov" ∷ []

abbrev pub default_addr : String
default_addr = "localhost:50151"

-- `skel.CmdArgs`, as far as it is read.
pub record CmdArgs : Type 0 where
  pub container_id : String
  pub netns : String
  pub if_name : String
  pub args : String
  pub stdin_data : String

pub record Json : Type 0 where
  pub unmarshal : String → Option NetConf
  pub marshal : NetConf → Option String

nth_char : String → ℕ → Char → Char
nth_char String.[] i c = c
nth_char (d ∷ˢ s) zero c = d
nth_char (d ∷ˢ s) (suc i) c = nth_char s i c

-- `unicode.ToLower` on the letters of ASCII; other characters stay.
lower_char : Char → Char
unfolding nth_char
lower_char c =
    if leb b'A' (code c) && leb (code c) b'Z'
    then nth_char "abcdefghijklmnopqrstuvwxyz" (code c - b'A') c
    else c

-- `strings.ToLower`
unfoldable pub to_lower : String → String
unfolding lower_char
to_lower String.[] = ""
to_lower (c ∷ˢ s) = lower_char c ∷ˢ to_lower s

-- A Go function that fails returns the zero value beside its error.
abbrev pub value_or_empty : Outcome CniError String → String
value_or_empty (ok s) = s
value_or_empty (err _) = ""
value_or_empty panic = ""

abbrev pub or_default : {A : Type 0} → A → Option A → A
or_default a none = a
or_default _ (some b) = b

abbrev pub is_zero : ℤ → Bool
is_zero z = not (ltb_ℤ z (pos 0)) && not (ltb_ℤ (pos 0) z)

-- The checks at the end of `LoadConf`, in their order.
unfoldable pub check_settings : NetConf → Outcome CniError NetConf
check_settings n =
    let vlan = or_default (pos 0) n.vlan in
    let qos = or_default (pos 0) n.vlan_qos in
    let proto = to_lower (or_default proto_8021q n.vlan_proto) in
    if ltb_ℤ vlan (pos 0) || ltb_ℤ (pos 4094) vlan
    then err bad_vlan
    else if ltb_ℤ qos (pos 0) || ltb_ℤ (pos 7) qos
    then err bad_qos
    else if not (is_zero qos) && is_zero vlan
    then err qos_without_vlan
    else if not (proto == proto_8021ad) && not (proto == proto_8021q)
    then err bad_proto
    else if proto == proto_8021ad && is_zero vlan
    then err proto_without_vlan
    else if not (n.link_state == "")
        && not (n.link_state == "auto")
        && not (n.link_state == "enable")
        && not (n.link_state == "disable")
    then err bad_link_state
    else ok (record n { vlan = some vlan; vlan_qos = some qos; vlan_proto = some proto })

abbrev pub with_address : NetConf → NetConf
with_address n = record n {
  dpu_daemon_address = if n.dpu_daemon_address == "" then default_addr else n.dpu_daemon_address;
}

module _ {K : Type 0} (host : Host K) (json : Json) where
  unfoldable pub get_vf_info : K → String → Outcome CniError (String × ℤ)
  get_vf_info k vf_pci = elim (get_pf_name host k vf_pci) [
    | err e ↦ err e
    | panic ↦ panic
    | ok pf ↦ elim (get_vfid host k vf_pci pf) [
      | err e ↦ err e
      | panic ↦ panic
      | ok vf_id ↦ ok (pf, vf_id)
    ]
  ]

  -- The interface name, which is empty where it is not found, and whether the device has a
  -- driver for user space, which is asked only then.
  unfoldable pub find_interface : K → NetConf → Outcome CniError NetConf
  find_interface k n =
      let name = value_or_empty (get_vf_link_name host k n.device_id) in
      if name == ""
      then elim (has_dpdk_driver host k n.device_id) [
        | err _ ↦ err driver_failed
        | panic ↦ panic
        | ok has ↦ if has then ok (record n { dpdk_mode = true }) else err no_interface_or_driver
      ]
      else ok (record n { orig_vf_state = record n.orig_vf_state { host_if_name = name } })

  -- The steps of `LoadConf` behind the check that the device is free.
  unfoldable pub settle : NetConf → Cni host NetConf
  settle n = do n ← (gets (λ k. find_interface k n) >>= of_outcome); of_outcome (check_settings n)

  -- The steps of `LoadConf` for a device: its physical function, its number there, and the
  -- check that no other pod uses it.
  unfoldable pub take_device : NetConf → Cni host NetConf
  take_device n = do
    (master, vf_id) ← (gets (λ k. get_vf_info k n.device_id) >>= of_outcome)
    allocated ← is_allocated host (new_pci_allocator default_cni_dir) n.device_id
    throw_if allocated already_allocated
    settle (record n { master = master; vf_id = vf_id })

  unfoldable pub load_conf : String → Cni host NetConf
  load_conf bytes = do
    n ← or_throw (json.unmarshal bytes) bad_json
    let n = with_address n
    throw_if (n.device_id == "") no_pci_address
    take_device n

  unfoldable pub load_conf_from_cache : K → CmdArgs → Outcome CniError (NetConf × FilePath)
  load_conf_from_cache k args =
      let path = cache_path host default_cni_dir args.container_id args.if_name in
      elim (read_scratch_net_conf host k path) [
        | err _ ↦ err read_failed
        | panic ↦ panic
        | ok bytes ↦ elim (json.unmarshal bytes) [ none ↦ err bad_json | some n ↦ ok (n, path) ]
      ]

  unfoldable pub save_net_conf : String → FilePath → String → NetConf → Cni host (Unit {0})
  save_net_conf cid data_dir pod_if_name conf = do
    bytes ← or_throw (json.marshal conf) bad_json
    save_scratch_net_conf host data_dir (cache_path host data_dir cid pod_if_name) bytes

unfoldable pub get_mac_address_for_result : NetConf → String
get_mac_address_for_result n =
    if not (n.mac == "")
    then n.mac
    else if not n.dpdk_mode
    then n.orig_vf_state.effective_mac
    else if not (n.orig_vf_state.admin_mac == "00:00:00:00:00:00")
    then n.orig_vf_state.admin_mac
    else ""
