-- ===== src/SriovCni/Sriov.antt =====
-- The SR-IOV manager of sriov_cni/pkg/sriov/sriov.go. A call reads the configuration that its
-- caller holds a pointer to; `setup_vf` also writes to it, so it runs on the pair of both.
pub mod Restore
pub mod Entries
pub mod Lawful
pub mod Steps
pub mod Addresses
pub mod Entry
pub mod Configured
pub mod Reset
pub mod Namespaces
pub mod Effective
pub mod Moves
pub mod InPod
pub mod RoundTrip
use ipu_opi_plugins.Prelude.{
  ◌&&◌, ℕ, ◌≡◌, Bool, true, false, not, ◌||◌, Option, none, some, String, ◌<>◌, List, [], ◌∷◌, ◌==◌,
  string_eq, if◌then◌else◌,
}
use ipu_opi_plugins.Prelude.Int.{ℤ, pos, negsuc, ltb_ℤ}
use ipu_opi_plugins.Outcome.{
  Outcome, ok, err, panic, Action, pure, throw, throw_if, gets, or_throw, attempt, modify, zoom,
  ignore_error, ◌>>=◌, ◌>>◌,
}
use ipu_opi_plugins.Text.Decimal.{format}
use ipu_opi_plugins.Text.Hardware.{hardware_string}
use ipu_opi_plugins.SriovCni.Types.{NetConf, VfState, VfInfo, fill_from_vf_info}
use ipu_opi_plugins.SriovCni.NetlinkManager.{NetlinkManager, my_netlink}
use ipu_opi_plugins.SriovCni.Host.{
  unknown_link_state, move_failed, no_such_vf, set_failed, up_failed, down_failed, lookup_failed,
  namespace_failed, rename_failed, Host, CniError, VfLink,
}
use ipu_opi_plugins.SriovCni.Utils.{
  Cni, enable_arp_and_ndisc_notify, set_vf_effective_mac, set_vf_hardware_mac,
}

unfoldable pub get_vf_info : List VfInfo → ℤ → Option VfInfo
get_vf_info [] id = none
get_vf_info (vf ∷ vfs) id =
    let rest = get_vf_info vfs id in
    if not (ltb_ℤ vf.id id) && not (ltb_ℤ id vf.id) then some vf else rest

-- `netlink.VF_LINK_STATE_AUTO` and the two that follow it.
abbrev pub link_state_number : String → Option ℕ
link_state_number s =
    if s == "auto"
    then some 0
    else if s == "enable"
    then some 1
    else if s == "disable"
    then some 2
    else none

abbrev pub is_some : {A : Type 0} → Option A → Bool
is_some none = false
is_some (some _) = true

-- The rate that is set: 0 for a pointer that is nil.
abbrev pub rate : Option ℤ → ℤ
rate none = pos 0
rate (some r) = r

module _ {K : Type 0} (host : Host K) where
  abbrev n_link : NetlinkManager K
  n_link = my_netlink host

  -- `if c { m }`
  abbrev pub when : Bool → Cni host (Unit {0}) → Cni host (Unit {0})
  when c m k = if c then m k else (ok tt, k)

  abbrev pub named : String → CniError → Cni host VfLink
  named name e k = or_throw (n_link.link_by_name k name) e k

  -- `netns.Do(f)`
  abbrev pub in_namespace : ℕ → Cni host (Unit {0}) → Cni host (Unit {0})
  in_namespace fd f k =
      let (entered, k1) = host.enter fd k in
      let (r, k2) = f k1 in if entered then (r, host.leave k2) else (err namespace_failed, k1)

  unfoldable pub set_up_in_pod : NetConf → String → VfLink → Cni host (Unit {0})
  set_up_in_pod conf pod_if_name link = do
    attempt (n_link.link_set_name link pod_if_name) rename_failed
    ignore_error (enable_arp_and_ndisc_notify host pod_if_name)
    when (not (conf.mac == "")) (set_vf_effective_mac host pod_if_name conf.mac)
    attempt (n_link.link_set_up link) up_failed

  -- The configuration's `EffectiveMAC` is the address that the link had.
  abbrev pub with_effective_mac : VfLink → NetConf → NetConf
  with_effective_mac link conf = record conf {
    orig_vf_state = record conf.orig_vf_state {
      effective_mac = hardware_string link.hardware_addr;
    };
  }

  -- The steps of `SetupVF` from the renaming to the pod's namespace.
  unfoldable pub move_to_pod : NetConf → String → ℕ → VfLink → Cni host (Unit {0})
  move_to_pod conf pod_if_name netns link = do
    attempt (n_link.link_set_down link) down_failed
    attempt (n_link.link_set_name link ("temp_" <> format (pos link.index))) rename_failed
    attempt (n_link.link_set_ns_fd link netns) move_failed
    in_namespace netns (set_up_in_pod conf pod_if_name link)

  unfoldable pub setup_vf : String → ℕ → Action (K × NetConf) CniError (Unit {0})
  setup_vf pod_if_name netns (k, conf) =
      elim (n_link.link_by_name k conf.orig_vf_state.host_if_name) [
        | none ↦ (err lookup_failed, (k, conf))
        | some link ↦
            let (r, k') = move_to_pod conf pod_if_name netns link k in
            (r, (k', with_effective_mac link conf))
      ]

  unfoldable pub release_in_pod : NetConf → String → ℕ → Cni host (Unit {0})
  release_in_pod conf pod_if_name initns = do
    link ← named pod_if_name lookup_failed
    attempt (n_link.link_set_down link) down_failed
    attempt (n_link.link_set_name link conf.orig_vf_state.host_if_name) rename_failed
    when (not (conf.mac == ""))
        (set_vf_effective_mac host conf.orig_vf_state.host_if_name conf.orig_vf_state.effective_mac)
    attempt (n_link.link_set_ns_fd link initns) move_failed

  unfoldable pub release_vf : NetConf → String → ℕ → Cni host (Unit {0})
  release_vf conf pod_if_name netns = do
    initns ← or_throw (← gets host.current_ns) namespace_failed
    in_namespace netns (release_in_pod conf pod_if_name initns)

  -- `ApplyVFConfig`, whose VLAN step is commented out in the source.
  unfoldable pub apply_vf_config : NetConf → Cni host (Unit {0})
  apply_vf_config conf = do
    pf_link ← named conf.master lookup_failed
    when (not (conf.mac == "")) (set_vf_hardware_mac host conf.master conf.vf_id conf.mac)
    when (is_some conf.min_tx_rate || is_some conf.max_tx_rate) (
        attempt
          (n_link.link_set_vf_rate pf_link conf.vf_id (rate conf.min_tx_rate)
            (rate conf.max_tx_rate))
          set_failed)
    when (not (conf.spoof_chk == "")) (
        attempt (n_link.link_set_vf_spoofchk pf_link conf.vf_id (conf.spoof_chk == "on"))
          set_failed)
    when (not (conf.trust == ""))
        (attempt (n_link.link_set_vf_trust pf_link conf.vf_id (conf.trust == "on")) set_failed)
    when (not (conf.link_state == "")) (do
      state ← or_throw (link_state_number conf.link_state) unknown_link_state
      attempt (n_link.link_set_vf_state pf_link conf.vf_id state) set_failed)

  unfoldable pub fill_original_vf_info : K → NetConf → Outcome CniError NetConf
  fill_original_vf_info k conf = elim (n_link.link_by_name k conf.master) [
    | none ↦ err lookup_failed
    | some pf_link ↦ elim (get_vf_info pf_link.vfs conf.vf_id) [
      | none ↦ err no_such_vf
      | some vf_state ↦
          ok (record conf { orig_vf_state = fill_from_vf_info conf.orig_vf_state vf_state })
    ]
  ]

  -- `ResetVFConfig`, whose VLAN step is commented out in the source.
  unfoldable pub reset_vf_config : NetConf → Cni host (Unit {0})
  reset_vf_config conf = do
    pf_link ← named conf.master lookup_failed
    when (not (conf.spoof_chk == "")) (
        attempt (n_link.link_set_vf_spoofchk pf_link conf.vf_id conf.orig_vf_state.spoof_chk)
          set_failed)
    when (not (conf.mac == ""))
        (set_vf_hardware_mac host conf.master conf.vf_id conf.orig_vf_state.admin_mac)
    when (not (conf.trust == ""))
        (attempt (n_link.link_set_vf_trust pf_link conf.vf_id conf.orig_vf_state.trust) set_failed)
    when (is_some conf.min_tx_rate || is_some conf.max_tx_rate) (
        attempt
          (n_link.link_set_vf_rate pf_link conf.vf_id conf.orig_vf_state.min_tx_rate
            conf.orig_vf_state.max_tx_rate)
          set_failed)
    when (not (conf.link_state == "")) (
        attempt (n_link.link_set_vf_state pf_link conf.vf_id conf.orig_vf_state.link_state)
          set_failed)
