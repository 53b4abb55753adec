-- ===== src/SriovCni/Sriov/Restore.antt =====
-- What the manager records of a virtual function, and when it cannot put it back.
use ipu_opi_plugins.Prelude.{
  ap, subst, inl, inr, ◌≡◌, ◌≢◌, true, not, ◌&&◌, none, some, String, List, [], ◌∷◌, string_eq,
  some_of, arith, Any, Bool-cases,
}
use ipu_opi_plugins.Prelude.Int.{ℤ, pos, negsuc, ltb_ℤ}
use ipu_opi_plugins.Outcome.{ok, err}
use ipu_opi_plugins.SriovCni.Types.{NetConf, VfInfo, fill_from_vf_info}
use ipu_opi_plugins.SriovCni.Host.{parse_mac_failed, Host, VfLink}
use ipu_opi_plugins.SriovCni.Utils.{set_vf_hardware_mac}
use ipu_opi_plugins.SriovCni.Sriov.{get_vf_info, fill_original_vf_info, reset_vf_config}

ℤ-same : (a b : ℤ) → (not (ltb_ℤ a b) && not (ltb_ℤ b a)) ≡ true → a ≡ b
ℤ-same (pos a) (pos b) h = ap pos (ground arith)
ℤ-same (pos a) (negsuc b) h = ground arith
ℤ-same (negsuc a) (pos b) h = ground arith
ℤ-same (negsuc a) (negsuc b) h = ap negsuc (ground arith)

pub get_vf_info_found :
    (vfs : List VfInfo) (id : ℤ) (vf : VfInfo)
    → get_vf_info vfs id ≡ some vf
    → Any (λ x. x ≡ vf) vfs × (vf.id ≡ id)
unfolding get_vf_info
get_vf_info_found [] id vf h = ground arith
get_vf_info_found (x ∷ vfs) id vf h =
    elim (Bool-cases (not (ltb_ℤ x.id id) && not (ltb_ℤ id x.id))) [
      | inl t ↦
          let e : x ≡ vf = ground arith in (inl e, subst (λ y. y.id ≡ id) e (ℤ-same x.id id t))
      | inr f ↦ let (found, same) = get_vf_info_found vfs id vf (ground arith) in (inr found, same)
    ]

module _ {K : Type 0} (host : Host K) where
  pub fill_same :
      (k : K) (conf conf' : NetConf) (pf : VfLink) (vf : VfInfo)
      → host.link_by_name k conf.master ≡ some pf
      → get_vf_info pf.vfs conf.vf_id ≡ some vf
      → fill_original_vf_info host k conf ≡ ok conf'
      → conf' ≡ record conf { orig_vf_state = fill_from_vf_info conf.orig_vf_state vf }
  unfolding fill_original_vf_info
  fill_same k conf conf' pf vf e f h = ground arith

  -- When `FillOriginalVfInfo` succeeds, the master is there and has a virtual function with the
  -- number of the configuration; the state of such a virtual function is recorded, and no other
  -- field of the configuration changes.
  pub fill_original_vf_info_found :
      (k : K) (conf conf' : NetConf)
      → fill_original_vf_info host k conf ≡ ok conf'
      → (pf : VfLink) × (vf : VfInfo) × (host.link_by_name k conf.master ≡ some pf)
        × Any (λ x. x ≡ vf) pf.vfs
        × (vf.id ≡ conf.vf_id)
        × (conf' ≡ record conf { orig_vf_state = fill_from_vf_info conf.orig_vf_state vf })
  unfolding fill_original_vf_info
  fill_original_vf_info_found k conf conf' h =
      let (pf, e) = some_of (host.link_by_name k conf.master) (λ e. ground arith) in
      let (vf, f) = some_of (get_vf_info pf.vfs conf.vf_id) (λ f. ground arith) in
      let (found, same) = get_vf_info_found pf.vfs conf.vf_id vf f in
      (pf, vf, e, found, same, fill_same k conf conf' pf vf e f h)

  set_vf_hardware_mac_refused :
      (pf : String) (id : ℤ) (mac : String) (k : K)
      → host.parse_mac mac ≡ none
      → set_vf_hardware_mac host pf id mac k ≡ (err parse_mac_failed, k)
  unfolding set_vf_hardware_mac
  set_vf_hardware_mac_refused pf id mac k h = ground arith

  -- Where a configuration has a MAC address, and the administrative MAC address that it records
  -- is a text that `net.ParseMAC` refuses, `ResetVFConfig` does not succeed.
  pub reset_vf_config_stuck :
      (conf : NetConf) (k k' : K)
      → conf.mac ≢ ""
      → host.parse_mac conf.orig_vf_state.admin_mac ≡ none
      → reset_vf_config host conf k ≢ (ok tt, k')
  unfolding reset_vf_config
  reset_vf_config_stuck conf k k' m p h =
      let (pf, e) = some_of (host.link_by_name k conf.master) (λ e. ground arith) in
      let k1 = (host.link_set_vf_spoofchk pf conf.vf_id conf.orig_vf_state.spoof_chk k).1 in
      let a = set_vf_hardware_mac_refused conf.master conf.vf_id conf.orig_vf_state.admin_mac k p in
      let b =
        set_vf_hardware_mac_refused conf.master conf.vf_id conf.orig_vf_state.admin_mac k1 p in
      ground arith
