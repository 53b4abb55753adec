-- ===== src/SriovCni/Sriov/Reset.antt =====
-- `ResetVFConfig` behind `ApplyVFConfig`.
use ipu_opi_plugins.Prelude.{
  ◌%◌, ℕ, ◌≡◌, ◌≤◌, ◌<◌, ◌^◌, refl, ◌∙◌, subst, Bool, true, false, not, some, List, if◌then◌else◌,
  ◌==◌, arith, string_eq, nat_eq,
}
use ipu_opi_plugins.Prelude.Int.{ℤ, pos}
use ipu_opi_plugins.Outcome.{Outcome, ok, ◌>>◌}
use ipu_opi_plugins.Text.Hardware.{hardware_string}
use ipu_opi_plugins.SriovCni.Types.{VfInfo, NetConf, fill_from_vf_info}
use ipu_opi_plugins.SriovCni.Host.{CniError, Host, CniError, VfLink, lookup_failed}
use ipu_opi_plugins.SriovCni.Sriov.{
  get_vf_info, apply_vf_config, reset_vf_config, fill_original_vf_info,
}
use ipu_opi_plugins.SriovCni.Sriov.Restore.{get_vf_info_found, fill_same}
use ipu_opi_plugins.SriovCni.Sriov.Entries.{put_vf}
use ipu_opi_plugins.SriovCni.Sriov.Lawful.{IsLawful, with_entry, Shows, first-Shows, Shows-first}
use ipu_opi_plugins.SriovCni.Sriov.Steps.{At, Lands, Takes-bind, Takes-named, Lands-some}
use ipu_opi_plugins.SriovCni.Sriov.Entry.{restored, configured, sets, sets_rates, trust_number}
use ipu_opi_plugins.SriovCni.Sriov.Configured.{
  Differs, Step, mac_step, rate_step, spoofchk_step, trust_step, state_step, after_mac, after_rate,
  after_spoofchk, after_trust, after_state, mac-Step, rate-Step, spoofchk-Step, trust-Step,
  state-Step, apply-Step,
}

-- An entry as a driver reports it: an address that is read back from its text, a trust of 0 or 1, and rates of 32 bits.
pub record IsReported {K : Type 0} (host : Host K) (v : VfInfo) : Type 0 where
  pub reads : host.parse_mac (hardware_string v.mac) ≡ some v.mac
  pub trusts : v.trust ≤ 1
  pub low : v.min_tx_rate < 2 ^ 32
  pub high : v.max_tx_rate < 2 ^ 32

abbrev pub recorded : NetConf → VfInfo → NetConf
recorded conf v = record conf { orig_vf_state = fill_from_vf_info conf.orig_vf_state v }

trust_again : (n : ℕ) → n ≤ 1 → trust_number (not (n == 0)) ≡ n
unfolding nat_eq
trust_again n h = ground arith

fits : (n : ℕ) → n < 2 ^ 32 → n % 2 ^ 32 ≡ n
fits n h = omega arith

if_same : {A : Type 0} (c : Bool) (x : A) → (if c then x else x) ≡ x
if_same true x = refl
if_same false x = refl

get_vf_info_id : (vfs : List VfInfo) (id : ℤ) (v : VfInfo) → get_vf_info vfs id ≡ some v → v.id ≡ id
get_vf_info_id vfs id v found = (get_vf_info_found vfs id v found).1

differs_first :
    (conf : NetConf) (l : VfLink) (v : VfInfo)
    → get_vf_info l.vfs conf.vf_id ≡ some v
    → (v.id ≡ conf.vf_id) × (restored conf v v ≡ v)
differs_first conf l v found = (
  get_vf_info_id l.vfs conf.vf_id v found,
  rw (
    if_same (sets conf.mac) v.mac,
    if_same (sets conf.spoof_chk) v.spoofchk,
    if_same (sets conf.trust) v.trust,
    if_same (sets conf.link_state) v.link_state,
    if_same (sets_rates conf) v.min_tx_rate,
    if_same (sets_rates conf) v.max_tx_rate,
  ),
)

module _ {K : Type 0} (host : Host K) (conf : NetConf) (lawful : IsLawful host conf.master)
    (l : VfLink) (v : VfInfo) (found : get_vf_info l.vfs conf.vf_id ≡ some v)
    (reported : IsReported host v) where
  abbrev left : VfInfo → VfInfo
  left w = after_state host (recorded conf v) lawful l v found (some v.link_state) (
      after_rate host (recorded conf v) lawful l v found (pos v.min_tx_rate) (pos v.max_tx_rate) (
        after_trust host (recorded conf v) lawful l v found (not (v.trust == 0)) (
          after_mac host (recorded conf v) lawful l v found (host.parse_mac (hardware_string v.mac))
            (after_spoofchk host (recorded conf v) lawful l v found v.spoofchk w))))

  left-restored : (w : VfInfo) → left w ≡ restored conf v w
  left-restored w = rw (
    reported.reads,
    trust_again v.trust reported.trusts,
    fits v.min_tx_rate reported.low,
    fits v.max_tx_rate reported.high,
  )

  reset-Step :
      (w : VfInfo)
      → w.id ≡ conf.vf_id
      → Step host
          (recorded conf v)
          lawful
          l
          v
          found
          w
          (reset_vf_config host (recorded conf v))
          (left w)
  unfolding reset_vf_config fill_from_vf_info
  reset-Step w own =
      let s = recorded conf v in
      let a1 = after_spoofchk host s lawful l v found v.spoofchk w in
      let a2 = after_mac host s lawful l v found (host.parse_mac (hardware_string v.mac)) a1 in
      let a3 = after_trust host s lawful l v found (not (v.trust == 0)) a2 in
      let a4 = after_rate host s lawful l v found (pos v.min_tx_rate) (pos v.max_tx_rate) a3 in
      let a5 = after_state host s lawful l v found (some v.link_state) a4 in
      let m1 = λ (now : VfLink). spoofchk_step host s lawful l v found now v.spoofchk in
      let m2 = mac_step host s lawful l v found (hardware_string v.mac) in
      let m3 = λ (now : VfLink). trust_step host s lawful l v found now (not (v.trust == 0)) in
      let m4 = λ (now : VfLink).
        rate_step host s lawful l v found now (pos v.min_tx_rate) (pos v.max_tx_rate) in
      let m5 = λ (now : VfLink). state_step host s lawful l v found now v.link_state in
      let bind =
        Takes-bind host conf.master l conf.vf_id v found (Differs host s lawful l v found) in
      let now = with_entry host conf.master l conf.vf_id v found w in
      Takes-named host conf.master l conf.vf_id v found (Differs host s lawful l v found)
        lookup_failed w a5 (λ pf. m1 pf >> (m2 >> (m3 pf >> (m4 pf >> m5 pf))))
        (bind w a1 a5 (m1 now) (m2 >> (m3 now >> (m4 now >> m5 now)))
          (spoofchk-Step host s lawful l v found now v.spoofchk w refl own)
          (bind a1 a2 a5 m2 (m3 now >> (m4 now >> m5 now))
            (mac-Step host s lawful l v found (hardware_string v.mac) a1 own)
            (bind a2 a3 a5 (m3 now) (m4 now >> m5 now)
              (trust-Step host s lawful l v found now (not (v.trust == 0)) a2 refl own)
              (bind a3 a4 a5 (m4 now) (m5 now)
                (rate-Step host s lawful l v found now (pos v.min_tx_rate) (pos v.max_tx_rate) a3
                  refl own)
                (state-Step host s lawful l v found now v.link_state a4 refl own)))))

  Mends : VfInfo → Type 0
  Mends = Differs host (recorded conf v) lawful l v found

  reset_shown :
      (k1 k2 : K) (w : VfInfo)
      → At host conf.master l conf.vf_id v found Mends k1 w
      → reset_vf_config host (recorded conf v) k1 ≡ (ok tt, k2)
      → Shows host conf.master l conf.vf_id v found k2 v
  unfolding Mends
  reset_shown k1 k2 w h reset =
      let (at_end, _) =
        subst
          (λ q.
            Lands host conf.master l conf.vf_id v found
              (Differs host (recorded conf v) lawful l v found) (left w) q.0 q.1)
          reset (reset-Step w h.1.0 k1 h) in
      subst (Shows host conf.master l conf.vf_id v found k2) (left-restored w ∙ h.1.1) at_end

  restores :
      (k k1 k2 : K) (r : Outcome CniError (Unit {0}))
      → host.link_by_name k conf.master ≡ some l
      → apply_vf_config host (recorded conf v) k ≡ (r, k1)
      → reset_vf_config host (recorded conf v) k1 ≡ (ok tt, k2)
      → host.link_by_name k2 conf.master ≡ some l
  unfolding Mends
  restores k k1 k2 r e applied reset =
      let landed =
        apply-Step host (recorded conf v) lawful l v found (get_vf_info_id l.vfs conf.vf_id v found)
          k (first-Shows host conf.master l conf.vf_id v found k e, differs_first conf l v found) in
      let (w, h) =
        Lands-some host conf.master l conf.vf_id v found Mends
          (configured (recorded conf v) (host.parse_mac conf.mac) v)
          (apply_vf_config host (recorded conf v) k).0 (apply_vf_config host (recorded conf v) k).1
          landed in
      Shows-first host conf.master l conf.vf_id v found k2 (
        reset_shown k1 k2 w
          (subst (λ q. At host conf.master l conf.vf_id v found Mends q.1 w) applied h) reset)

module _ {K : Type 0} (host : Host K) (conf conf' : NetConf) where
  -- Of a driver that changes of an entry what a call asks for: however `ApplyVFConfig` ends, with
  -- the configuration that `FillOriginalVfInfo` answered, a `ResetVFConfig` that succeeds behind
  -- it leaves the link of the physical function as it was at first, with all its virtual
  -- functions, where the entry of the virtual function was one that a driver reports.
  pub reset-apply :
      IsLawful host conf.master
      → (k k1 k2 : K) (l : VfLink) (v : VfInfo) (r : Outcome CniError (Unit {0}))
      → fill_original_vf_info host k conf ≡ ok conf'
      → host.link_by_name k conf.master ≡ some l
      → get_vf_info l.vfs conf.vf_id ≡ some v
      → IsReported host v
      → apply_vf_config host conf' k ≡ (r, k1)
      → reset_vf_config host conf' k1 ≡ (ok tt, k2)
      → host.link_by_name k2 conf.master ≡ some l
  reset-apply lawful k k1 k2 l v r filled e found reported applied reset =
      let same = fill_same host k conf conf' l v e found filled in
      restores host conf lawful l v found reported k k1 k2 r e
        (subst (λ c. apply_vf_config host c k ≡ (r, k1)) same applied)
        (subst (λ c. reset_vf_config host c k1 ≡ (ok tt, k2)) same reset)

module _ {K : Type 0} (host : Host K) (conf : NetConf) where
  -- Of a driver that changes of an entry what a call asks for: when `ApplyVFConfig` succeeds, the
  -- entry of the virtual function has the address, the rates, the flags and the link state that
  -- the configuration sets, and all else of the link of the physical function is as before.
  pub apply_vf_config_lem :
      IsLawful host conf.master
      → (k k1 : K) (l : VfLink) (v : VfInfo) → host.link_by_name k conf.master ≡ some l
      → get_vf_info l.vfs conf.vf_id ≡ some v
      → apply_vf_config host conf k ≡ (ok tt, k1)
      → host.link_by_name k1 conf.master
        ≡ some (record l {
          vfs = put_vf conf.vf_id (configured conf (host.parse_mac conf.mac) v) l.vfs;
        })
  apply_vf_config_lem lawful k k1 l v e found applied =
      (subst
        (λ q.
          Lands host conf.master l conf.vf_id v found (Differs host conf lawful l v found)
            (configured conf (host.parse_mac conf.mac) v) q.0 q.1)
        applied
        (apply-Step host conf lawful l v found (get_vf_info_id l.vfs conf.vf_id v found) k
          (first-Shows host conf.master l conf.vf_id v found k e, differs_first conf l v found))).0
