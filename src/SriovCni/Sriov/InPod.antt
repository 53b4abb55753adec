-- ===== src/SriovCni/Sriov/InPod.antt =====
-- What `SetupVF` makes of a link, and what the moves of `ReleaseVF` do in the pod.
use ipu_opi_plugins.Prelude.{
  ℕ, ◌≡◌, refl, sym, ap, ◌∙◌, subst, some, String, ◌<>◌, List, ◌∷◌, string_eq,
}
use ipu_opi_plugins.Prelude.Int.{pos}
use ipu_opi_plugins.Outcome.{Outcome, ok, attempt, ignore_error, ◌>>◌}
use ipu_opi_plugins.Text.Decimal.{format}
use ipu_opi_plugins.SriovCni.Types.{NetConf}
use ipu_opi_plugins.SriovCni.Host.{
  Host, CniError, VfLink, rename_failed, down_failed, up_failed, move_failed, lookup_failed,
}
use ipu_opi_plugins.SriovCni.Utils.{Cni, enable_arp_and_ndisc_notify, set_vf_effective_mac}
use ipu_opi_plugins.SriovCni.Sriov.{
  when, in_namespace, set_up_in_pod, move_to_pod, setup_vf, release_in_pod, with_effective_mac,
}
use ipu_opi_plugins.SriovCni.Sriov.Entry.{sets}
use ipu_opi_plugins.SriovCni.Sriov.Namespaces.{
  View, Place, IsAt, IsLawfulNode, Takes, Ends, Takes-named, Takes-bind, Takes-still, Takes-inside,
  inside,
}
use ipu_opi_plugins.SriovCni.Sriov.Moves.{
  renamed, addressed, rename-Takes, move-Takes, address-Takes, enable-Takes,
}

module _ {K : Type 0} (host : Host K) (view : K → View) (lawful : IsLawfulNode host view)
    (conf : NetConf) (pod_if_name : String) (netns n : ℕ) (ns : List ℕ) (l : VfLink) where
  -- The link at first, and as `SetupVF` leaves it.
  abbrev pub at_first : Place
  at_first = record { stack = n ∷ ns; ns = n; name = conf.orig_vf_state.host_if_name; link = l }

  abbrev pub in_pod : Place
  in_pod = addressed (sets conf.mac) (host.parse_mac conf.mac) (record {
    stack = n ∷ ns;
    ns = netns;
    name = pod_if_name;
    link = record l { name = pod_if_name };
  })

  set_up_in_pod-Takes :
      (now : VfLink) (p : Place) (stack : List ℕ)
      → p.stack ≡ p.ns ∷ stack
      → p.link.index ≡ now.index
      → Takes host view lawful p
          (set_up_in_pod host conf pod_if_name now)
          (addressed (sets conf.mac) (host.parse_mac conf.mac) (renamed pod_if_name p))
  unfolding set_up_in_pod
  set_up_in_pod-Takes now p stack here same =
      let p1 = renamed pod_if_name p in
      let p2 = addressed (sets conf.mac) (host.parse_mac conf.mac) p1 in
      let m1 = attempt (host.link_set_name now pod_if_name) rename_failed in
      let m2 : Cni host (Unit {0}) = ignore_error (enable_arp_and_ndisc_notify host pod_if_name) in
      let m3 = when host (sets conf.mac) (set_vf_effective_mac host pod_if_name conf.mac) in
      let m4 = attempt (host.link_set_up now) up_failed in
      let bind = Takes-bind host view lawful in
      bind p p1 p2 m1 (m2 >> (m3 >> m4))
        (rename-Takes host view lawful p stack now pod_if_name here same)
        (bind p1 p1 p2 m2 (m3 >> m4) (enable-Takes host view lawful p1 pod_if_name) (
          bind p1 p2 p2 m3 m4
            (address-Takes host view lawful (sets conf.mac) p1 stack conf.mac here)
            (Takes-still host view lawful p2 (host.link_set_up now) up_failed (lawful.ups now))))

  move_to_pod-Takes :
      Takes host view lawful at_first (move_to_pod host conf pod_if_name netns l) in_pod
  unfolding move_to_pod
  move_to_pod-Takes =
      let temp = "temp_" <> format (pos l.index) in
      let p1 = renamed temp at_first in
      let p2 = record p1 { ns = netns } in
      let m0 = attempt (host.link_set_down l) down_failed in
      let m1 = attempt (host.link_set_name l temp) rename_failed in
      let m2 = attempt (host.link_set_ns_fd l netns) move_failed in
      let m3 = in_namespace host netns (set_up_in_pod host conf pod_if_name l) in
      let bind = Takes-bind host view lawful in
      bind at_first at_first in_pod m0 (m1 >> (m2 >> m3))
        (Takes-still host view lawful at_first (host.link_set_down l) down_failed (lawful.downs l))
        (bind at_first p1 in_pod m1 (m2 >> m3)
          (rename-Takes host view lawful at_first ns l temp refl refl)
          (bind p1 p2 in_pod m2 m3 (move-Takes host view lawful p1 ns l netns refl refl) (
            Takes-inside host view lawful netns p2 in_pod (set_up_in_pod host conf pod_if_name l)
              (set_up_in_pod-Takes l (inside host view lawful netns p2) (n ∷ ns) refl refl))))

  -- The link as `ReleaseVF` leaves it, of a link in the pod.
  abbrev pub given_back : Place → Place
  given_back p =
      record (addressed (sets conf.mac) (host.parse_mac conf.orig_vf_state.effective_mac)
        (renamed conf.orig_vf_state.host_if_name p)) { ns = n }

  pub release_in_pod-Takes :
      (p : Place) (stack : List ℕ)
      → p.stack ≡ p.ns ∷ stack
      → Takes host view lawful p (release_in_pod host conf p.name n) (given_back p)
  unfolding release_in_pod
  release_in_pod-Takes p stack here =
      let name = conf.orig_vf_state.host_if_name in
      let mac = conf.orig_vf_state.effective_mac in
      let p1 = renamed name p in
      let p2 = addressed (sets conf.mac) (host.parse_mac mac) p1 in
      let m0 = λ (link : VfLink). attempt (host.link_set_down link) down_failed in
      let m1 = λ (link : VfLink). attempt (host.link_set_name link name) rename_failed in
      let m2 = when host (sets conf.mac) (set_vf_effective_mac host name mac) in
      let m3 = λ (link : VfLink). attempt (host.link_set_ns_fd link n) move_failed in
      let bind = Takes-bind host view lawful in
      let end = given_back p in
      Takes-named host view lawful p end stack lookup_failed
        (λ link. m0 link >> (m1 link >> (m2 >> m3 link))) here
        (bind p p end (m0 p.link) (m1 p.link >> (m2 >> m3 p.link))
          (Takes-still host view lawful p (host.link_set_down p.link) down_failed
            (lawful.downs p.link))
          (bind p p1 end (m1 p.link) (m2 >> m3 p.link)
            (rename-Takes host view lawful p stack p.link name here refl)
            (bind p1 p2 end m2 (m3 p.link)
              (address-Takes host view lawful (sets conf.mac) p1 stack mac here)
              (move-Takes host view lawful p2 stack p.link n here refl))))

  setup_moves :
      (k : K) (r : Outcome CniError (Unit {0}) × (K × NetConf))
      → host.link_by_name k conf.orig_vf_state.host_if_name ≡ some l
      → setup_vf host pod_if_name netns (k, conf) ≡ r
      → (
        (move_to_pod host conf pod_if_name netns l k).0,
        ((move_to_pod host conf pod_if_name netns l k).1, with_effective_mac host l conf),
      )
        ≡ r
  unfolding setup_vf
  setup_moves k r e h = rw (setup_vf, e) at h

  pub setup-IsAt :
      (k k1 : K) (conf1 : NetConf)
      → IsAt (view k) at_first
      → setup_vf host pod_if_name netns (k, conf) ≡ (ok tt, (k1, conf1))
      → IsAt (view k1) in_pod × (conf1 ≡ with_effective_mac host l conf)
  setup-IsAt k k1 conf1 h done =
      let found = lawful.looks_up k n ns conf.orig_vf_state.host_if_name h.0 ∙ h.1 in
      let same = setup_moves k (ok tt, (k1, conf1)) found done in
      (
        subst (λ q. Ends host view lawful in_pod q.0 q.1.0) same (move_to_pod-Takes k h),
        sym (ap (λ q. q.1.1) same),
      )
