-- ===== src/SriovCni/Sriov/RoundTrip.antt =====
-- `SetupVF`, and `ReleaseVF` behind it.
use ipu_opi_plugins.Prelude.{
  ℕ, ◌≡◌, refl, ap, subst, Bool, true, false, Option, some, String, List, ◌∷◌, if◌then◌else◌,
  string_eq,
}
use ipu_opi_plugins.Outcome.{Outcome, ok}
use ipu_opi_plugins.Text.Hardware.{hardware_string}
use ipu_opi_plugins.SriovCni.Types.{NetConf}
use ipu_opi_plugins.SriovCni.Host.{Host, CniError, VfLink}
use ipu_opi_plugins.SriovCni.Sriov.{
  in_namespace, setup_vf, release_in_pod, release_vf, with_effective_mac,
}
use ipu_opi_plugins.SriovCni.Sriov.Entry.{sets, bytes_or}
use ipu_opi_plugins.SriovCni.Sriov.Namespaces.{
  View, Place, IsAt, IsLawfulNode, Takes, Ends, Takes-inside, inside,
}
use ipu_opi_plugins.SriovCni.Sriov.InPod.{
  at_first, in_pod, given_back, release_in_pod-Takes, setup-IsAt,
}

given_back_address :
    (c : Bool) (hw : List ℕ) (o : Option (List ℕ))
    → (if c then hw else if c then bytes_or o hw else hw) ≡ hw
given_back_address true hw o = refl
given_back_address false hw o = refl

module _ {K : Type 0} (host : Host K) (view : K → View) (lawful : IsLawfulNode host view)
    (conf : NetConf) (pod_if_name : String) (netns n : ℕ) (ns : List ℕ) (l : VfLink)
    (own : l.name ≡ conf.orig_vf_state.host_if_name)
    (reads : host.parse_mac (hardware_string l.hardware_addr) ≡ some l.hardware_addr) where
  recorded : NetConf
  recorded = with_effective_mac host l conf

  from_pod : Place
  from_pod = inside host view lawful netns (in_pod host view lawful conf pod_if_name netns n ns l)

  as_first :
      given_back host view lawful recorded pod_if_name netns n ns l from_pod
      ≡ inside host view lawful netns (at_first host view lawful conf pod_if_name netns n ns l)
  unfolding recorded from_pod
  as_first =
      rw
        (reads, ← own, given_back_address (sets conf.mac) l.hardware_addr (host.parse_mac conf.mac))

  runs_inside :
      (k : K) (r : Outcome CniError (Unit {0}) × K)
      → host.current_ns k ≡ some n
      → release_vf host recorded pod_if_name netns k ≡ r
      → in_namespace host netns (release_in_pod host recorded pod_if_name n) k ≡ r
  unfolding release_vf
  runs_inside k r e h = rw (release_vf, e) at h

  release-IsAt :
      (k k' : K)
      → IsAt (view k) (in_pod host view lawful conf pod_if_name netns n ns l)
      → release_vf host recorded pod_if_name netns k ≡ (ok tt, k')
      → IsAt (view k') (at_first host view lawful conf pod_if_name netns n ns l)
  unfolding from_pod
  release-IsAt k k' h done =
      let p = in_pod host view lawful conf pod_if_name netns n ns l in
      let q = at_first host view lawful conf pod_if_name netns n ns l in
      let f = release_in_pod host recorded pod_if_name n in
      let steps =
        release_in_pod-Takes host view lawful recorded pod_if_name netns n ns l from_pod (n ∷ ns)
          refl in
      subst (λ r. Ends host view lawful q r.0 r.1)
        (runs_inside k (ok tt, k') (lawful.current k n ns h.0) done)
        (Takes-inside host view lawful netns p q f
          (subst (Takes host view lawful from_pod f) as_first steps) k h)

module _ {K : Type 0} (host : Host K) (view : K → View) (conf conf1 : NetConf)
    (pod_if_name : String) (netns n : ℕ) (ns : List ℕ) (l : VfLink) where
  -- Of a node in which links are renamed and moved as the calls ask, from a link with the name
  -- and an address that is read back from its text: when `SetupVF` succeeds, the link is in the
  -- pod's namespace under the pod's name, with its address or that of the configuration, and the
  -- configuration has recorded the address that it had; and when `ReleaseVF` succeeds behind it
  -- with that configuration, the link is in its first namespace again, with its name, its address
  -- and all else.
  pub release-setup :
      IsLawfulNode host view
      → (k k1 k2 : K) → (view k).stack ≡ n ∷ ns
      → (view k).find n conf.orig_vf_state.host_if_name ≡ some l
      → l.name ≡ conf.orig_vf_state.host_if_name
      → host.parse_mac (hardware_string l.hardware_addr) ≡ some l.hardware_addr
      → setup_vf host pod_if_name netns (k, conf) ≡ (ok tt, (k1, conf1))
      → release_vf host conf1 pod_if_name netns k1 ≡ (ok tt, k2)
      → ((view k1).find netns pod_if_name
          ≡ some (record l {
            name = pod_if_name;
            hardware_addr =
                if sets conf.mac
                then bytes_or (host.parse_mac conf.mac) l.hardware_addr
                else l.hardware_addr;
          }))
        × (conf1.orig_vf_state.effective_mac ≡ hardware_string l.hardware_addr)
        × ((view k2).find n conf.orig_vf_state.host_if_name ≡ some l)
        × ((view k2).stack ≡ n ∷ ns)
  unfolding recorded
  release-setup lawful k k1 k2 inside found own reads set_up released =
      let (there, same) =
        setup-IsAt host view lawful conf pod_if_name netns n ns l k k1 conf1 (inside, found)
          set_up in
      let (stack, back) =
        release-IsAt host view lawful conf pod_if_name netns n ns l own reads k1 k2 there
          (subst (λ c. release_vf host c pod_if_name netns k1 ≡ (ok tt, k2)) same released) in
      (there.1, ap (λ c. c.orig_vf_state.effective_mac) same, back, stack)
