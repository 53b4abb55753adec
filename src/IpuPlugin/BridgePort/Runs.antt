-- ===== src/IpuPlugin/BridgePort/Runs.antt =====
-- The map of ports against the devices of a lawful kernel, over any sequence of successful calls.
use ipu_opi_plugins.Prelude.{
  ◌≡◌, refl, sym, ◌∙◌, ap, subst, true, false, Bool-cases, inl, inr, Option, none, some, String, [],
  arith, ◌==◌, string_eq, Option-cases,
}
use ipu_opi_plugins.Prelude.Int.{pos}
use ipu_opi_plugins.Outcome.{ok}
use ipu_opi_plugins.Dict.{lookup, lookup-insert, lookup-erase, lookup-nil}
use ipu_opi_plugins.Netlink.{LinkType, Netlink, Device, IsLawful}
use ipu_opi_plugins.IpuPlugin.BridgePort.{
  ℕ, BridgePort, State, Plugin, RuleClient, vlan_intf_name, create_bridge_port, delete_bridge_port,
}
use ipu_opi_plugins.IpuPlugin.BridgePort.Validation.{create-IsAcceptable, create_acceptable}
use ipu_opi_plugins.IpuPlugin.BridgePort.Ports.{
  as_up, as_up-IsAcceptable, IsValid, create_puts, create-IsValid, delete-IsValid, delete_absent,
}
use ipu_opi_plugins.IpuPlugin.BridgePort.Retry.{delete_erases}
use ipu_opi_plugins.IpuPlugin.BridgePort.Devices.{
  linux_plugin, LeavesDevices, create_links, delete_links,
}
use ipu_opi_plugins.IpuPlugin.BridgePort.Names.{
  vlan_of, vlan_of_lem, interface_of, vlan_intf_name_differ,
}

-- The states that successful calls lead to.
pub data Reach {K : Type 0} (plugin : Plugin K) (s : State K) : State K → Type 0 where
  here : Reach plugin s s
  created :
      {t : State K} (port resp : BridgePort)
      → Reach plugin s t
      → (create_bridge_port plugin (some port) t).0 ≡ ok resp
      → Reach plugin s (create_bridge_port plugin (some port) t).1
  deleted :
      {t : State K} (name : String)
      → Reach plugin s t
      → (delete_bridge_port plugin name t).0 ≡ ok tt
      → Reach plugin s (delete_bridge_port plugin name t).1

-- The device is a vlan interface of the bridge, and up.
abbrev pub IsAttached : String → Option Device → Type 0
IsAttached br_name found =
    (d : Device) × (found ≡ some d)
    × (d.link.link_type ≡ LinkType.vlan)
    × (d.master ≡ some br_name)
    × (d.up ≡ true)

module _ {K : Type 0} {N : Netlink K} {dev : K → String → Option Device} (L : IsLawful N dev)
    (client : RuleClient K) (keeps : LeavesDevices client dev) (br_name uplink : String) where
  abbrev plugin : Plugin K
  plugin = linux_plugin N br_name uplink client

  -- Every port in the map has its interface in the bridge.
  abbrev pub IsInSync : State K → Type 0
  IsInSync s =
      (name : String) (port : BridgePort)
      → lookup name s.ports ≡ some port
      → IsAttached br_name (dev s.system (interface_of name port))

  -- The invariant, with what `IsValid` says of the map.
  pub record IsSound (s : State K) : Type 0 where
    pub valid : IsValid s
    pub in_sync : IsInSync s

  IsAttached-other :
      (name other : String) (port : BridgePort) (n : ℕ) (s s' : State K)
      → (name == other) ≡ false
      → ((j : String)
          → (vlan_intf_name name (pos n) == j) ≡ false
          → dev s'.system j ≡ dev s.system j)
      → IsAttached br_name (dev s.system (interface_of other port))
      → IsAttached br_name (dev s'.system (interface_of other port))
  IsAttached-other name other port n s s' differ same h =
      subst (IsAttached br_name)
        (sym (
          same (interface_of other port)
            (vlan_intf_name_differ name other n (vlan_of port) differ)))
        h

  create_new-IsInSync :
      (port : BridgePort) (s : State K) {resp : BridgePort}
      → IsSound s
      → lookup port.name s.ports ≡ none
      → (create_bridge_port plugin (some port) s).0 ≡ ok resp
      → IsInSync (create_bridge_port plugin (some port) s).1
  create_new-IsInSync port s sound fresh made name p found =
      let fit = create-IsAcceptable plugin port s made in
      let s' = (create_bridge_port plugin (some port) s).1 in
      let put = create_puts plugin port s fresh made in
      let at_key = lookup-insert name port.name (as_up port) s.ports in
      let (d, there, is_vlan, mastered, upped, others) =
        create_links L client keeps br_name uplink port s fit fresh made in
      elim (Bool-cases (port.name == name)) [
        | inl same ↦
            let kept : as_up port ≡ p = ground arith in
            let named : port.name ≡ name = ground arith in
            let place =
              ap (interface_of name) (sym kept)
              ∙ ap (λ n. vlan_intf_name name (pos n))
                  (vlan_of_lem (as_up port) (as_up-IsAcceptable port fit))
              ∙ ap (λ m. vlan_intf_name m (pos fit.vlan)) (sym named) in
            subst (λ i. IsAttached br_name (dev s'.system i)) (sym place)
              (d, there, is_vlan, mastered, upped)
        | inr differ ↦
            IsAttached-other port.name name p fit.vlan s s' differ others
              (sound.in_sync name p (ground arith))
      ]

  delete-IsInSync :
      (name : String) (s : State K)
      → IsSound s
      → (delete_bridge_port plugin name s).0 ≡ ok tt
      → IsInSync (delete_bridge_port plugin name s).1
  delete-IsInSync name s sound gone other p found =
      let s' = (delete_bridge_port plugin name s).1 in
      let erased = delete_erases plugin name s gone in
      let at_key = lookup-erase other name s.ports in
      let before : lookup other s.ports ≡ some p = ground arith in
      let differ : (name == other) ≡ false = ground arith in
      elim (Option-cases (lookup name s.ports)) [
        | inl absent ↦
            subst (λ (t : State K). IsAttached br_name (dev t.system (interface_of other p)))
              (sym (ap (λ q. q.1) (delete_absent plugin name s absent)))
              (sound.in_sync other p before)
        | inr (old, there) ↦
            let (named, fit, up) = sound.valid name old there in
            let links = delete_links L client keeps br_name uplink name s old fit there gone in
            IsAttached-other name other p fit.vlan s s' differ
              (λ j e. let l = links j in ground arith) (sound.in_sync other p before)
      ]

  create-IsInSync :
      (port : BridgePort) (s : State K) {resp : BridgePort}
      → IsSound s
      → (create_bridge_port plugin (some port) s).0 ≡ ok resp
      → IsInSync (create_bridge_port plugin (some port) s).1
  create-IsInSync port s sound made = elim (Option-cases (lookup port.name s.ports)) [
    | inl fresh ↦ create_new-IsInSync port s sound fresh made
    | inr (old, there) ↦
        let fit = create-IsAcceptable plugin port s made in
        let same : create_bridge_port plugin (some port) s ≡ (ok old, s) =
          create_acceptable plugin port s fit ∙ rw there refl in
        subst IsInSync (sym (ap (λ q. q.1) same)) sound.in_sync
  ]

  pub empty-IsSound : (s : State K) → s.ports ≡ [] → IsSound s
  empty-IsSound s empty = record {
    valid = λ name port found. let none_there = lookup-nil {V = BridgePort} name in ground arith;
    in_sync = λ name port found. let none_there = lookup-nil {V = BridgePort} name in ground arith;
  }

  -- In a lawful kernel, with the Linux bridge as the controller and a rule client that changes no
  -- network device: over any sequence of successful creations and deletions it stays so that
  -- every port in the map is kept under its own name, is acceptable and is up, and that its vlan
  -- interface is there, has the bridge as its master and is up.
  pub Reach-IsSound : {s t : State K} → IsSound s → Reach plugin s t → IsSound t
  Reach-IsSound sound here = sound
  Reach-IsSound {s} sound (created {t} port resp r made) =
      let h = Reach-IsSound sound r in
      record {
        valid = create-IsValid plugin port t h.valid;
        in_sync = create-IsInSync port t h made;
      }
  Reach-IsSound {s} sound (deleted {t} name r gone) =
      let h = Reach-IsSound sound r in
      record {
        valid = (delete-IsValid plugin name t h.valid).0;
        in_sync = delete-IsInSync name t h gone;
      }
