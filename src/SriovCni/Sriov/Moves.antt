-- ===== src/SriovCni/Sriov/Moves.antt =====
-- `SetupVF` and `ReleaseVF` on a link that they follow between two namespaces.
use ipu_opi_plugins.Prelude.{
  ℕ, ◌≡◌, refl, sym, ◌∙◌, subst, Bool, true, false, Option, none, some, String, List, [], ◌∷◌,
  if◌then◌else◌, string_eq,
}
use ipu_opi_plugins.Outcome.{Outcome, ok, err, panic, attempt, ignore_error, ◌>>◌}
use ipu_opi_plugins.SriovCni.Host.{Host, CniError, VfLink, rename_failed, move_failed, write_failed}
use ipu_opi_plugins.SriovCni.Utils.{enable_arp_and_ndisc_notify, set_vf_effective_mac}
use ipu_opi_plugins.SriovCni.Sriov.{when}
use ipu_opi_plugins.SriovCni.Sriov.Entry.{bytes_or}
use ipu_opi_plugins.SriovCni.Sriov.Namespaces.{
  View, Place, IsAt, IsLawfulNode, Takes, Ends, Takes-attempt,
}
use ipu_opi_plugins.SriovCni.Sriov.Effective.{at_address, parsed_address, Takes-address}

abbrev pub renamed : String → Place → Place
renamed new p = record p { name = new; link = record p.link { name = new } }

-- The place with the address that a text stands for, where the configuration sets one.
abbrev pub addressed : Bool → Option (List ℕ) → Place → Place
addressed c hw p = record p {
  link = record p.link {
    hardware_addr = if c then bytes_or hw p.link.hardware_addr else p.link.hardware_addr;
  };
}

module _ {K : Type 0} (host : Host K) (view : K → View) (lawful : IsLawfulNode host view) where
  pub rename-Takes :
      (p : Place) (ns : List ℕ) (now : VfLink) (new : String)
      → p.stack ≡ p.ns ∷ ns
      → p.link.index ≡ now.index
      → Takes host view lawful p
          (attempt (host.link_set_name now new) rename_failed)
          (renamed new p)
  rename-Takes p ns now new here same =
      Takes-attempt host view lawful p (renamed new p) (host.link_set_name now new) rename_failed
        (λ k h done. lawful.renames now new k p ns here same h done)

  pub move-Takes :
      (p : Place) (ns : List ℕ) (now : VfLink) (fd : ℕ)
      → p.stack ≡ p.ns ∷ ns
      → p.link.index ≡ now.index
      → Takes host view lawful p
          (attempt (host.link_set_ns_fd now fd) move_failed)
          (record p { ns = fd })
  move-Takes p ns now fd here same =
      Takes-attempt host view lawful p (record p { ns = fd }) (host.link_set_ns_fd now fd)
        move_failed (λ k h done. lawful.moves now fd k p ns here same h done)

  parsed-bytes :
      (hw : Option (List ℕ)) (p : Place)
      → parsed_address hw p ≡ at_address (bytes_or hw p.link.hardware_addr) p
  parsed-bytes none p = refl
  parsed-bytes (some hw) p = refl

  pub address-Takes :
      (c : Bool) (p : Place) (ns : List ℕ) (mac : String)
      → p.stack ≡ p.ns ∷ ns
      → Takes host view lawful p
          (when host c (set_vf_effective_mac host p.name mac))
          (addressed c (host.parse_mac mac) p)
  address-Takes true p ns mac here =
      subst (Takes host view lawful p (set_vf_effective_mac host p.name mac))
        (parsed-bytes (host.parse_mac mac) p) (Takes-address host view lawful p ns mac here)
  address-Takes false p ns mac here = λ k h. h

  second_write :
      (name : String) (o : Bool × K)
      → view
          ((attempt (λ _. o) write_failed
              >> attempt
                  (host.write_file ("/proc/sys/net/ipv6/conf/" ∷ name ∷ "ndisc_notify" ∷ []) "1")
                  write_failed)
            o.1).1
        ≡ view o.1
  second_write name (true, k) =
      lawful.writes ("/proc/sys/net/ipv6/conf/" ∷ name ∷ "ndisc_notify" ∷ []) "1" k
  second_write name (false, k) = refl

  enable_still : (name : String) (k : K) → view (enable_arp_and_ndisc_notify host name k).1 ≡ view k
  unfolding enable_arp_and_ndisc_notify
  enable_still name k =
      second_write name
        (host.write_file ("/proc/sys/net/ipv4/conf/" ∷ name ∷ "arp_notify" ∷ []) "1" k)
      ∙ lawful.writes ("/proc/sys/net/ipv4/conf/" ∷ name ∷ "arp_notify" ∷ []) "1" k

  ignored_by :
      (p : Place) (o : Outcome CniError (Unit {0}) × K)
      → IsAt (view o.1) p
      → let r : Outcome CniError (Unit {0}) × K = ignore_error (λ _. o) o.1 in
        Ends host view lawful p r.0 r.1
  ignored_by p (ok u, k) h = h
  ignored_by p (err e, k) h = h
  ignored_by p (panic, k) h = tt

  pub enable-Takes :
      (p : Place) (name : String)
      → Takes host view lawful p (ignore_error (enable_arp_and_ndisc_notify host name)) p
  enable-Takes p name k h =
      ignored_by p (enable_arp_and_ndisc_notify host name k)
        (subst (λ w. IsAt w p) (sym (enable_still name k)) h)
