-- ===== src/SriovCni/Sriov/Effective.antt =====
-- `SetVFEffectiveMAC` on a link in the current namespace.
use ipu_opi_plugins.Prelude.{
  ℕ, zero, suc, ◌≡◌, refl, sym, subst, Bool, true, false, not, Option, none, some, String, List,
  ◌∷◌, if◌then◌else◌, ◌==◌, arith, string_eq,
}
use ipu_opi_plugins.Outcome.{Outcome, ok, err, panic, attempt, throw_if, ◌>>=◌, ◌>>◌}
use ipu_opi_plugins.Text.Hardware.{hardware_string}
use ipu_opi_plugins.SriovCni.Host.{Host, CniError, VfLink, lookup_failed, mac_differs, set_failed}
use ipu_opi_plugins.SriovCni.Utils.{
  Cni, retry, retry_behind, try_effective_mac, set_vf_effective_mac,
}
use ipu_opi_plugins.SriovCni.Sriov.{named}
use ipu_opi_plugins.SriovCni.Sriov.Namespaces.{
  View, Place, IsAt, IsLawfulNode, Takes, Ends, Takes-named,
}

abbrev pub at_address : List ℕ → Place → Place
at_address hw p = record p { link = record p.link { hardware_addr = hw } }

abbrev pub parsed_address : Option (List ℕ) → Place → Place
parsed_address none p = p
parsed_address (some hw) p = at_address hw p

module _ {K : Type 0} (host : Host K) (view : K → View) (lawful : IsLawfulNode host view) where
  check_address : String → String → Cni host (Unit {0})
  check_address name mac = do
    link ← named host name lookup_failed
    throw_if (not (hardware_string link.hardware_addr == mac)) mac_differs

  check_address_still : (name mac : String) (k : K) → (check_address name mac k).1 ≡ k
  unfolding check_address
  check_address_still name mac k = ground arith

  module _ (now : VfLink) (name mac : String) (hw : List ℕ) (q : Place) (ns : List ℕ)
      (here : q.stack ≡ q.ns ∷ ns) (same : q.link.index ≡ now.index)
      (ends : at_address hw q ≡ q) where
    -- An attempt may find any address, and one that fails leaves some address.
    abbrev Tried : Outcome CniError (Unit {0}) → K → Type 0
    Tried (ok _) k = IsAt (view k) q
    Tried (err _) k = (hw' : List ℕ) × IsAt (view k) (at_address hw' q)
    Tried panic k = Unit {0}

    at_end : (r : Outcome CniError (Unit {0})) (k : K) → IsAt (view k) q → Tried r k
    at_end (ok u) k h = h
    at_end (err e) k h = (q.link.hardware_addr, h)
    at_end panic k h = tt

    set_by :
        (hw' : List ℕ) (o : Bool × K)
        → IsAt (view o.1) (if o.0 then at_address hw q else at_address hw' q)
        → let r = (attempt (λ _. o) set_failed >> check_address name mac) o.1 in Tried r.0 r.1
    set_by hw' (true, k) h = at_end (check_address name mac k).0 (check_address name mac k).1 (
        subst (λ j. IsAt (view j) q) (sym (check_address_still name mac k))
          (subst (IsAt (view k)) ends h))
    set_by hw' (false, k) h = (hw', h)

    try-Tried :
        (hw' : List ℕ) (k : K)
        → IsAt (view k) (at_address hw' q)
        → let r = try_effective_mac host now name hw mac k in Tried r.0 r.1
    unfolding try_effective_mac check_address
    try-Tried hw' k h =
        set_by hw' (host.link_set_hardware_addr now hw k)
          (lawful.sets_address now hw k (at_address hw' q) ns here same h)

    again_by :
        (n : ℕ) (o : Outcome CniError (Unit {0}) × K)
        → Tried o.0 o.1
        → ((d : CniError) (hw' : List ℕ) (j : K)
            → IsAt (view j) (at_address hw' q)
            → let r = retry_behind host (err d) n (try_effective_mac host now name hw mac) j in
              Ends host view lawful q r.0 r.1)
        → let r = elim o.0 as (λ _. Outcome CniError (Unit {0}) × K) [
          | ok _ ↦ (ok tt, o.1)
          | err e ↦
              retry_behind host (err e) n (try_effective_mac host now name hw mac) (host.sleep o.1)
          | panic ↦ (panic, o.1)
        ] in
          Ends host view lawful q r.0 r.1
    again_by n (ok u, k) h ih = h
    again_by n (err d, k) (hw', h) ih =
        ih d hw' (host.sleep k) (subst (λ w. IsAt w (at_address hw' q)) (sym (lawful.sleeps k)) h)
    again_by n (panic, k) h ih = tt

    again-Ends :
        (n : ℕ) (d : CniError) (hw' : List ℕ) (k : K)
        → IsAt (view k) (at_address hw' q)
        → let r = retry_behind host (err d) n (try_effective_mac host now name hw mac) k in
          Ends host view lawful q r.0 r.1
    unfolding retry_behind
    again-Ends zero d hw' k h = tt
    again-Ends (suc n) d hw' k h =
        again_by n (try_effective_mac host now name hw mac k) (try-Tried hw' k h) (again-Ends n)

    retry-Ends :
        (n : ℕ) (hw' : List ℕ) (k : K)
        → IsAt (view k) (at_address hw' q)
        → let r = retry host (suc n) (try_effective_mac host now name hw mac) k in
          Ends host view lawful q r.0 r.1
    unfolding retry retry_behind
    retry-Ends n hw' k h =
        again_by n (try_effective_mac host now name hw mac k) (try-Tried hw' k h) (again-Ends n)

  parsed_by :
      (p : Place) (ns : List ℕ) (mac : String) (o : Option (List ℕ))
      → host.parse_mac mac ≡ o
      → p.stack ≡ p.ns ∷ ns
      → Takes host view lawful p (set_vf_effective_mac host p.name mac) (parsed_address o p)
  unfolding set_vf_effective_mac
  parsed_by p ns mac none e here k h = rw e tt
  parsed_by p ns mac (some hw) e here k h = rw e (
      Takes-named host view lawful p (at_address hw p) ns lookup_failed
        (λ org. retry host 20 (try_effective_mac host org p.name hw mac)) here
        (λ j g.
          retry-Ends p.link p.name mac hw (at_address hw p) ns here refl refl 19
            p.link.hardware_addr j g)
        k h)

  pub Takes-address :
      (p : Place) (ns : List ℕ) (mac : String)
      → p.stack ≡ p.ns ∷ ns
      → Takes host view lawful p
          (set_vf_effective_mac host p.name mac)
          (parsed_address (host.parse_mac mac) p)
  Takes-address p ns mac here = parsed_by p ns mac (host.parse_mac mac) refl here
