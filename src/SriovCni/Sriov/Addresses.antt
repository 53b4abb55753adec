-- ===== src/SriovCni/Sriov/Addresses.antt =====
-- `SetVFHardwareMAC` on the entry of a virtual function.
use ipu_opi_plugins.Prelude.{
  ℕ, zero, suc, ◌≡◌, refl, sym, ap, ◌∙◌, subst, not, Option, none, some, String, List, ◌==◌, arith,
  string_eq,
}
use ipu_opi_plugins.Prelude.Int.{ℤ}
use ipu_opi_plugins.Outcome.{Outcome, ok, err, panic, attempt, throw_if, or_crash, ◌>>=◌}
use ipu_opi_plugins.SriovCni.Types.{VfInfo}
use ipu_opi_plugins.SriovCni.Host.{mac_differs, lookup_failed, set_failed, Host, CniError, VfLink}
use ipu_opi_plugins.SriovCni.Utils.{
  at, Cni, retry, retry_behind, try_hardware_mac, set_vf_hardware_mac,
}
use ipu_opi_plugins.SriovCni.Sriov.{hardware_string, get_vf_info, named}
use ipu_opi_plugins.SriovCni.Sriov.Lawful.{IsLawful, with_entry}
use ipu_opi_plugins.SriovCni.Sriov.Steps.{
  At, Lands, Takes, Takes-bind, Takes-setter, Takes-still, Takes-named,
}

abbrev pub with_mac : List ℕ → VfInfo → VfInfo
with_mac hw w = record w { mac = hw }

-- The entry behind `SetVFHardwareMAC`, which only a text that can be read changes.
abbrev pub with_parsed : Option (List ℕ) → VfInfo → VfInfo
with_parsed none w = w
with_parsed (some hw) w = with_mac hw w

module _ {K : Type 0} (host : Host K) (pf : String) (lawful : IsLawful host pf) (l : VfLink)
    (id : ℤ) (v : VfInfo) (found : get_vf_info l.vfs id ≡ some v) where
  -- The part of an attempt that only reads.
  check_mac : String → Cni host (Unit {0})
  check_mac mac = do
    link ← named host pf lookup_failed
    vf ← or_crash (at link.vfs id)
    throw_if (not (hardware_string vf.mac == mac)) mac_differs

  check_mac_still : (mac : String) (k : K) → (check_mac mac k).1 ≡ k
  unfolding check_mac
  check_mac_still mac k = ground arith

  Takes-try :
      (I : VfInfo → Type 0) (now : VfLink) (hw : List ℕ) (mac : String) (a : VfInfo)
      → now.index ≡ l.index
      → a.id ≡ id
      → I (with_mac hw a)
      → Takes host pf l id v found I a (try_hardware_mac host now pf id hw mac) (with_mac hw a)
  unfolding try_hardware_mac check_mac
  Takes-try I now hw mac a same e i =
      Takes-bind host pf l id v found I a (with_mac hw a) (with_mac hw a)
        (attempt (host.link_set_vf_hardware_addr now id hw) set_failed) (check_mac mac)
        (Takes-setter host pf l id v found I now (with_mac hw)
          (host.link_set_vf_hardware_addr now id hw) set_failed a (lawful.sets_mac now id hw) same e
          i)
        (Takes-still host pf l id v found I (with_mac hw a) (check_mac mac) (check_mac_still mac))

  module _ (I : VfInfo → Type 0) (now : VfLink) (hw : List ℕ) (mac : String) (b : VfInfo)
      (same : now.index ≡ l.index) (ends : I b) where
    -- The entries that an attempt may find: the first one, and one that has the address.
    abbrev IsBefore : VfInfo → Type 0
    IsBefore w = I w × (w.id ≡ id) × (with_mac hw w ≡ b)

    retry_by :
        (n : ℕ) (a : VfInfo) (q : Outcome CniError (Unit {0}) × K)
        → with_mac hw a ≡ b
        → Lands host pf l id v found IsBefore (with_mac hw a) q.0 q.1
        → ((d : CniError) (w : VfInfo) (j : K)
            → At host pf l id v found IsBefore j w
            → let r = retry_behind host (err d) n (try_hardware_mac host now pf id hw mac) j in
              Lands host pf l id v found I b r.0 r.1)
        → let r = elim q.0 as (λ _. Outcome CniError (Unit {0}) × K) [
          | ok _ ↦ (ok tt, q.1)
          | err e ↦
              retry_behind host (err e) n (try_hardware_mac host now pf id hw mac) (host.sleep q.1)
          | panic ↦ (panic, q.1)
        ] in
          Lands host pf l id v found I b r.0 r.1
    retry_by n a (ok u, k) e h ih =
        (h.0 ∙ ap (λ w. some (with_entry host pf l id v found w)) e, ends)
    retry_by n a (err d, k) e (w, (shows, before)) ih =
        ih d w (host.sleep k) (lawful.sleeps k ∙ shows, before)
    retry_by n a (panic, k) e (w, (shows, before)) ih = (w, (shows, before.0))

    again-Lands :
        (n : ℕ) (d : CniError) (a : VfInfo) (k : K)
        → At host pf l id v found IsBefore k a
        → let r = retry_behind host (err d) n (try_hardware_mac host now pf id hw mac) k in
          Lands host pf l id v found I b r.0 r.1
    unfolding retry_behind
    again-Lands zero d a k (shows, before) = (a, (shows, before.0))
    again-Lands (suc n) d a k h =
        retry_by n a (try_hardware_mac host now pf id hw mac k) h.1.2
          (Takes-try IsBefore now hw mac a same h.1.1 (subst I (sym h.1.2) ends, h.1.1, h.1.2) k h)
          (again-Lands n)

    retry-Lands :
        (n : ℕ) (a : VfInfo) (k : K)
        → At host pf l id v found IsBefore k a
        → let r = retry host (suc n) (try_hardware_mac host now pf id hw mac) k in
          Lands host pf l id v found I b r.0 r.1
    unfolding retry retry_behind
    retry-Lands n a k h =
        retry_by n a (try_hardware_mac host now pf id hw mac k) h.1.2
          (Takes-try IsBefore now hw mac a same h.1.1 (subst I (sym h.1.2) ends, h.1.1, h.1.2) k h)
          (again-Lands n)

  module _ (I : VfInfo → Type 0) (a : VfInfo) (a_id : a.id ≡ id) where
    set_by :
        (mac : String) (o : Option (List ℕ))
        → host.parse_mac mac ≡ o
        → ((hw : List ℕ) → I a → I (with_mac hw a))
        → Takes host pf l id v found I a (set_vf_hardware_mac host pf id mac) (with_parsed o a)
    unfolding set_vf_hardware_mac
    set_by mac none p keeps k h = rw p (a, h)
    set_by mac (some hw) p keeps k h = rw p (
        Takes-named host pf l id v found I lookup_failed a (with_mac hw a)
          (λ org. retry host 20 (try_hardware_mac host org pf id hw mac))
          (λ j g.
            retry-Lands I (with_entry host pf l id v found a) hw mac (with_mac hw a) refl
              (keeps hw g.1) 19 a j (g.0, (g.1, a_id, refl)))
          k h)

    pub Takes-address :
        (mac : String)
        → ((hw : List ℕ) → I a → I (with_mac hw a))
        → Takes host pf l id v found I a
            (set_vf_hardware_mac host pf id mac)
            (with_parsed (host.parse_mac mac) a)
    Takes-address mac keeps = set_by mac (host.parse_mac mac) refl keeps
