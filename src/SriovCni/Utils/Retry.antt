-- ===== src/SriovCni/Utils/Retry.antt =====
-- What `retry` promises, and what the functions that set a MAC address leave.
use ipu_opi_plugins.Prelude.{
  inl, inr, ap, ℕ, zero, suc, ◌<◌, ◌≡◌, ◌≢◌, some, String, List, string_eq, arith, some_of,
}
use ipu_opi_plugins.Prelude.Int.{ℤ}
use ipu_opi_plugins.Outcome.{Outcome, ok, err, Outcome-cases}
use ipu_opi_plugins.Text.Hardware.{hardware_string}
use ipu_opi_plugins.SriovCni.Types.{VfInfo}
use ipu_opi_plugins.SriovCni.Host.{Host, CniError, VfLink}
use ipu_opi_plugins.SriovCni.Utils.{
  Cni, at, retry, retry_behind, try_effective_mac, try_hardware_mac, set_vf_effective_mac,
  set_vf_hardware_mac,
}

module _ {K : Type 0} (host : Host K) where
  -- The first `n` calls of `f` from `k` on answer errors; one sleep stands between two calls.
  abbrev pub Fails : ℕ → Cni host (Unit {0}) → K → Type 0
  Fails zero f k = Unit {0}
  Fails (suc n) f k = ((e : CniError) × ((f k).0 ≡ err e)) × Fails n f (host.sleep (f k).1)

  -- The state before the call number `n`.
  abbrev pub before : ℕ → Cni host (Unit {0}) → K → K
  before zero f k = k
  before (suc n) f k = before n f (host.sleep (f k).1)

  retry_behind_ok :
      (last : Outcome CniError (Unit {0})) (n : ℕ) (f : Cni host (Unit {0})) (k k' : K)
      (u : Unit {0})
      → retry_behind host last n f k ≡ (ok u, k')
      → last ≢ ok u
      → (j : K) × (f j ≡ (ok tt, k'))
  unfolding retry_behind
  retry_behind_ok last zero f k k' u h d = absurd (d (ap (λ p. p.0) h))
  retry_behind_ok last (suc n) f k k' u h d = elim (Outcome-cases (f k).0) [
    | inl (v, e) ↦ (k, ground arith)
    | inr (inl (e, q)) ↦
        retry_behind_ok (err e) n f (host.sleep (f k).1) k' u (ground arith) (λ x. ground arith)
    | inr (inr q) ↦ ground arith
  ]

  retry_behind_failed :
      (last : Outcome CniError (Unit {0})) (n : ℕ) (f : Cni host (Unit {0})) (k k' : K)
      (e : CniError)
      → retry_behind host last n f k ≡ (err e, k')
      → Fails n f k
  unfolding retry_behind
  retry_behind_failed last zero f k k' e h = tt
  retry_behind_failed last (suc n) f k k' e h = elim (Outcome-cases (f k).0) [
    | inl (v, q) ↦ ground arith
    | inr (inl (d, q)) ↦
        ((d, q), retry_behind_failed (err d) n f (host.sleep (f k).1) k' e (ground arith))
    | inr (inr q) ↦ ground arith
  ]

  retry_behind_succeeds :
      (last : Outcome CniError (Unit {0})) (n m : ℕ) (f : Cni host (Unit {0})) (k k' : K)
      → m < n
      → Fails m f k
      → f (before m f k) ≡ (ok tt, k')
      → retry_behind host last n f k ≡ (ok tt, k')
  unfolding retry_behind
  retry_behind_succeeds last zero m f k k' lt fails h = absurd (omega arith)
  retry_behind_succeeds last (suc n) zero f k k' lt fails h = ground arith
  retry_behind_succeeds last (suc n) (suc m) f k k' lt ((d, q), fails) h =
      let rest =
        retry_behind_succeeds (err d) n m f (host.sleep (f k).1) k' (omega arith) fails h in
      ground arith

  -- `Retry` with at least one attempt answers no error only where an attempt answered none,
  -- and leaves the state as that attempt left it.
  pub retry_ok :
      (n : ℕ) (f : Cni host (Unit {0})) (k k' : K)
      → retry host (suc n) f k ≡ (ok tt, k')
      → (j : K) × (f j ≡ (ok tt, k'))
  unfolding retry retry_behind
  retry_ok n f k k' h = elim (Outcome-cases (f k).0) [
    | inl (v, e) ↦ (k, ground arith)
    | inr (inl (e, q)) ↦
        retry_behind_ok (err e) n f (host.sleep (f k).1) k' tt (ground arith) (λ x. ground arith)
    | inr (inr q) ↦ ground arith
  ]

  -- When `Retry` answers an error, each of its attempts, made one after the other with a sleep in
  -- between, has answered an error.
  pub retry_failed :
      (n : ℕ) (f : Cni host (Unit {0})) (k k' : K) (e : CniError)
      → retry host n f k ≡ (err e, k')
      → Fails n f k
  unfolding retry
  retry_failed n f k k' e h = retry_behind_failed (ok tt) n f k k' e h

  -- When the first `m` attempts answer errors, `m` is below the number of attempts, and the next
  -- attempt succeeds, `Retry` succeeds with the state that this attempt left.
  pub retry_succeeds :
      (n m : ℕ) (f : Cni host (Unit {0})) (k k' : K)
      → m < n
      → Fails m f k
      → f (before m f k) ≡ (ok tt, k')
      → retry host n f k ≡ (ok tt, k')
  unfolding retry
  retry_succeeds n m f k k' lt fails h = retry_behind_succeeds (ok tt) n m f k k' lt fails h

  try_effective_mac_ok :
      (org : VfLink) (name : String) (hw : List ℕ) (mac : String) (k k' : K)
      → try_effective_mac host org name hw mac k ≡ (ok tt, k')
      → (link : VfLink) × (host.link_by_name k' name ≡ some link)
        × (hardware_string link.hardware_addr ≡ mac)
  unfolding try_effective_mac
  try_effective_mac_ok org name hw mac k k' h =
      let (link, e) = some_of (host.link_by_name k' name) (λ e. ground arith) in
      (link, e, ground arith)

  -- When `SetVFEffectiveMAC` answers no error, the link of the name has the MAC address asked for
  -- in the state that is left.
  pub set_vf_effective_mac_ok :
      (name mac : String) (k k' : K)
      → set_vf_effective_mac host name mac k ≡ (ok tt, k')
      → (link : VfLink) × (host.link_by_name k' name ≡ some link)
        × (hardware_string link.hardware_addr ≡ mac)
  unfolding set_vf_effective_mac
  set_vf_effective_mac_ok name mac k k' h =
      let (hw, e) = some_of (host.parse_mac mac) (λ e. ground arith) in
      let (org, f) = some_of (host.link_by_name k name) (λ f. ground arith) in
      let (j, g) = retry_ok 19 (try_effective_mac host org name hw mac) k k' (ground arith) in
      try_effective_mac_ok org name hw mac j k' g

  try_hardware_mac_ok :
      (org : VfLink) (pf : String) (id : ℤ) (hw : List ℕ) (mac : String) (k k' : K)
      → try_hardware_mac host org pf id hw mac k ≡ (ok tt, k')
      → (link : VfLink) × (vf : VfInfo) × (host.link_by_name k' pf ≡ some link)
        × (at link.vfs id ≡ some vf)
        × (hardware_string vf.mac ≡ mac)
  unfolding try_hardware_mac
  try_hardware_mac_ok org pf id hw mac k k' h =
      let (link, e) = some_of (host.link_by_name k' pf) (λ e. ground arith) in
      let (vf, f) = some_of (at link.vfs id) (λ f. ground arith) in (link, vf, e, f, ground arith)

  -- When `SetVFHardwareMAC` answers no error, the entry of the physical function at the index of
  -- the virtual function has the MAC address asked for in the state that is left.
  pub set_vf_hardware_mac_ok :
      (pf : String) (id : ℤ) (mac : String) (k k' : K)
      → set_vf_hardware_mac host pf id mac k ≡ (ok tt, k')
      → (link : VfLink) × (vf : VfInfo) × (host.link_by_name k' pf ≡ some link)
        × (at link.vfs id ≡ some vf)
        × (hardware_string vf.mac ≡ mac)
  unfolding set_vf_hardware_mac
  set_vf_hardware_mac_ok pf id mac k k' h =
      let (hw, e) = some_of (host.parse_mac mac) (λ e. ground arith) in
      let (org, f) = some_of (host.link_by_name k pf) (λ f. ground arith) in
      let (j, g) = retry_ok 19 (try_hardware_mac host org pf id hw mac) k k' (ground arith) in
      try_hardware_mac_ok org pf id hw mac j k' g
