-- ===== src/SriovCni/Utils/VfId.antt =====
-- Which number `get_vfid` finds.
use ipu_opi_plugins.Prelude.{
  ltb, ℕ, zero, suc, ◌+◌, ◌<◌, ◌≤◌, ◌≡◌, true, false, Bool-cases, inl, inr, subst, ◌⊎◌, String,
  arith,
}
use ipu_opi_plugins.Prelude.Int.{ℤ, pos, negsuc}
use ipu_opi_plugins.Outcome.{ok, ok_of}
use ipu_opi_plugins.SriovCni.Host.{Host}
use ipu_opi_plugins.SriovCni.Utils.{is_vf, find_vf, get_sriov_num_vfs, get_vfid}

module _ {K : Type 0} (host : Host K) where
  ltb-cases : (a b : ℕ) → (a < b) ⊎ (b ≤ a)
  ltb-cases a b = elim (Bool-cases (ltb a b)) [
    | inl h ↦ inl (ground arith)
    | inr h ↦ inr (ground arith)
  ]

  find_vf_lem :
      (k : K) (addr pf : String) (n start : ℕ) (v : ℤ)
      → find_vf host k addr pf n start ≡ ok v
      → (i : ℕ) × (v ≡ pos i)
        × (start ≤ i)
        × (i < start + n)
        × (is_vf host k addr pf i ≡ true)
        × ((j : ℕ) → start ≤ j → j < i → is_vf host k addr pf j ≡ false)
  unfolding find_vf
  find_vf_lem k addr pf zero start v h = ground arith
  find_vf_lem k addr pf (suc n) start v h = elim (Bool-cases (is_vf host k addr pf start)) [
    | inl t ↦ (start, ground arith, omega arith, omega arith, t, λ j a b. absurd (omega arith))
    | inr f ↦
        let (i, e, a, b, t, least) = find_vf_lem k addr pf n (suc start) v (ground arith) in
        (
          i,
          e,
          omega arith,
          omega arith,
          t,
          λ j lo hi. elim (ltb-cases j (suc start)) [
            | inl c ↦ subst (λ x. is_vf host k addr pf x ≡ false) (omega arith) f
            | inr c ↦ least j c hi
          ],
        )
  ]

  get_vfid_behind :
      (k : K) (addr pf : String) (total v : ℤ)
      → get_sriov_num_vfs host k pf ≡ ok total
      → get_vfid host k addr pf ≡ ok v
      → (n i : ℕ) × (get_sriov_num_vfs host k pf ≡ ok (pos n))
        × (v ≡ pos i)
        × (i < n)
        × (is_vf host k addr pf i ≡ true)
        × ((j : ℕ) → j < i → is_vf host k addr pf j ≡ false)
  unfolding get_vfid find_vf
  get_vfid_behind k addr pf (pos n) v e h =
      let (i, q, a, b, t, least) = find_vf_lem k addr pf n 0 v (ground arith) in
      (n, i, e, q, omega arith, t, λ j c. least j (omega arith) c)
  get_vfid_behind k addr pf (negsuc n) v e h = ground arith

  -- A number that `GetVfid` answers is below the number of virtual functions of the physical
  -- function, the link of that virtual function leads to the address, and no smaller number's
  -- does.
  pub get_vfid_found :
      (k : K) (addr pf : String) (v : ℤ)
      → get_vfid host k addr pf ≡ ok v
      → (n i : ℕ) × (get_sriov_num_vfs host k pf ≡ ok (pos n))
        × (v ≡ pos i)
        × (i < n)
        × (is_vf host k addr pf i ≡ true)
        × ((j : ℕ) → j < i → is_vf host k addr pf j ≡ false)
  unfolding get_vfid
  get_vfid_found k addr pf v h =
      let (total, e) =
        ok_of (get_sriov_num_vfs host k pf) (λ e f. ground arith) (λ f. ground arith) in
      get_vfid_behind k addr pf total v e h
