-- ===== src/SriovCni/Sriov/Lawful.antt =====
-- What is relied on of the calls that change a virtual function, and the rules by which the steps
-- of the manager are followed: which entry a step makes of an entry.
use ipu_opi_plugins.Prelude.{
  ℕ, ◌%◌, ◌^◌, ◌-◌, ◌≡◌, refl, sym, ap, ◌∙◌, Bool, true, false, some, String, List, if◌then◌else◌,
  string_eq,
}
use ipu_opi_plugins.Prelude.Int.{ℤ, pos, negsuc}
use ipu_opi_plugins.Outcome.{Attempt}
use ipu_opi_plugins.SriovCni.Types.{VfInfo}
use ipu_opi_plugins.SriovCni.Host.{Host, VfLink}
use ipu_opi_plugins.SriovCni.Sriov.{get_vf_info}
use ipu_opi_plugins.SriovCni.Sriov.Entries.{put_vf, get-put, put-put, put-get}

-- `uint32(z)`
abbrev pub as_uint32 : ℤ → ℕ
as_uint32 (pos n) = n % 2 ^ 32
as_uint32 (negsuc n) = 2 ^ 32 - 1 - n % 2 ^ 32

module _ {K : Type 0} (host : Host K) (pf : String) where
  -- A call for the virtual function `id` of a link with the index of `l`: when it succeeds, that
  -- entry of the link of the name alone is changed, by `f`, and when it fails, nothing is.
  abbrev pub IsSetter : VfLink → ℤ → (VfInfo → VfInfo) → Attempt K → Type 0
  IsSetter l id f call =
      (k : K) (now : VfLink) (vf : VfInfo)
      → host.link_by_name k pf ≡ some now
      → now.index ≡ l.index
      → get_vf_info now.vfs id ≡ some vf
      → host.link_by_name (call k).1 pf
        ≡ some (record now { vfs = if (call k).0 then put_vf id (f vf) now.vfs else now.vfs })

  -- The documented effect of the calls, where nobody else changes the link.
  pub record IsLawful : Type 0 where
    pub sets_mac :
        (l : VfLink) (id : ℤ) (hw : List ℕ)
        → IsSetter l id (λ w. record w { mac = hw }) (host.link_set_vf_hardware_addr l id hw)
    pub sets_rate :
        (l : VfLink) (id low high : ℤ)
        → IsSetter l id
            (λ w. record w { min_tx_rate = as_uint32 low; max_tx_rate = as_uint32 high })
            (host.link_set_vf_rate l id low high)
    pub sets_spoofchk :
        (l : VfLink) (id : ℤ) (b : Bool)
        → IsSetter l id (λ w. record w { spoofchk = b }) (host.link_set_vf_spoofchk l id b)
    pub sets_trust :
        (l : VfLink) (id : ℤ) (b : Bool)
        → IsSetter l id
            (λ w. record w { trust = if b then 1 else 0 })
            (host.link_set_vf_trust l id b)
    pub sets_state :
        (l : VfLink) (id : ℤ) (s : ℕ)
        → IsSetter l id (λ w. record w { link_state = s }) (host.link_set_vf_state l id s)
    pub sleeps : (k : K) → host.link_by_name (host.sleep k) pf ≡ host.link_by_name k pf

  module _ (l : VfLink) (id : ℤ) (v : VfInfo) (found : get_vf_info l.vfs id ≡ some v) where
    abbrev pub with_entry : VfInfo → VfLink
    with_entry w = record l { vfs = put_vf id w l.vfs }

    -- The link is as at first, but for the entry `w`.
    abbrev pub Shows : K → VfInfo → Type 0
    Shows k w = host.link_by_name k pf ≡ some (with_entry w)

    pub first-Shows : (k : K) → host.link_by_name k pf ≡ some l → Shows k v
    first-Shows k e = e ∙ ap (λ vfs. some (record l { vfs = vfs })) (sym (put-get l.vfs id v found))

    pub Shows-first : (k : K) → Shows k v → host.link_by_name k pf ≡ some l
    Shows-first k e = e ∙ ap (λ vfs. some (record l { vfs = vfs })) (put-get l.vfs id v found)

    chosen :
        (f : VfInfo → VfInfo) (w : VfInfo) (e : w.id ≡ id) (d : Bool)
        → (if d then put_vf id (f w) (put_vf id w l.vfs) else put_vf id w l.vfs)
          ≡ put_vf id (if d then f w else w) l.vfs
    chosen f w e true = put-put l.vfs id w (f w) e
    chosen f w e false = refl

    pub setter-Shows :
        (now : VfLink) (f : VfInfo → VfInfo) (call : Attempt K) (w : VfInfo) (k : K)
        → IsSetter now id f call
        → now.index ≡ l.index
        → w.id ≡ id
        → Shows k w
        → Shows (call k).1 (if (call k).0 then f w else w)
    setter-Shows now f call w k law same e h =
        let after = law k (with_entry w) w h (sym same) (get-put l.vfs id v w found e) in
        after ∙ ap (λ vfs. some (record l { vfs = vfs })) (chosen f w e (call k).0)
