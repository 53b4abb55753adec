-- ===== src/SriovCni/Sriov/Entries.antt =====
-- The entries of the virtual functions in the link of a physical function.
use ipu_opi_plugins.Prelude.{
  ◌≡◌, refl, Bool, true, not, ◌&&◌, some, List, [], ◌∷◌, if◌then◌else◌, Bool-cases, inl, inr, arith,
}
use ipu_opi_plugins.Prelude.Int.{ℤ, pos, negsuc, ltb_ℤ}
use ipu_opi_plugins.SriovCni.Types.{VfInfo}
use ipu_opi_plugins.SriovCni.Sriov.{get_vf_info}

abbrev pub is_id : ℤ → ℤ → Bool
is_id a b = not (ltb_ℤ a b) && not (ltb_ℤ b a)

-- The first entry with the number becomes `w`.
unfoldable pub put_vf : ℤ → VfInfo → List VfInfo → List VfInfo
put_vf id w [] = []
put_vf id w (v ∷ vfs) = let rest = put_vf id w vfs in if is_id v.id id then w ∷ vfs else v ∷ rest

is_id_refl : (a : ℤ) → is_id a a ≡ true
is_id_refl (pos a) = ground arith
is_id_refl (negsuc a) = ground arith

get_head : (w : VfInfo) (vfs : List VfInfo) (id : ℤ) → w.id ≡ id → get_vf_info (w ∷ vfs) id ≡ some w
unfolding get_vf_info
get_head w vfs id e = rw (← e) (rw (is_id_refl w.id))

pub get-put :
    (vfs : List VfInfo) (id : ℤ) (v w : VfInfo)
    → get_vf_info vfs id ≡ some v
    → w.id ≡ id
    → get_vf_info (put_vf id w vfs) id ≡ some w
unfolding get_vf_info put_vf
get-put [] id v w h e = ground arith
get-put (x ∷ vfs) id v w h e = elim (Bool-cases (is_id x.id id)) [
  | inl t ↦ rw t (get_head w vfs id e)
  | inr f ↦ rw f (rw f (get-put vfs id v w (rw f at h) e))
]

pub put-put :
    (vfs : List VfInfo) (id : ℤ) (v w : VfInfo)
    → v.id ≡ id
    → put_vf id w (put_vf id v vfs) ≡ put_vf id w vfs
unfolding put_vf
put-put [] id v w e = refl
put-put (x ∷ vfs) id v w e = elim (Bool-cases (is_id x.id id)) [
  | inl t ↦ let s : is_id v.id id ≡ true = rw e (is_id_refl id) in rw (t, s)
  | inr f ↦ rw (f, f, put-put vfs id v w e)
]

pub put-get :
    (vfs : List VfInfo) (id : ℤ) (v : VfInfo) → get_vf_info vfs id ≡ some v → put_vf id v vfs ≡ vfs
unfolding get_vf_info put_vf
put-get [] id v h = refl
put-get (x ∷ vfs) id v h = elim (Bool-cases (is_id x.id id)) [
  | inl t ↦ ground arith
  | inr f ↦ rw (f, put-get vfs id v (rw f at h))
]
