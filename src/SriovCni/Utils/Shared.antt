-- ===== src/SriovCni/Utils/Shared.antt =====
-- GetSharedPF of sriov_cni/pkg/utils/utils.go, which reads the directory its link leads to by the text of the
-- path.
use Prim.Native.String.{slice, len}
use ipu_opi_plugins.Prelude.{
  if◌then◌else◌, ◌<>◌, ltb, ◌-◌, not, Option, ◌∷◌, ◌≡◌, List, [], String, Any, Bool-cases,
  Option-cases, inl, inr, true, false, some, none, ◌<◌, subst, sym, ap, arith, ◌==◌, string_eq,
}
use ipu_opi_plugins.Outcome.{err, Outcome, ok, panic}
use ipu_opi_plugins.SriovCni.Host.{
  not_a_symlink, shared_pf_not_found, sysfs_failed, CniError, FilePath, Host,
}
use ipu_opi_plugins.SriovCni.Utils.{net_directory}

-- The text of a path: its elements with `/` between them.
path_text : FilePath → String
path_text [] = ""
path_text (part ∷ []) = part
path_text (part ∷ next ∷ parts) = part <> "/" <> path_text (next ∷ parts)

module _ {K : Type 0} (host : Host K) where
  -- The name that is not the given one and stands first in the list.
  other_name : String → List String → Outcome CniError String
  other_name if_name [] = err shared_pf_not_found
  other_name if_name (file ∷ files) =
      let rest = other_name if_name files in if not (file == if_name) then ok file else rest

  -- `os.ReadDir(parentDir)`, which gives no names at an error that the function drops.
  abbrev entries : K → String → List String
  entries k dir = elim (host.read_dir k (dir ∷ [])) [ none ↦ [] | some names ↦ names ]

  -- The text of what `filepath.EvalSymlinks` answers, which is empty at an error.
  abbrev evaluated : K → FilePath → String
  evaluated k dir = elim (host.eval_symlinks k dir) [ none ↦ "" | some path ↦ path_text path ]

  -- `fullpath[:len(fullpath)-len(ifName)]`; the program panics at `none`.
  abbrev parent_of : String → String → Option String
  parent_of full_path if_name =
      if ltb (len full_path) (len if_name)
      then none
      else some (slice full_path 0 (len full_path - len if_name))

  get_shared_pf : K → String → Outcome CniError String
  unfolding other_name path_text
  get_shared_pf k if_name = elim (host.lstat k (net_directory ∷ if_name ∷ [])) [
    | none ↦ err sysfs_failed
    | some symlink ↦
        if not symlink
        then err not_a_symlink
        else elim (parent_of (evaluated k (net_directory ∷ if_name ∷ [])) if_name) [
          | none ↦ panic
          | some parent_dir ↦ other_name if_name (entries k parent_dir)
        ]
  ]

  other_name_lem :
      (if_name name : String) (files : List String)
      → other_name if_name files ≡ ok name
      → Any (λ x. x ≡ name) files × ((name == if_name) ≡ false)
  unfolding other_name
  other_name_lem if_name name [] h = ground arith
  other_name_lem if_name name (file ∷ files) h = elim (Bool-cases (file == if_name)) [
    | inl t ↦ let (m, d) = other_name_lem if_name name files (ground arith) in (inr m, d)
    | inr f ↦ let e : file ≡ name = ground arith in (inl e, subst (λ x. (x == if_name) ≡ false) e f)
  ]

  -- The name that is answered stands in the directory of the link and is not the given one.
  get_shared_pf_lem :
      (k : K) (if_name name : String)
      → get_shared_pf k if_name ≡ ok name
      → (dir : String) × (parent_of (evaluated k (net_directory ∷ if_name ∷ [])) if_name ≡ some dir)
        × Any (λ x. x ≡ name) (entries k dir)
        × ((name == if_name) ≡ false)
  unfolding get_shared_pf
  get_shared_pf_lem k if_name name h =
      elim (Option-cases (host.lstat k (net_directory ∷ if_name ∷ []))) [
        | inl e ↦ ground arith
        | inr (true, e) ↦
            elim (Option-cases (parent_of (evaluated k (net_directory ∷ if_name ∷ [])) if_name)) [
              | inl q ↦ ground arith
              | inr (dir, q) ↦
                  let (m, d) = other_name_lem if_name name (entries k dir) (ground arith) in
                  (dir, q, m, d)
            ]
        | inr (false, e) ↦ ground arith
      ]

  -- Where the link is there but leads nowhere, and the given name is not empty, the program panics.
  get_shared_pf-dangling :
      (k : K) (if_name : String)
      → host.lstat k (net_directory ∷ if_name ∷ []) ≡ some true
      → host.eval_symlinks k (net_directory ∷ if_name ∷ []) ≡ none
      → 0 < len if_name
      → get_shared_pf k if_name ≡ panic
  unfolding get_shared_pf
  get_shared_pf-dangling k if_name l e p =
      let dir = net_directory ∷ if_name ∷ [] in
      let v : evaluated k dir ≡ "" =
        ap (λ r. elim r as (λ x. String) [ none ↦ "" | some path ↦ path_text path ]) e in
      let short : parent_of "" if_name ≡ none = ground arith in
      let c : parent_of (evaluated k dir) if_name ≡ none =
        subst (λ t. parent_of t if_name ≡ none) (sym v) short in
      ground arith
