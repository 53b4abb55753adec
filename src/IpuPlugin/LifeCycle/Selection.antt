-- ===== src/IpuPlugin/LifeCycle/Selection.antt =====
-- Which link `get_comm_pf` finds.
use ipu_opi_plugins.Prelude.{
  ◌≡◌, Bool, true, false, some, String, List, [], ◌∷◌, arith, All, Any, string_eq, inl, inr,
  Bool-cases, Option-cases,
}
use ipu_opi_plugins.Outcome.{ok, err}
use ipu_opi_plugins.Netlink.{Link}
use ipu_opi_plugins.IpuPlugin.LifeCycle.{System, no_pf, fourth_octet, selects, get_comm_pf}

module _ {K : Type 0} (sys : System K) where
  -- The test of the mode answers `b` for the link, which does not panic.
  abbrev pub Tests : Bool → String → K → Link → Type 0
  Tests b mode k l = (o : String) × (fourth_octet sys l ≡ some o) × (selects sys mode k l o ≡ b)

  -- A link that `getCommPf` answers is one of the links that it was given and passes the test of
  -- the mode.
  pub get_comm_pf_found :
      (mode : String) (k : K) (links : List Link) (l : Link)
      → get_comm_pf sys mode k links ≡ ok l
      → Any (λ x. x ≡ l) links × Tests true mode k l
  unfolding get_comm_pf
  get_comm_pf_found mode k [] l h = ground arith
  get_comm_pf_found mode k (x ∷ links) l h = elim (Option-cases (fourth_octet sys x)) [
    | inl e ↦ ground arith
    | inr (o, e) ↦ elim (Bool-cases (selects sys mode k x o)) [
      | inl t ↦ (inl (ground arith), (o, ground arith, ground arith))
      | inr t ↦
          let (found, tests) = get_comm_pf_found mode k links l (ground arith) in (inr found, tests)
    ]
  ]

  -- When `getCommPf` answers that there is no physical function, every link that it was given has
  -- a fourth octet and fails the test of the mode.
  pub get_comm_pf_none :
      (mode : String) (k : K) (links : List Link)
      → get_comm_pf sys mode k links ≡ err no_pf
      → All (Tests false mode k) links
  unfolding get_comm_pf
  get_comm_pf_none mode k [] h = tt
  get_comm_pf_none mode k (x ∷ links) h = elim (Option-cases (fourth_octet sys x)) [
    | inl e ↦ ground arith
    | inr (o, e) ↦ elim (Bool-cases (selects sys mode k x o)) [
      | inl t ↦ ground arith
      | inr t ↦ ((o, e, t), get_comm_pf_none mode k links ground arith)
    ]
  ]
