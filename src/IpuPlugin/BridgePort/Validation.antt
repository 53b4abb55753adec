-- ===== src/IpuPlugin/BridgePort/Validation.antt =====
-- Which requests `create_bridge_port` refuses, and what a refusal leaves.
use ipu_opi_plugins.Prelude.{
  ℕ, ◌≤◌, ◌<◌, ◌≡◌, refl, ◌≢◌, ◌⊎◌, inl, inr, [], ◌∷◌, Option, none, some, String, length,
  get_elem?, arith, some_of, get_elem?-lt,
}
use ipu_opi_plugins.Prelude.Int.{ℤ, pos, negsuc}
use ipu_opi_plugins.Outcome.{ok, panic}
use ipu_opi_plugins.Dict.{lookup}
use ipu_opi_plugins.Text.Decimal.{atoi}
use ipu_opi_plugins.IpuPlugin.BridgePort.{
  BridgePortSpec, BridgePort, State, Plugin, create_bridge_port, add_bridge_port,
}

-- A port that may be created: an address of 2 to 6 bytes whose second byte, the number of the
-- VSI, is not 0, and a first bridge whose text is a vlan from 2 to 4094.
pub record IsAcceptable (port : BridgePort) : Type 0 where
  pub spec : BridgePortSpec
  pub given : port.spec ≡ some spec
  pub short : length spec.mac_address ≤ 6
  pub vsi : ℕ
  pub second : get_elem? spec.mac_address 1 ≡ some vsi
  pub vsi_pos : 0 < vsi
  pub first : String
  pub bridged : get_elem? spec.logical_bridges 0 ≡ some first
  pub vlan : ℕ
  pub parsed : atoi first ≡ some (pos vlan)
  pub vlan_low : 2 ≤ vlan
  pub vlan_high : vlan ≤ 4094

module _ {K : Type 0} (plugin : Plugin K) where
  -- The values that an accepted request holds, one at a time.
  spec_given :
      (port : BridgePort) (s : State K) {resp : BridgePort}
      → (create_bridge_port plugin (some port) s).0 ≡ ok resp
      → (spec : BridgePortSpec) × (port.spec ≡ some spec)
  unfolding create_bridge_port
  spec_given port s h = some_of port.spec (λ e. ground arith)

  vsi_given :
      (port : BridgePort) (spec : BridgePortSpec) (s : State K) {resp : BridgePort}
      → port.spec ≡ some spec
      → (create_bridge_port plugin (some port) s).0 ≡ ok resp
      → (vsi : ℕ) × (get_elem? spec.mac_address 1 ≡ some vsi)
  unfolding create_bridge_port
  vsi_given port spec s e h = some_of (get_elem? spec.mac_address 1) (λ none_there. ground arith)

  bridge_given :
      (port : BridgePort) (spec : BridgePortSpec) (s : State K) {resp : BridgePort}
      → port.spec ≡ some spec
      → (create_bridge_port plugin (some port) s).0 ≡ ok resp
      → (first : String) × (get_elem? spec.logical_bridges 0 ≡ some first)
  unfolding create_bridge_port
  bridge_given port spec s e h =
      some_of (get_elem? spec.logical_bridges 0) (λ none_there. ground arith)

  vlan_given :
      (port : BridgePort) (spec : BridgePortSpec) (first : String) (s : State K) {resp : BridgePort}
      → port.spec ≡ some spec
      → get_elem? spec.logical_bridges 0 ≡ some first
      → (create_bridge_port plugin (some port) s).0 ≡ ok resp
      → (vlan : ℕ) × (atoi first ≡ some (pos vlan)) × (2 ≤ vlan) × (vlan ≤ 4094)
  unfolding create_bridge_port
  vlan_given port spec first s e e' h = go (atoi first) refl
    where
      go :
          (o : Option ℤ)
          → atoi first ≡ o
          → (vlan : ℕ) × (atoi first ≡ some (pos vlan)) × (2 ≤ vlan) × (vlan ≤ 4094)
      go none q = absurd (ground arith)
      go (some (negsuc n)) q = absurd (ground arith)
      go (some (pos n)) q = (n, q, ground arith, ground arith)

  pub create-IsAcceptable :
      (port : BridgePort) (s : State K) {resp : BridgePort}
      → (create_bridge_port plugin (some port) s).0 ≡ ok resp
      → IsAcceptable port
  unfolding create_bridge_port
  create-IsAcceptable port s h =
      let (spec, given) = spec_given port s h in
      let (vsi, second) = vsi_given port spec s given h in
      let (first, bridged) = bridge_given port spec s given h in
      let (vlan, parsed, low, high) = vlan_given port spec first s given bridged h in
      record {
        spec = spec;
        given = given;
        short = ground arith;
        vsi = vsi;
        second = second;
        vsi_pos = ground arith;
        first = first;
        bridged = bridged;
        vlan = vlan;
        parsed = parsed;
        vlan_low = low;
        vlan_high = high;
      }

  -- An acceptable request goes on to the lookup of its name.
  pub create_acceptable :
      (port : BridgePort) (s : State K) (a : IsAcceptable port)
      → create_bridge_port plugin (some port) s ≡ elim (lookup port.name s.ports) [
        | some old ↦ (ok old, s)
        | none ↦ add_bridge_port plugin port a.spec (pos a.vlan) s
      ]
  unfolding create_bridge_port
  create_acceptable port s a = ground (
    arith,
    get_elem?-lt a.spec.mac_address 1 a.second,
    get_elem?-lt a.spec.logical_bridges 0 a.bridged,
  )

  numbers_cases :
      (port : BridgePort) (spec : BridgePortSpec) (vsi : ℕ) (first : String) (vlan : ℕ)
      (s : State K)
      → port.spec ≡ some spec
      → get_elem? spec.mac_address 1 ≡ some vsi
      → get_elem? spec.logical_bridges 0 ≡ some first
      → atoi first ≡ some (pos vlan)
      → ((length spec.mac_address ≤ 6) × (0 < vsi) × (2 ≤ vlan) × (vlan ≤ 4094))
        ⊎ ((create_bridge_port plugin (some port) s).1 ≡ s)
  unfolding create_bridge_port
  numbers_cases port spec vsi first vlan s e e1 e2 e3 = ground arith

  -- A request is acceptable, or it leaves everything as it was.
  pub create_cases :
      (port : BridgePort) (s : State K)
      → IsAcceptable port ⊎ ((create_bridge_port plugin (some port) s).1 ≡ s)
  unfolding create_bridge_port
  create_cases port s = at_spec port.spec refl
    where
      Cases : Type 0
      Cases = IsAcceptable port ⊎ ((create_bridge_port plugin (some port) s).1 ≡ s)

      at_vlan :
          (spec : BridgePortSpec) (vsi : ℕ) (first : String)
          → port.spec ≡ some spec
          → get_elem? spec.mac_address 1 ≡ some vsi
          → get_elem? spec.logical_bridges 0 ≡ some first
          → (o : Option ℤ) → atoi first ≡ o
          → Cases
      at_vlan spec vsi first e e1 e2 none q = inr (ground arith)
      at_vlan spec vsi first e e1 e2 (some (negsuc n)) q = inr (ground arith)
      at_vlan spec vsi first e e1 e2 (some (pos n)) q =
          elim (numbers_cases port spec vsi first n s e e1 e2 q) [
            | inr same ↦ inr same
            | inl (short, vsi_pos, low, high) ↦ inl (record {
              spec = spec;
              given = e;
              short = short;
              vsi = vsi;
              second = e1;
              vsi_pos = vsi_pos;
              first = first;
              bridged = e2;
              vlan = n;
              parsed = q;
              vlan_low = low;
              vlan_high = high;
            })
          ]

      at_bridge :
          (spec : BridgePortSpec) (vsi : ℕ)
          → port.spec ≡ some spec
          → get_elem? spec.mac_address 1 ≡ some vsi
          → (o : Option String) → get_elem? spec.logical_bridges 0 ≡ o
          → Cases
      at_bridge spec vsi e e1 none q = inr (ground arith)
      at_bridge spec vsi e e1 (some first) q = at_vlan spec vsi first e e1 q (atoi first) refl

      at_vsi :
          (spec : BridgePortSpec)
          → port.spec ≡ some spec
          → (o : Option ℕ) → get_elem? spec.mac_address 1 ≡ o
          → Cases
      at_vsi spec e none q = inr (ground arith)
      at_vsi spec e (some vsi) q = at_bridge spec vsi e q (get_elem? spec.logical_bridges 0) refl

      at_spec : (o : Option BridgePortSpec) → port.spec ≡ o → Cases
      at_spec none q = inr (ground arith)
      at_spec (some spec) q = at_vsi spec q (get_elem? spec.mac_address 1) refl

  -- A request that is not acceptable (an address of 2 to 6 bytes whose second byte is not 0, and
  -- a first bridge whose text is a vlan from 2 to 4094) is never answered with a port, and it
  -- changes neither the map of ports nor the system.
  pub create_refused :
      (port : BridgePort) (s : State K)
      → ¬ IsAcceptable port
      → ((resp : BridgePort) → (create_bridge_port plugin (some port) s).0 ≢ ok resp)
        × ((create_bridge_port plugin (some port) s).1 ≡ s)
  create_refused port s unfit = (
    λ resp answered. unfit (create-IsAcceptable port s answered),
    elim (create_cases port s) [ inl fit ↦ absurd (unfit fit) | inr same ↦ same ],
  )

  -- A request whose address has exactly one byte passes the test on its length:
  -- `CreateBridgePort` panics and changes nothing.
  pub create_one_byte :
      (port : BridgePort) (spec : BridgePortSpec) (b : ℕ) (s : State K)
      → port.spec ≡ some spec
      → spec.mac_address ≡ b ∷ []
      → create_bridge_port plugin (some port) s ≡ (panic, s)
  unfolding create_bridge_port
  create_one_byte port spec b s e one = ground arith
