-- ===== src/IpuPlugin/BridgePort/Ports.antt =====
-- The map of ports under the two handlers that write it.
use ipu_opi_plugins.Prelude.{
  if◌then◌else◌, ◌&&◌, Bool, true, false, ◌≡◌, refl, sym, subst, ◌∙◌, ap, Bool-cases, Option, none,
  some, String, arith, ◌==◌, string_eq, ◌⊎◌, inl, inr, Option-cases,
}
use ipu_opi_plugins.Prelude.Int.{ℤ, pos}
use ipu_opi_plugins.Outcome.{Outcome, ok, err, panic}
use ipu_opi_plugins.Dict.{lookup, insert, erase, lookup-insert, lookup-erase, erase_absent}
use ipu_opi_plugins.IpuPlugin.BridgePort.{
  BridgePortSpec, BridgePort, State, Plugin, PortError, oper_status_up, create_bridge_port,
  add_bridge_port, delete_bridge_port, remove_bridge_port,
}
use ipu_opi_plugins.IpuPlugin.BridgePort.Validation.{
  IsAcceptable, create-IsAcceptable, create_acceptable, create_cases,
}

-- What the server answers with and keeps for a port.
abbrev pub as_up : BridgePort → BridgePort
as_up port = record port { status = some oper_status_up }

abbrev pub is_answered : Outcome PortError (Unit {0}) → Bool
is_answered (ok _) = true
is_answered (err _) = false
is_answered panic = false

module _ {K : Type 0} where
  -- A new port is put into the map where the call returns it; any other end leaves the map.
  abbrev pub Puts : BridgePort → State K → Outcome PortError BridgePort × State K → Type 0
  Puts port s (ok resp, s') = (resp ≡ as_up port) × (s'.ports ≡ insert port.name resp s.ports)
  Puts port s (err _, s') = s'.ports ≡ s.ports
  Puts port s (panic, s') = s'.ports ≡ s.ports

  -- However `CreateBridgePort` ends, the map is known: an answer is the port that was there, and
  -- nothing has changed, or a new port that is now in the map; any other end leaves the map.
  abbrev pub Answers : BridgePort → State K → Outcome PortError BridgePort × State K → Type 0
  Answers port s (ok resp, s') =
      (lookup port.name s.ports ≡ some resp) × (s' ≡ s)
      ⊎ (lookup port.name s.ports ≡ none) × Puts port s (ok resp, s')
  Answers port s (err _, s') = s'.ports ≡ s.ports
  Answers port s (panic, s') = s'.ports ≡ s.ports

  Puts-Answers :
      (port : BridgePort) (s : State K) (q : Outcome PortError BridgePort × State K)
      → lookup port.name s.ports ≡ none
      → Puts port s q
      → Answers port s q
  Puts-Answers port s (ok resp, s') fresh h = inr (fresh, h)
  Puts-Answers port s (err _, s') fresh h = h
  Puts-Answers port s (panic, s') fresh h = h

  abbrev pub Removes : String → State K → Outcome PortError (Unit {0}) × State K → Type 0
  Removes name s (ok _, s') = s'.ports ≡ erase name s.ports
  Removes name s (err _, s') = s'.ports ≡ s.ports
  Removes name s (panic, s') = s'.ports ≡ s.ports

  -- Every port is kept under its own name, is acceptable, and is up.
  abbrev pub IsValid : State K → Type 0
  IsValid s =
      (name : String) (port : BridgePort)
      → lookup name s.ports ≡ some port
      → (port.name ≡ name) × IsAcceptable port × (port.status ≡ some oper_status_up)

-- Only the status changes.
abbrev pub as_up-IsAcceptable : (port : BridgePort) → IsAcceptable port → IsAcceptable (as_up port)
as_up-IsAcceptable port a = record {
  spec = a.spec;
  given = a.given;
  short = a.short;
  vsi = a.vsi;
  second = a.second;
  vsi_pos = a.vsi_pos;
  first = a.first;
  bridged = a.bridged;
  vlan = a.vlan;
  parsed = a.parsed;
  vlan_low = a.vlan_low;
  vlan_high = a.vlan_high;
}

module _ {K : Type 0} where
  ports-IsValid : (s s' : State K) → s'.ports ≡ s.ports → IsValid s → IsValid s'
  ports-IsValid s s' same v name port found = v name port (rw same at found)

  insert-IsValid :
      (port : BridgePort) (s s' : State K)
      → IsAcceptable port
      → IsValid s
      → s'.ports ≡ insert port.name (as_up port) s.ports
      → IsValid s'
  insert-IsValid port s s' fit v put name p found = elim (Bool-cases (port.name == name)) [
    | inl same ↦
        let is : as_up port ≡ p =
          ground (arith, lookup-insert name port.name (as_up port) s.ports) in
        subst (λ q. (q.name ≡ name) × IsAcceptable q × (q.status ≡ some oper_status_up)) is
          (ground arith, as_up-IsAcceptable port fit, refl)
    | inr other ↦ v name p (ground (arith, lookup-insert name port.name (as_up port) s.ports))
  ]

module _ {K : Type 0} (plugin : Plugin K) where
  pub delete_absent :
      (name : String) (s : State K)
      → lookup name s.ports ≡ none
      → delete_bridge_port plugin name s ≡ (ok tt, s)
  unfolding delete_bridge_port
  delete_absent name s absent = ground arith

  pub delete_present :
      (name : String) (s : State K) (port : BridgePort)
      → lookup name s.ports ≡ some port
      → delete_bridge_port plugin name s ≡ remove_bridge_port plugin name port s
  unfolding delete_bridge_port
  delete_present name s port there = ground arith

  pub add_bridge_port-Puts :
      (port : BridgePort) (spec : BridgePortSpec) (vlan : ℤ) (s : State K)
      → Puts port s (add_bridge_port plugin port spec vlan s)
  unfolding add_bridge_port
  add_bridge_port-Puts port spec vlan s = ground arith

  pub remove_bridge_port-Removes :
      (name : String) (port : BridgePort) (s : State K)
      → Removes name s (remove_bridge_port plugin name port s)
  unfolding remove_bridge_port
  remove_bridge_port-Removes name port s = ground arith

  -- The call goes on to the part behind the tests.
  pub create_new :
      (port : BridgePort) (s : State K) (fit : IsAcceptable port)
      → lookup port.name s.ports ≡ none
      → create_bridge_port plugin (some port) s
        ≡ add_bridge_port plugin port fit.spec (pos fit.vlan) s
  create_new port s fit fresh = create_acceptable plugin port s fit ∙ rw fresh

  -- A port that was not there and is answered with has been put into the map.
  pub create_puts :
      (port : BridgePort) (s : State K) {resp : BridgePort}
      → lookup port.name s.ports ≡ none
      → (create_bridge_port plugin (some port) s).0 ≡ ok resp
      → (create_bridge_port plugin (some port) s).1.ports ≡ insert port.name (as_up port) s.ports
  create_puts port s {resp} fresh h =
      let fit = create-IsAcceptable plugin port s h in
      let e = create_new port s fit fresh in
      rw e (
        put (add_bridge_port plugin port fit.spec (pos fit.vlan) s)
          (add_bridge_port-Puts port fit.spec (pos fit.vlan) s) (rw e at h))
    where
      put :
          (q : Outcome PortError BridgePort × State K)
          → Puts port s q
          → q.0 ≡ ok resp
          → q.1.ports ≡ insert port.name (as_up port) s.ports
      put (ok r, s') (made, inserted) e = rw made at inserted
      put (err _, s') h e = cc
      put (panic, s') h e = cc

  fit-Answers :
      (port : BridgePort) (s : State K)
      → IsAcceptable port
      → Answers port s (create_bridge_port plugin (some port) s)
  fit-Answers port s fit =
      rw (create_acceptable plugin port s fit) (at (lookup port.name s.ports) refl)
    where
      at :
          (found : Option BridgePort)
          → lookup port.name s.ports ≡ found
          → Answers port s (elim (lookup port.name s.ports) [
            | some old ↦ (ok old, s)
            | none ↦ add_bridge_port plugin port fit.spec (pos fit.vlan) s
          ])
      at none e =
          rw e (Puts-Answers port s _ e (add_bridge_port-Puts port fit.spec (pos fit.vlan) s))
      at (some old) e = rw e (inl (e, refl))

  -- However `CreateBridgePort` ends, the map is known: an answer is the port that was in the map
  -- under the name, and nothing has changed, or the name was not in the map and the answer is the
  -- request with the status up, which is now in the map under its name; an error or a panic
  -- leaves the map as it was.
  pub create-Answers :
      (port : BridgePort) (s : State K) → Answers port s (create_bridge_port plugin (some port) s)
  create-Answers port s = elim (create_cases plugin port s) [
    | inl fit ↦ fit-Answers port s fit
    | inr same ↦ unchanged (create_bridge_port plugin (some port) s) refl same
  ]
    where
      unchanged :
          (q : Outcome PortError BridgePort × State K)
          → create_bridge_port plugin (some port) s ≡ q
          → q.1 ≡ s
          → Answers port s q
      unchanged (ok resp, s') e same =
          rw e at (fit-Answers port s (create-IsAcceptable plugin port s (ap (λ q. q.0) e)))
      unchanged (err _, s') e same = ap (λ t. t.ports) same
      unchanged (panic, s') e same = ap (λ t. t.ports) same

  -- When every port in the map is kept under its own name, is acceptable and is up, the same
  -- holds after `CreateBridgePort`, however the call ends.
  pub create-IsValid :
      (port : BridgePort) (s : State K)
      → IsValid s
      → IsValid (create_bridge_port plugin (some port) s).1
  create-IsValid port s v =
      after (create_bridge_port plugin (some port) s) (create-Answers port s)
        (λ resp. create-IsAcceptable plugin port s)
    where
      after :
          (q : Outcome PortError BridgePort × State K)
          → Answers port s q
          → ((resp : BridgePort) → q.0 ≡ ok resp → IsAcceptable port)
          → IsValid q.1
      after (ok resp, s') (inl (_, same)) fit = subst IsValid (sym same) v
      after (ok resp, s') (inr (_, (made, put))) fit =
          insert-IsValid port s s' (fit resp refl) v (rw made at put)
      after (err _, s') same fit = ports-IsValid s s' same v
      after (panic, s') same fit = ports-IsValid s s' same v

  pub delete-Removes :
      (name : String) (s : State K) → Removes name s (delete_bridge_port plugin name s)
  delete-Removes name s = elim (Option-cases (lookup name s.ports)) [
    | inl absent ↦ rw (delete_absent name s absent) (sym (erase_absent name s.ports absent))
    | inr (port, there) ↦
        rw (delete_present name s port there) (remove_bridge_port-Removes name port s)
  ]

  -- When every port in the map is kept under its own name, is acceptable and is up, the same
  -- holds after `DeleteBridgePort`, however the call ends. An answer leaves nothing under the
  -- name, and under every other name what was there; an error or a panic leaves under each name
  -- what was there.
  pub delete-IsValid :
      (name : String) (s : State K)
      → IsValid s
      → IsValid (delete_bridge_port plugin name s).1
        × ((other : String)
            → lookup other (delete_bridge_port plugin name s).1.ports ≡ (
                if is_answered (delete_bridge_port plugin name s).0 && name == other
                then none
                else lookup other s.ports))
  delete-IsValid name s v =
      let q = delete_bridge_port plugin name s in
      let r = delete-Removes name s in (valid q r, left q r)
    where
      valid : (q : Outcome PortError (Unit {0}) × State K) → Removes name s q → IsValid q.1
      valid (ok _, s') e = λ k p found. v k p (ground (arith, lookup-erase k name s.ports))
      valid (err _, s') same = ports-IsValid s s' same v
      valid (panic, s') same = ports-IsValid s s' same v

      left :
          (q : Outcome PortError (Unit {0}) × State K)
          → Removes name s q
          → (other : String)
          → lookup other q.1.ports
            ≡ (if is_answered q.0 && name == other then none else lookup other s.ports)
      left (ok _, s') e other = ap (lookup other) e ∙ lookup-erase other name s.ports
      left (err _, s') e other = ap (lookup other) e
      left (panic, s') e other = ap (lookup other) e
