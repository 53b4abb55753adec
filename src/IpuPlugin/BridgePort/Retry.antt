-- ===== src/IpuPlugin/BridgePort/Retry.antt =====
-- The calls of the two handlers, made again.
use ipu_opi_plugins.Prelude.{
  ◌≡◌, ◌∙◌, none, some, String, arith, ◌==◌, string_eq, if◌then◌else◌, inl, inr, ==-refl,
}
use ipu_opi_plugins.Outcome.{Outcome, ok, err, panic}
use ipu_opi_plugins.Dict.{lookup, erase, lookup-insert, lookup-erase}
use ipu_opi_plugins.IpuPlugin.BridgePort.{
  BridgePort, State, Plugin, PortError, create_bridge_port, delete_bridge_port,
}
use ipu_opi_plugins.IpuPlugin.BridgePort.Validation.{create-IsAcceptable, create_acceptable}
use ipu_opi_plugins.IpuPlugin.BridgePort.Ports.{
  Answers, Removes, create-Answers, delete-Removes, delete_absent,
}

module _ {K : Type 0} (plugin : Plugin K) where
  -- The port that is answered with stands in the map.
  answered_kept :
      (port : BridgePort) (s : State K) (q : Outcome PortError BridgePort × State K)
      (resp : BridgePort)
      → Answers port s q
      → q.0 ≡ ok resp
      → lookup port.name q.1.ports ≡ some resp
  answered_kept port s (ok r, s') resp (inl (there, same)) e = ground arith
  answered_kept port s (ok r, s') resp (inr (fresh, (made, put))) e =
      ground (arith, lookup-insert port.name port.name r s.ports)
  answered_kept port s (err _, s') resp h e = cc
  answered_kept port s (panic, s') resp h e = cc

  -- When a port was created with success, creating it again answers with the same port and
  -- changes neither the map nor the system.
  pub create_again :
      (port : BridgePort) (s : State K) {resp : BridgePort}
      → (create_bridge_port plugin (some port) s).0 ≡ ok resp
      → let s' = (create_bridge_port plugin (some port) s).1 in
        create_bridge_port plugin (some port) s' ≡ (ok resp, s')
  create_again port s {resp} h =
      let s' = (create_bridge_port plugin (some port) s).1 in
      let kept = answered_kept port s _ resp (create-Answers plugin port s) h in
      create_acceptable plugin port s' (create-IsAcceptable plugin port s h) ∙ rw kept

  pub delete_erases :
      (name : String) (s : State K)
      → (delete_bridge_port plugin name s).0 ≡ ok tt
      → (delete_bridge_port plugin name s).1.ports ≡ erase name s.ports
  delete_erases name s h = after (delete_bridge_port plugin name s) (delete-Removes plugin name s) h
    where
      after :
          (q : Outcome PortError (Unit {0}) × State K)
          → Removes name s q
          → q.0 ≡ ok tt
          → q.1.ports ≡ erase name s.ports
      after (ok _, s') e h = e
      after (err _, s') e h = cc
      after (panic, s') e h = cc

  -- When a deletion succeeds, the name is not in the map, the other names are as before, and
  -- deleting the name once more succeeds and changes nothing.
  pub delete_again :
      (name : String) (s : State K)
      → (delete_bridge_port plugin name s).0 ≡ ok tt
      → let s' = (delete_bridge_port plugin name s).1 in
        ((other : String)
          → lookup other s'.ports ≡ (if name == other then none else lookup other s.ports))
        × (delete_bridge_port plugin name s' ≡ (ok tt, s'))
  delete_again name s h =
      let erased = delete_erases name s h in
      (
        λ other. rw erased (lookup-erase other name s.ports),
        delete_absent plugin name (delete_bridge_port plugin name s).1
            (rw erased (lookup-erase name name s.ports ∙ rw ==-refl)),
      )
