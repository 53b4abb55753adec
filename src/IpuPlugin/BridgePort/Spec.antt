-- ===== src/IpuPlugin/BridgePort/Spec.antt =====
-- What the service promises to its clients: the answers and the map of ports, as a function.
use ipu_opi_plugins.Prelude.{
  ◌≡◌, ◌≢◌, Option-cases, refl, ◌∙◌, ap, ◌⊎◌, inl, inr, Option, none, some, String, List, [], ◌∷◌,
  arith, ◌==◌, string_eq, if◌then◌else◌,
}
use ipu_opi_plugins.Outcome.{Outcome, ok, err, panic}
use ipu_opi_plugins.Dict.{lookup, lookup-insert, lookup-erase}
use ipu_opi_plugins.IpuPlugin.BridgePort.{
  BridgePort, State, Plugin, PortError, create_bridge_port, delete_bridge_port,
}
use ipu_opi_plugins.IpuPlugin.BridgePort.Validation.{
  IsAcceptable, create-IsAcceptable, create_acceptable,
}
use ipu_opi_plugins.IpuPlugin.BridgePort.Ports.{
  as_up, Answers, Removes, create-Answers, delete-Removes, delete_absent,
}

-- The calls that write the map.
pub data Request : Type 0 where
  create : BridgePort → Request
  delete : String → Request

pub data Answer : Type 0 where
  port_is : BridgePort → Answer
  deleted : Answer
  refused : PortError → Answer
  crashed : Answer

abbrev pub answer_create : Outcome PortError BridgePort → Answer
answer_create (ok port) = port_is port
answer_create (err e) = refused e
answer_create panic = crashed

abbrev pub answer_delete : Outcome PortError (Unit {0}) → Answer
answer_delete (ok _) = deleted
answer_delete (err e) = refused e
answer_delete panic = crashed

-- The abstract state: which port stands under a name.
abbrev pub Ports : Type 0
Ports = String → Option BridgePort

abbrev pub Same : Ports → Ports → Type 0
Same f g = (name : String) → g name ≡ f name

abbrev pub Updates : String → Option BridgePort → Ports → Ports → Type 0
Updates key v f g = (name : String) → g name ≡ (if key == name then v else f name)

-- One call: a port that is answered is acceptable, and it is the one that was there or the one
-- that was asked for, now there and up; a deletion takes the name away; a call that fails
-- changes nothing, and it is not one for an acceptable port that is there or the deletion of a
-- name that is not there.
abbrev pub Promises : Request → Answer → Ports → Ports → Type 0
Promises (create port) (port_is resp) f g =
    IsAcceptable port
    × ((f port.name ≡ some resp) × Same f g
        ⊎ (f port.name ≡ none) × (resp ≡ as_up port) × Updates port.name (some (as_up port)) f g)
Promises (create port) deleted f g = ⊥
Promises (create port) (refused e) f g = Same f g × (IsAcceptable port → f port.name ≡ none)
Promises (create port) crashed f g = Same f g × (IsAcceptable port → f port.name ≡ none)
Promises (delete name) (port_is resp) f g = ⊥
Promises (delete name) deleted f g = Updates name none f g
Promises (delete name) (refused e) f g = Same f g × (f name ≢ none)
Promises (delete name) crashed f g = Same f g × (f name ≢ none)

-- A sequence of calls with its answers.
abbrev pub Follows : List Request → List Answer → Ports → Ports → Type 0
Follows [] [] f h = Same f h
Follows [] (a ∷ answers) f h = ⊥
Follows (r ∷ rs) [] f h = ⊥
Follows (r ∷ rs) (a ∷ answers) f h = (g : Ports) × Promises r a f g × Follows rs answers g h

abbrev pub ports_of : {K : Type 0} → State K → Ports
ports_of s name = lookup name s.ports

module _ {K : Type 0} (plugin : Plugin K) where
  unfoldable pub serve : Request → State K → Answer × State K
  serve (create port) s =
      let (r, s') = create_bridge_port plugin (some port) s in (answer_create r, s')
  serve (delete name) s = let (r, s') = delete_bridge_port plugin name s in (answer_delete r, s')

  unfoldable pub serve_all : List Request → State K → List Answer × State K
  serve_all [] s = ([], s)
  serve_all (r ∷ rs) s =
      let (a, s1) = serve r s in let (answers, s2) = serve_all rs s1 in (a ∷ answers, s2)

  -- An acceptable port that is there is the answer.
  create_there :
      (port old : BridgePort) (s : State K)
      → IsAcceptable port
      → lookup port.name s.ports ≡ some old
      → (create_bridge_port plugin (some port) s).0 ≡ ok old
  create_there port old s fit there = rw (create_acceptable plugin port s fit) (rw there refl)

  fails_fresh :
      (port : BridgePort) (s : State K) (r : Outcome PortError BridgePort)
      → ((old : BridgePort) → IsAcceptable port → lookup port.name s.ports ≡ some old → r ≡ ok old)
      → ((old : BridgePort) → r ≢ ok old)
      → IsAcceptable port
      → lookup port.name s.ports ≡ none
  fails_fresh port s r answers fails fit = elim (Option-cases (lookup port.name s.ports)) [
    | inl fresh ↦ fresh
    | inr (old, there) ↦ absurd (fails old (answers old fit there))
  ]

  create-Promises :
      (port : BridgePort) (s : State K) (q : Outcome PortError BridgePort × State K)
      → Answers port s q
      → ((resp : BridgePort) → q.0 ≡ ok resp → IsAcceptable port)
      → ((old : BridgePort)
          → IsAcceptable port
          → lookup port.name s.ports ≡ some old
          → q.0 ≡ ok old)
      → Promises (create port) (answer_create q.0) (ports_of s) (ports_of q.1)
  create-Promises port s (ok resp, s') (inl (there, same)) fit answers =
      (fit resp refl, inl (there, λ name. ap (λ t. lookup name t.ports) same))
  create-Promises port s (ok resp, s') (inr (fresh, (made, put))) fit answers = (
    fit resp refl,
    inr (
      fresh,
      made,
      λ name. ap (lookup name) (rw made at put) ∙ lookup-insert name port.name (as_up port) s.ports,
    ),
  )
  create-Promises port s (err e, s') same fit answers =
      (λ name. ap (lookup name) same, fails_fresh port s (err e) answers (λ old h. ground arith))
  create-Promises port s (panic, s') same fit answers =
      (λ name. ap (lookup name) same, fails_fresh port s panic answers (λ old h. ground arith))

  delete-Promises :
      (name : String) (s : State K) (q : Outcome PortError (Unit {0}) × State K)
      → Removes name s q
      → (lookup name s.ports ≡ none → q.0 ≡ ok tt)
      → Promises (delete name) (answer_delete q.0) (ports_of s) (ports_of q.1)
  delete-Promises name s (ok u, s') gone absent =
      λ other. ap (lookup other) gone ∙ lookup-erase other name s.ports
  delete-Promises name s (err e, s') same absent =
      (λ other. ap (lookup other) same, λ h. let r = absent h in ground arith)
  delete-Promises name s (panic, s') same absent =
      (λ other. ap (lookup other) same, λ h. let r = absent h in ground arith)

  pub serve-Promises :
      (r : Request) (s : State K) → Promises r (serve r s).0 (ports_of s) (ports_of (serve r s).1)
  unfolding serve
  serve-Promises (create port) s =
      create-Promises port s (create_bridge_port plugin (some port) s)
        (create-Answers plugin port s) (λ resp. create-IsAcceptable plugin port s)
        (λ old. create_there port old s)
  serve-Promises (delete name) s =
      delete-Promises name s (delete_bridge_port plugin name s) (delete-Removes plugin name s)
        (λ h. ap (λ q. q.0) (delete_absent plugin name s h))

  -- Any sequence of creations and deletions follows the abstract service, a function from names
  -- to ports. A creation that is answered with a port is for an acceptable one: the answer is the
  -- port that was there, and nothing changes, or there was none and the answer is the request
  -- with the status up, which alone is new. A deletion that succeeds takes away the name alone. A
  -- call that fails changes nothing; it is not a creation of an acceptable port under a name that
  -- is there, and not a deletion of a name that is not there.
  pub serve_all-Follows :
      (rs : List Request) (s : State K)
      → Follows rs (serve_all rs s).0 (ports_of s) (ports_of (serve_all rs s).1)
  unfolding serve_all
  serve_all-Follows [] s = λ name. refl
  serve_all-Follows (r ∷ rs) s =
      (ports_of (serve r s).1, serve-Promises r s, serve_all-Follows rs (serve r s).1)
