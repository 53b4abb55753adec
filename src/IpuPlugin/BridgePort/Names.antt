-- ===== src/IpuPlugin/BridgePort/Names.antt =====
-- The vlan interface of a port: its vlan, its name, and that no two ports share one.
use ipu_opi_plugins.Prelude.{
  ℕ, ◌≡◌, ◌≢◌, refl, ◌∙◌, ap, Bool, true, false, Option, none, some, String, get_elem?, arith, ◌==◌,
  string_eq, nat_eq,
}
use ipu_opi_plugins.Prelude.Int.{ℤ, pos}
use ipu_opi_plugins.Text.Digits.{digit_value}
use ipu_opi_plugins.Text.Decimal.{atoi}
use ipu_opi_plugins.Text.Suffix.{strip_digits, numbered_injective}
use ipu_opi_plugins.IpuPlugin.BridgePort.{BridgePortSpec, BridgePort, vlan_intf_name}
use ipu_opi_plugins.IpuPlugin.BridgePort.Validation.{IsAcceptable}

-- The number that the first bridge of a port stands for.
unfoldable pub first_number : Option BridgePortSpec → Option ℤ
first_number none = none
first_number (some spec) = elim (get_elem? spec.logical_bridges 0) [
  | none ↦ none
  | some first ↦ atoi first
]

pub first_number_of :
    (port : BridgePort) (fit : IsAcceptable port) → first_number port.spec ≡ some (pos fit.vlan)
unfolding first_number
first_number_of port fit =
    ap first_number fit.given
    ∙ ap (λ o. elim o as (λ _. Option ℤ) [ none ↦ none | some first ↦ atoi first ]) fit.bridged
    ∙ fit.parsed

-- The vlan of a port, which is 0 for one that is not acceptable.
abbrev vlan_in : Option ℤ → ℕ
vlan_in (some (pos n)) = n
vlan_in _ = 0

unfoldable pub vlan_of : BridgePort → ℕ
unfolding first_number
vlan_of port = vlan_in (first_number port.spec)

pub vlan_of_lem : (port : BridgePort) (fit : IsAcceptable port) → vlan_of port ≡ fit.vlan
unfolding vlan_of
vlan_of_lem port fit = ap vlan_in (first_number_of port fit)

-- The name of the vlan interface of the port that is kept under a name.
abbrev pub interface_of : String → BridgePort → String
interface_of name port = vlan_intf_name name (pos (vlan_of port))

abbrev mark : String
mark = "_vlan"

mark-whole : strip_digits mark ≡ mark
unfolding strip_digits digit_value nat_eq
mark-whole = refl

mark_some : mark ≢ ""
unfolding string_eq
mark_some e = let f : ◌≡◌ {A = Bool} false true = ap (λ s. s == "") e in ground arith

-- The interfaces of ports with two names have two names, whatever the vlans are.
pub vlan_intf_name_injective :
    (name other : String) (n m : ℕ)
    → vlan_intf_name name (pos n) ≡ vlan_intf_name other (pos m)
    → name ≡ other
vlan_intf_name_injective name other n m =
    numbered_injective mark name other n m mark-whole mark_some

pub vlan_intf_name_differ :
    (name other : String) (n m : ℕ)
    → (name == other) ≡ false
    → (vlan_intf_name name (pos n) == vlan_intf_name other (pos m)) ≡ false
vlan_intf_name_differ name other n m h =
    let same = vlan_intf_name_injective name other n m in ground arith
