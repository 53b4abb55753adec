-- ===== src/Tests/Mac.antt =====
-- The MAC address of a virtual function whose driver refuses it at first.
use ipu_opi_plugins.SriovCni.Utils.Time.{retry_bounded}
use ipu_opi_plugins.Prelude.{
  ℕ, zero, suc, ◌+◌, ◌-◌, ◌≤◌, List, ◌+◌, ◌-◌, List, ℕ, ◌≤◌, ◌≡◌, refl, [], ◌∷◌, arith, string_eq,
  nat_eq,
}
use ipu_opi_plugins.Prelude.Int.{pos}
use ipu_opi_plugins.Outcome.{ok, err}
use ipu_opi_plugins.Text.Hardware.{hardware_string}
use ipu_opi_plugins.SriovCni.Host.{set_failed}
use ipu_opi_plugins.SriovCni.Utils.{
  Cni, retry, retry_behind, try_effective_mac, try_hardware_mac, set_vf_effective_mac,
  set_vf_hardware_mac,
}
use ipu_opi_plugins.SriovCni.Utils.Retry.{Fails, before, retry_failed, retry_succeeds}
use ipu_opi_plugins.Tests.SriovCni.{set_mac, Node, host, node, vf_link}

-- The driver refuses the address twice and takes it the third time.
abbrev pub address_set : Node
address_set = record node { mac = 0 ∷ 17 ∷ []; busy = 0 }

sets_effective : set_vf_effective_mac host "net1" "00:11" node ≡ (ok tt, address_set)
unfolding set_vf_effective_mac try_effective_mac retry retry_behind hardware_string string_eq nat_eq
sets_effective = refl

sets_hardware : set_vf_hardware_mac host "ens1" (pos 1) "00:11" node ≡ (ok tt, address_set)
unfolding set_vf_hardware_mac try_hardware_mac retry retry_behind hardware_string string_eq nat_eq
sets_hardware = refl

abbrev try : Cni host (Unit {0})
try = try_effective_mac host (vf_link node "net1") "net1" (0 ∷ 17 ∷ []) "00:11"

two_fail : retry host 2 try node ≡ (err set_failed, record node { busy = 0 })
unfolding try_effective_mac retry retry_behind
two_fail = refl

first_two_fail : Fails host 2 try node
first_two_fail = retry_failed host 2 try node (record node { busy = 0 }) set_failed two_fail

third_succeeds : try (before host 2 try node) ≡ (ok tt, address_set)
unfolding try_effective_mac hardware_string string_eq nat_eq
third_succeeds = refl

retry_succeeds_example : retry host 20 try node ≡ (ok tt, address_set)
retry_succeeds_example =
    retry_succeeds host 20 2 try node address_set (omega arith) first_two_fail third_succeeds

-- The refusals that the driver has behind it are the clock: an attempt takes one step at most.
abbrev clock : Node → ℕ
clock k = 2 - k.busy

set_mac_step :
    (hw : List ℕ) (n : ℕ) (k : Node) → k.busy ≡ n → clock (set_mac hw n k).1 ≤ clock k + 1
set_mac_step hw zero k e = omega arith
set_mac_step hw (suc n) k e = omega arith

try_step : (k : Node) → clock (try k).1 ≤ clock k + 1
unfolding try_effective_mac
try_step k = let s = set_mac_step (0 ∷ 17 ∷ []) k.busy k refl in ground arith

retry_bounded_example : clock (retry host 20 try node).1 ≤ 20
retry_bounded_example = retry_bounded host clock try 1 0 try_step (λ k. omega arith) 20 node
