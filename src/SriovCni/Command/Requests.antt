-- ===== src/SriovCni/Command/Requests.antt =====
-- The requests of the CNI plugin against the tests of the server.
use text.Mathlib.TextLemmas.{append_cancel_left}
use ipu_opi_plugins.Prelude.{
  ◌^◌, ℕ, ◌+◌, ◌≤◌, ◌<◌, ◌≡◌, refl, sym, ◌∙◌, ap, Option, none, some, ◌<>◌, List, [], ◌∷◌, arith,
  length, get_elem?,
}
use ipu_opi_plugins.Prelude.Int.{ℤ, pos, ◌+ℤ◌, wrap64, wrap64_id, IsInt64}
use ipu_opi_plugins.Text.Decimal.{format, atoi, atoi-format}
use ipu_opi_plugins.SriovCni.Types.{NetConf}
use ipu_opi_plugins.SriovCni.Command.{port_name, create_request}
use ipu_opi_plugins.IpuPlugin.BridgePort.Names.{first_number, first_number_of}
use ipu_opi_plugins.IpuPlugin.BridgePort.Validation.{IsAcceptable}

vlan_of : (id : ℤ) (v : ℕ) → id ≡ pos v → v < 2 ^ 62 → wrap64 (id +ℤ pos 2) ≡ pos (v + 2)
unfolding ◌+ℤ◌
vlan_of id v e h = ap wrap64 (ground arith) ∙ wrap64_id (pos (v + 2)) (omega arith)

vlan_text :
    (id : ℤ) (v : ℕ)
    → id ≡ pos v
    → v < 2 ^ 62
    → atoi (format (wrap64 (id +ℤ pos 2))) ≡ some (pos (v + 2))
vlan_text id v e h =
    ap (λ z. atoi (format z)) (vlan_of id v e h) ∙ atoi-format (pos (v + 2)) (omega arith)

-- The port that `cmdAdd` asks for is acceptable to the bridge port service where the virtual
-- function has a number from 0 to 4092 and its address has at most 6 bytes and a second byte that
-- is not 0.
pub create_request-IsAcceptable :
    (conf : NetConf) (v : ℕ) (mac : List ℕ) (vsi : ℕ)
    → conf.vf_id ≡ pos v
    → v ≤ 4092
    → length mac ≤ 6
    → get_elem? mac 1 ≡ some vsi
    → 0 < vsi
    → IsAcceptable (create_request conf mac)
unfolding create_request
create_request-IsAcceptable conf v mac vsi e bound short second positive = record {
  spec = record {
    ptype = 1;
    mac_address = mac;
    logical_bridges = format (wrap64 (conf.vf_id +ℤ pos 2)) ∷ [];
  };
  given = refl;
  short = short;
  vsi = vsi;
  second = second;
  vsi_pos = positive;
  first = format (wrap64 (conf.vf_id +ℤ pos 2));
  bridged = refl;
  vlan = v + 2;
  parsed = vlan_text conf.vf_id v e (omega arith);
  vlan_low = omega arith;
  vlan_high = omega arith;
}

too_high : (v w : ℕ) → v + 2 ≡ w → w ≤ 4094 → 4092 < v → ⊥
too_high v w e h l = omega arith

same_number : (a b : ℕ) → ◌≡◌ {A = Option ℤ} (some (pos a)) (some (pos b)) → a ≡ b
same_number a b h = ground arith

-- The vlan of the request is the number of the virtual function and 2.
pub vlan-create_request :
    (conf : NetConf) (v : ℕ) (mac : List ℕ)
    → conf.vf_id ≡ pos v
    → v < 2 ^ 62
    → (fit : IsAcceptable (create_request conf mac)) → v + 2 ≡ fit.vlan
unfolding create_request first_number
vlan-create_request conf v mac e high fit =
    same_number (v + 2) fit.vlan
      (sym (vlan_text conf.vf_id v e high) ∙ first_number_of (create_request conf mac) fit)

-- The port that `cmdAdd` asks for is not acceptable to the bridge port service where the number
-- of the virtual function is above 4092 (and below 2 ^ 62).
pub create_request-refused :
    (conf : NetConf) (v : ℕ) (mac : List ℕ)
    → conf.vf_id ≡ pos v
    → 4092 < v
    → v < 2 ^ 62
    → ¬ IsAcceptable (create_request conf mac)
create_request-refused conf v mac e low high fit =
    let same = vlan-create_request conf v mac e high fit in
    let bound = fit.vlan_high in too_high v fit.vlan same bound low

-- Two configurations with the same master, and with 64-bit numbers of virtual functions, that
-- give the same name of a port have the same number.
pub port_name_injective :
    (conf other : NetConf)
    → IsInt64 conf.vf_id
    → IsInt64 other.vf_id
    → conf.master ≡ other.master
    → port_name conf ≡ port_name other
    → conf.vf_id ≡ other.vf_id
unfolding port_name
port_name_injective conf other fits fits' same e =
    let texts : format conf.vf_id ≡ format other.vf_id =
      append_cancel_left conf.master (format conf.vf_id) (format other.vf_id)
        (e ∙ ap (λ m. m <> format other.vf_id) (sym same)) in
    let numbers =
      sym (atoi-format conf.vf_id fits) ∙ ap atoi texts ∙ atoi-format other.vf_id fits' in
    ap (λ o. elim o as (λ _. ℤ) [ none ↦ conf.vf_id | some z ↦ z ]) numbers
