-- ===== src/SriovCni/Config/Bounds.antt =====
-- What a configuration satisfies that `load_conf` answers.
use ipu_opi_plugins.Prelude.{
  ℕ, ◌≤◌, ◌≡◌, refl, ◌⊎◌, false, not, ◌&&◌, ◌||◌, some, String, ◌==◌, string_eq, zero, suc, arith,
  some_of,
}
use ipu_opi_plugins.Prelude.Int.{ℤ, pos, negsuc, ltb_ℤ}
use ipu_opi_plugins.Outcome.{ok, ok_of}
use ipu_opi_plugins.SriovCni.Types.{NetConf, proto_8021q, proto_8021ad}
use ipu_opi_plugins.SriovCni.Host.{Host}
use ipu_opi_plugins.SriovCni.Allocator.{new_pci_allocator, is_allocated}
use ipu_opi_plugins.SriovCni.Config.{
  with_address, Json, or_default, is_zero, to_lower, check_settings, find_interface, get_vf_info,
  load_conf, settle, take_device, default_cni_dir,
}

-- A VLAN that the hardware can be given: the number, the priority and the protocol.
pub record IsVlan (vlan qos : ℤ) (proto : String) : Type 0 where
  pub number : (n : ℕ) × (vlan ≡ pos n) × (n ≤ 4094)
  pub priority : (q : ℕ) × (qos ≡ pos q) × (q ≤ 7)
  pub protocol : (proto ≡ "802.1q") ⊎ (proto ≡ "802.1ad")
  pub untagged : vlan ≡ pos 0 → (qos ≡ pos 0) × (proto ≡ "802.1q")

abbrev pub IsLinkState : String → Type 0
IsLinkState s = (s ≡ "") ⊎ ((s ≡ "auto") ⊎ ((s ≡ "enable") ⊎ (s ≡ "disable")))

-- The configuration is complete: its VLAN fields are set and describe a VLAN, and its link
-- state is one that `ApplyVFConfig` knows.
pub record IsComplete (n : NetConf) : Type 0 where
  pub vlan_id : ℤ
  pub qos : ℤ
  pub proto : String
  pub has_vlan : n.vlan ≡ some vlan_id
  pub has_qos : n.vlan_qos ≡ some qos
  pub has_proto : n.vlan_proto ≡ some proto
  pub is_vlan : IsVlan vlan_id qos proto
  pub is_link_state : IsLinkState n.link_state

in_range :
    (b : ℕ) (z : ℤ) → (ltb_ℤ z (pos 0) || ltb_ℤ (pos b) z) ≡ false → (n : ℕ) × (z ≡ pos n) × (n ≤ b)
in_range b (pos n) h = (n, refl, ground arith)
in_range b (negsuc n) h = ground arith

IsLinkState-of :
    (s : String)
    → (not (s == "") && not (s == "auto") && not (s == "enable") && not (s == "disable")) ≡ false
    → IsLinkState s
IsLinkState-of s h = ground arith

untagged_of :
    (vlan qos : ℤ) (proto : String)
    → vlan ≡ pos 0
    → (ltb_ℤ qos (pos 0) || ltb_ℤ (pos 7) qos) ≡ false
    → (not (is_zero qos) && is_zero vlan) ≡ false
    → (not (proto == proto_8021ad) && not (proto == proto_8021q)) ≡ false
    → (proto == proto_8021ad && is_zero vlan) ≡ false
    → (qos ≡ pos 0) × (proto ≡ "802.1q")
untagged_of (pos zero) (pos zero) proto e a b c d = (refl, ground arith)
untagged_of (pos zero) (pos (suc q)) proto e a b c d = ground arith
untagged_of (pos (suc v)) qos proto e a b c d = ground arith
untagged_of (pos zero) (negsuc q) proto e a b c d = ground arith
untagged_of (negsuc v) qos proto e a b c d = ground arith

check_settings-IsComplete : (n n' : NetConf) → check_settings n ≡ ok n' → IsComplete n'
unfolding check_settings
check_settings-IsComplete n n' h =
    let vlan = or_default (pos 0) n.vlan in
    let qos = or_default (pos 0) n.vlan_qos in
    let proto = to_lower (or_default proto_8021q n.vlan_proto) in
    record {
      vlan_id = vlan;
      qos = qos;
      proto = proto;
      has_vlan = ground arith;
      has_qos = ground arith;
      has_proto = ground arith;
      is_vlan = record {
        number = in_range 4094 vlan (ground arith);
        priority = in_range 7 qos (ground arith);
        protocol = ground arith;
        untagged = λ e.
            untagged_of vlan qos proto e (ground arith) (ground arith) (ground arith)
              (ground arith);
      };
      is_link_state = IsLinkState-of n'.link_state (ground arith);
    }

module _ {K : Type 0} (host : Host K) (json : Json) where
  settle-IsComplete :
      (n n' : NetConf) (k k' : K) → settle host json n k ≡ (ok n', k') → IsComplete n'
  unfolding settle
  settle-IsComplete n n' k k' h =
      let (n1, i) =
        ok_of (find_interface host json k n) (λ e f. ground arith) (λ f. ground arith) in
      check_settings-IsComplete n1 n' (ground arith)

  take_device-IsComplete :
      (n n' : NetConf) (k k' : K) → take_device host json n k ≡ (ok n', k') → IsComplete n'
  unfolding take_device
  take_device-IsComplete n n' k k' h =
      let (info, f) =
        ok_of (get_vf_info host json k n.device_id) (λ e f. ground arith) (λ f. ground arith) in
      let asked = is_allocated host (new_pci_allocator default_cni_dir) n.device_id k in
      settle-IsComplete (record n { master = info.0; vf_id = info.1 }) n' asked.1 k' (ground arith)

  -- A configuration that `LoadConf` answers has a VLAN number from 0 to 4094, a priority from 0
  -- to 7 and the protocol "802.1q" or "802.1ad"; with the VLAN number 0 it has the priority 0 and
  -- the protocol "802.1q"; and its link state is empty, "auto", "enable" or "disable".
  pub load_conf-IsComplete :
      (bytes : String) (n : NetConf) (k k' : K)
      → load_conf host json bytes k ≡ (ok n, k')
      → IsComplete n
  unfolding load_conf
  load_conf-IsComplete bytes n k k' h =
      let (n0, e) = some_of (json.unmarshal bytes) (λ e. ground arith) in
      take_device-IsComplete (with_address n0) n k k' (ground arith)
