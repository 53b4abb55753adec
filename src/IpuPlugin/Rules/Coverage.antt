-- ===== src/IpuPlugin/Rules/Coverage.antt =====
-- The deletion rules of a port against its addition rules.
use ipu_opi_plugins.Prelude.{
  ℕ, ◌≤◌, ◌≡◌, refl, inl, inr, ◌++◌, some, String, List, length, get_elem?, arith, All, Any,
  All-append, All-map, Any-append_left, Any-append_right, get_elem?_total, le→ltb,
}
use ipu_opi_plugins.Prelude.Int.{ℤ}
use ipu_opi_plugins.Outcome.{ok}
use ipu_opi_plugins.IpuPlugin.Bridge.{BridgeType, ovs_bridge, linux_bridge}
use ipu_opi_plugins.IpuPlugin.Rules.{
  P4rtClient, RuleParams, add_entry, del_entry, add_port_rules, del_port_rules, add_mac_rules,
  del_mac_rules, guarded, get_add_rule_sets, get_del_rule_sets,
}

-- `d` deletes the entry that `a` adds: the same table of the same bridge, and the same key.
abbrev pub Undoes : RuleParams → RuleParams → Type 0
Undoes d a =
    (br table key action : String) × (a ≡ add_entry br table key action)
    × (d ≡ del_entry br table key)

-- Every rule of the one list has its counterpart in the other, and the other way round.
abbrev pub Match : List RuleParams → List RuleParams → Type 0
Match dels adds =
    All (λ a. Any (λ d. Undoes d a) dels) adds × All (λ d. Any (λ a. Undoes d a) adds) dels

Match-append :
    (ds es xs ys : List RuleParams) → Match ds xs → Match es ys → Match (ds ++ es) (xs ++ ys)
Match-append ds es xs ys h k = (
  All-append _ xs ys (All-map xs (λ x. Any-append_left _ ds es) h.0)
      (All-map ys (λ y. Any-append_right _ ds es) k.0),
  All-append _ ds es (All-map ds (λ d. Any-append_left _ xs ys) h.1)
      (All-map es (λ e. Any-append_right _ xs ys) k.1),
)

undoes :
    (br table key action : String) → Undoes (del_entry br table key) (add_entry br table key action)
undoes br table key action = (br, table, key, action, refl, refl)

-- Behind the guards the rules are those of the second octet.
guarded_ok :
    (rules : ℕ → List RuleParams) (mac : List ℕ) (vsi : ℕ)
    → 2 ≤ length mac
    → length mac ≤ 6
    → get_elem? mac 1 ≡ some vsi
    → guarded rules mac ≡ ok (rules vsi)
unfolding guarded
guarded_ok rules mac vsi low high second =
    rw (second, le→ltb (length mac) 1 (omega arith), le→ltb 6 (length mac) high)

module _ (p : P4rtClient) where
  port_rules-Match :
      (vsi : ℕ) (vlan : ℤ) → Match (del_port_rules p vsi vlan) (add_port_rules p vsi vlan)
  unfolding del_port_rules add_port_rules
  port_rules-Match vsi vlan = (
    (
      inl (undoes _ _ _ _),
      (
        inl (undoes _ _ _ _),
        (
          inr (inl (undoes _ _ _ _)),
          (
            inr (inr (inl (undoes _ _ _ _))),
            (
              inr (inr (inr (inl (undoes _ _ _ _)))),
              (
                inr (inr (inr (inr (inl (undoes _ _ _ _))))),
                (
                  inr (
                      inr
                        (inr (inr (inr (inl (undoes _ _ _ "linux_networking_control.vlan_pop")))))),
                  tt,
                ),
              ),
            ),
          ),
        ),
      ),
    ),
    (
      inl (undoes _ _ _ _),
      (
        inr (inr (inl (undoes _ _ _ _))),
        (
          inr (inr (inr (inl (undoes _ _ _ _)))),
          (
            inr (inr (inr (inr (inl (undoes _ _ _ _))))),
            (
              inr (inr (inr (inr (inr (inl (undoes _ _ _ _)))))),
              (
                inr (
                    inr (
                      inr (
                        inr (inr (inr (inl (undoes _ _ _ "linux_networking_control.vlan_pop"))))))),
                tt,
              ),
            ),
          ),
        ),
      ),
    ),
  )

  mac_rules-Match :
      (b : BridgeType) (mac : List ℕ) (vsi : ℕ)
      → Match (del_mac_rules p b mac) (add_mac_rules p b mac vsi)
  unfolding del_mac_rules add_mac_rules
  mac_rules-Match ovs_bridge mac vsi = (tt, tt)
  mac_rules-Match linux_bridge mac vsi = (
    (inl (undoes _ _ _ _), (inr (inl (undoes _ _ _ _)), tt)),
    (inl (undoes _ _ _ _), (inr (inl (undoes _ _ _ _)), tt)),
  )

  -- For an address of 2 to 6 bytes and any vlan, both rule sets exist; every entry that is added
  -- has a rule that deletes the same key of the same table of the same bridge, and every rule
  -- that deletes is the counterpart of one that adds.
  pub rule_sets-Match :
      (mac : List ℕ) (vlan : ℤ)
      → 2 ≤ length mac
      → length mac ≤ 6
      → (adds dels : List RuleParams) × (get_add_rule_sets p mac vlan ≡ ok adds)
        × (get_del_rule_sets p mac vlan ≡ ok dels)
        × Match dels adds
  unfolding get_add_rule_sets get_del_rule_sets
  rule_sets-Match mac vlan low high =
      let (vsi, second) = get_elem?_total mac 1 low in
      (
        add_port_rules p vsi vlan ++ add_mac_rules p p.bridge_type mac vsi,
        del_port_rules p vsi vlan ++ del_mac_rules p p.bridge_type mac,
        guarded_ok _ mac vsi low high second,
        guarded_ok _ mac vsi low high second,
        Match-append (del_port_rules p vsi vlan) _ (add_port_rules p vsi vlan) _
            (port_rules-Match vsi vlan) (mac_rules-Match p.bridge_type mac vsi),
      )
