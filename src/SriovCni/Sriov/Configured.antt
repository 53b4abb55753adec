-- ===== src/SriovCni/Sriov/Configured.antt =====
-- What `ApplyVFConfig` and `ResetVFConfig` make of the entry of a virtual function.
use ipu_opi_plugins.Prelude.{
  ℕ, ◌≡◌, refl, ◌∙◌, subst, Bool, true, Option, none, some, String, List, if◌then◌else◌, ◌==◌,
  string_eq, nat_eq,
}
use ipu_opi_plugins.Prelude.Int.{ℤ}
use ipu_opi_plugins.Outcome.{attempt, or_throw, ◌>>=◌, ◌>>◌}
use ipu_opi_plugins.SriovCni.Types.{VfInfo, NetConf}
use ipu_opi_plugins.SriovCni.Host.{lookup_failed, set_failed, unknown_link_state, Host, VfLink}
use ipu_opi_plugins.SriovCni.Utils.{Cni, set_vf_hardware_mac}
use ipu_opi_plugins.SriovCni.Sriov.{get_vf_info, when, rate, link_state_number, apply_vf_config}
use ipu_opi_plugins.SriovCni.Sriov.Lawful.{IsLawful, with_entry, as_uint32}
use ipu_opi_plugins.SriovCni.Sriov.Steps.{Takes-guarded, Takes, Takes-bind, Takes-named, Takes-when}
use ipu_opi_plugins.SriovCni.Sriov.Addresses.{with_mac, with_parsed, Takes-address}
use ipu_opi_plugins.SriovCni.Sriov.Entry.{
  sets, sets_rates, trust_number, number_or, bytes_or, configured, restored,
}

module _ {K : Type 0} (host : Host K) (conf : NetConf) (lawful : IsLawful host conf.master)
    (l : VfLink) (v : VfInfo) (found : get_vf_info l.vfs conf.vf_id ≡ some v) where
  -- The entry is that of the virtual function, and differs from `v` in what the configuration sets.
  abbrev pub Differs : VfInfo → Type 0
  Differs w = (w.id ≡ conf.vf_id) × (restored conf v w ≡ v)

  abbrev pub Step : VfInfo → Cni host (Unit {0}) → VfInfo → Type 0
  Step a m b = Takes host conf.master l conf.vf_id v found Differs a m b

  abbrev pub mac_step : String → Cni host (Unit {0})
  mac_step mac = when host (sets conf.mac) (set_vf_hardware_mac host conf.master conf.vf_id mac)

  abbrev pub rate_step : VfLink → ℤ → ℤ → Cni host (Unit {0})
  rate_step now low high =
      when host (sets_rates conf)
        (attempt (host.link_set_vf_rate now conf.vf_id low high) set_failed)

  abbrev pub spoofchk_step : VfLink → Bool → Cni host (Unit {0})
  spoofchk_step now b =
      when host (sets conf.spoof_chk)
        (attempt (host.link_set_vf_spoofchk now conf.vf_id b) set_failed)

  abbrev pub trust_step : VfLink → Bool → Cni host (Unit {0})
  trust_step now b =
      when host (sets conf.trust) (attempt (host.link_set_vf_trust now conf.vf_id b) set_failed)

  abbrev pub state_step : VfLink → ℕ → Cni host (Unit {0})
  state_step now s =
      when host (sets conf.link_state)
        (attempt (host.link_set_vf_state now conf.vf_id s) set_failed)

  abbrev pub after_mac : Option (List ℕ) → VfInfo → VfInfo
  after_mac hw w = record w { mac = if sets conf.mac then bytes_or hw w.mac else w.mac }

  parsed-bytes :
      (hw : Option (List ℕ)) (w : VfInfo) → with_parsed hw w ≡ with_mac (bytes_or hw w.mac) w
  parsed-bytes none w = refl
  parsed-bytes (some hw) w = refl

  mac_mends :
      (w : VfInfo) (hw : List ℕ)
      → sets conf.mac ≡ true
      → restored conf v (with_mac hw w) ≡ restored conf v w
  mac_mends w hw c = rw c

  pub mac-Step :
      (mac : String) (a : VfInfo)
      → a.id ≡ conf.vf_id
      → Step a (mac_step mac) (after_mac (host.parse_mac mac) a)
  mac-Step mac a e =
      Takes-when host conf.master l conf.vf_id v found Differs (sets conf.mac) a
        (after_mac (host.parse_mac mac) a) (set_vf_hardware_mac host conf.master conf.vf_id mac)
        (λ c.
          subst (Step a (set_vf_hardware_mac host conf.master conf.vf_id mac)) (parsed c) (λ k h.
            Takes-address host conf.master lawful l conf.vf_id v found Differs a e mac
              (λ hw (i : Differs a). (i.0, mac_mends a hw c ∙ i.1)) k h))
        (λ c. rw c)
    where
      parsed :
          (c : sets conf.mac ≡ true)
          → with_parsed (host.parse_mac mac) a ≡ after_mac (host.parse_mac mac) a
      parsed c = parsed-bytes (host.parse_mac mac) a ∙ rw c

  abbrev pub after_rate : ℤ → ℤ → VfInfo → VfInfo
  after_rate low high w = record w {
    min_tx_rate = if sets_rates conf then as_uint32 low else w.min_tx_rate;
    max_tx_rate = if sets_rates conf then as_uint32 high else w.max_tx_rate;
  }

  pub rate-Step :
      (now : VfLink) (low high : ℤ) (a : VfInfo)
      → now.index ≡ l.index
      → a.id ≡ conf.vf_id
      → Step a (rate_step now low high) (after_rate low high a)
  rate-Step now low high a same i =
      Takes-guarded host conf.master l conf.vf_id v found Differs (sets_rates conf) now
        (λ w. record w { min_tx_rate = as_uint32 low; max_tx_rate = as_uint32 high })
        (host.link_set_vf_rate now conf.vf_id low high) set_failed a (after_rate low high a)
        (lawful.sets_rate now conf.vf_id low high) same i (λ c j. (j.0, mends c ∙ j.1)) (λ c. rw c)
        (λ c. rw c)
    where
      mends :
          sets_rates conf ≡ true
          → restored conf v (record a { min_tx_rate = as_uint32 low; max_tx_rate = as_uint32 high })
            ≡ restored conf v a
      mends c = rw c

  abbrev pub after_spoofchk : Bool → VfInfo → VfInfo
  after_spoofchk b w = record w { spoofchk = if sets conf.spoof_chk then b else w.spoofchk }

  pub spoofchk-Step :
      (now : VfLink) (b : Bool) (a : VfInfo)
      → now.index ≡ l.index
      → a.id ≡ conf.vf_id
      → Step a (spoofchk_step now b) (after_spoofchk b a)
  spoofchk-Step now b a same i =
      Takes-guarded host conf.master l conf.vf_id v found Differs (sets conf.spoof_chk) now
        (λ w. record w { spoofchk = b }) (host.link_set_vf_spoofchk now conf.vf_id b) set_failed a
        (after_spoofchk b a) (lawful.sets_spoofchk now conf.vf_id b) same i
        (λ c j. (j.0, mends c ∙ j.1)) (λ c. rw c) (λ c. rw c)
    where
      mends :
          sets conf.spoof_chk ≡ true
          → restored conf v (record a { spoofchk = b }) ≡ restored conf v a
      mends c = rw c

  abbrev pub after_trust : Bool → VfInfo → VfInfo
  after_trust b w = record w { trust = if sets conf.trust then trust_number b else w.trust }

  pub trust-Step :
      (now : VfLink) (b : Bool) (a : VfInfo)
      → now.index ≡ l.index
      → a.id ≡ conf.vf_id
      → Step a (trust_step now b) (after_trust b a)
  trust-Step now b a same i =
      Takes-guarded host conf.master l conf.vf_id v found Differs (sets conf.trust) now
        (λ w. record w { trust = trust_number b }) (host.link_set_vf_trust now conf.vf_id b)
        set_failed a (after_trust b a) (lawful.sets_trust now conf.vf_id b) same i
        (λ c j. (j.0, mends c ∙ j.1)) (λ c. rw c) (λ c. rw c)
    where
      mends :
          sets conf.trust ≡ true
          → restored conf v (record a { trust = trust_number b }) ≡ restored conf v a
      mends c = rw c

  abbrev pub after_state : Option ℕ → VfInfo → VfInfo
  after_state s w = record w {
    link_state = if sets conf.link_state then number_or s w.link_state else w.link_state;
  }

  pub state-Step :
      (now : VfLink) (s : ℕ) (a : VfInfo)
      → now.index ≡ l.index
      → a.id ≡ conf.vf_id
      → Step a (state_step now s) (after_state (some s) a)
  state-Step now s a same i =
      Takes-guarded host conf.master l conf.vf_id v found Differs (sets conf.link_state) now
        (λ w. record w { link_state = s }) (host.link_set_vf_state now conf.vf_id s) set_failed a
        (after_state (some s) a) (lawful.sets_state now conf.vf_id s) same i
        (λ c j. (j.0, mends c ∙ j.1)) (λ c. rw c) (λ c. rw c)
    where
      mends :
          sets conf.link_state ≡ true
          → restored conf v (record a { link_state = s }) ≡ restored conf v a
      mends c = rw c

  -- The step of `ApplyVFConfig`, where the text may name no state.
  abbrev set_state : VfLink → Option ℕ → Cni host (Unit {0})
  set_state now number = do
    state ← or_throw number unknown_link_state
    attempt (host.link_set_vf_state now conf.vf_id state) set_failed

  pub named_state-Step :
      (now : VfLink) (o : Option ℕ) (a : VfInfo)
      → now.index ≡ l.index
      → a.id ≡ conf.vf_id
      → Step a (when host (sets conf.link_state) (set_state now o)) (after_state o a)
  named_state-Step now none a same i =
      Takes-when host conf.master l conf.vf_id v found Differs (sets conf.link_state) a
        (after_state none a) (set_state now none) (λ c k h. (a, h)) (λ c. rw c)
  named_state-Step now (some s) a same i = state-Step now s a same i

  abbrev named_state_step : VfLink → Cni host (Unit {0})
  named_state_step now =
      when host (sets conf.link_state) (set_state now (link_state_number conf.link_state))

  module _ (own : v.id ≡ conf.vf_id) where
    bind :
        (a b c : VfInfo) (m n : Cni host (Unit {0})) → Step a m b → Step b n c → Step a (m >> n) c
    bind a b c m n s t = Takes-bind host conf.master l conf.vf_id v found Differs a b c m n s t

    pub apply-Step :
        Step v (apply_vf_config host conf) (configured conf (host.parse_mac conf.mac) v)
    unfolding apply_vf_config
    apply-Step =
        let a1 = after_mac (host.parse_mac conf.mac) v in
        let a2 = after_rate (rate conf.min_tx_rate) (rate conf.max_tx_rate) a1 in
        let a3 = after_spoofchk (conf.spoof_chk == "on") a2 in
        let a4 = after_trust (conf.trust == "on") a3 in
        let a5 = after_state (link_state_number conf.link_state) a4 in
        let m1 = mac_step conf.mac in
        let m2 = λ (now : VfLink). rate_step now (rate conf.min_tx_rate) (rate conf.max_tx_rate) in
        let m3 = λ (now : VfLink). spoofchk_step now (conf.spoof_chk == "on") in
        let m4 = λ (now : VfLink). trust_step now (conf.trust == "on") in
        let m5 = named_state_step in
        let now = with_entry host conf.master l conf.vf_id v found v in
        Takes-named host conf.master l conf.vf_id v found Differs lookup_failed v a5
          (λ pf. m1 >> (m2 pf >> (m3 pf >> (m4 pf >> m5 pf))))
          (bind v a1 a5 m1 (m2 now >> (m3 now >> (m4 now >> m5 now))) (mac-Step conf.mac v own) (
            bind a1 a2 a5 (m2 now) (m3 now >> (m4 now >> m5 now))
              (rate-Step now (rate conf.min_tx_rate) (rate conf.max_tx_rate) a1 refl own)
              (bind a2 a3 a5 (m3 now) (m4 now >> m5 now)
                (spoofchk-Step now (conf.spoof_chk == "on") a2 refl own)
                (bind a3 a4 a5 (m4 now) (m5 now) (trust-Step now (conf.trust == "on") a3 refl own)
                  (named_state-Step now (link_state_number conf.link_state) a4 refl own)))))
