-- ===== src/SriovCni/Sriov/Entry.antt =====
-- The parts of the entry of a virtual function that a configuration sets.
use ipu_opi_plugins.Prelude.{
  ℕ, Bool, not, ◌||◌, Option, none, some, String, List, if◌then◌else◌, ◌==◌, string_eq,
}
use ipu_opi_plugins.SriovCni.Types.{VfInfo, NetConf}
use ipu_opi_plugins.SriovCni.Sriov.{is_some, rate, link_state_number}
use ipu_opi_plugins.SriovCni.Sriov.Lawful.{as_uint32}

-- Whether a configuration sets a part of the entry.
abbrev pub sets : String → Bool
sets s = not (s == "")

abbrev pub sets_rates : NetConf → Bool
sets_rates conf = is_some conf.min_tx_rate || is_some conf.max_tx_rate

abbrev pub trust_number : Bool → ℕ
trust_number b = if b then 1 else 0

abbrev pub number_or : Option ℕ → ℕ → ℕ
number_or none n = n
number_or (some s) n = s

abbrev pub bytes_or : Option (List ℕ) → List ℕ → List ℕ
bytes_or none mac = mac
bytes_or (some hw) mac = hw

-- The entry that the configuration asks for, of an entry as it is.
abbrev pub configured : NetConf → Option (List ℕ) → VfInfo → VfInfo
configured conf hw w = record w {
  mac = if sets conf.mac then bytes_or hw w.mac else w.mac;
  min_tx_rate = if sets_rates conf then as_uint32 (rate conf.min_tx_rate) else w.min_tx_rate;
  max_tx_rate = if sets_rates conf then as_uint32 (rate conf.max_tx_rate) else w.max_tx_rate;
  spoofchk = if sets conf.spoof_chk then conf.spoof_chk == "on" else w.spoofchk;
  trust = if sets conf.trust then trust_number (conf.trust == "on") else w.trust;
  link_state =
      if sets conf.link_state
      then number_or (link_state_number conf.link_state) w.link_state
      else w.link_state;
}

-- The entry whose parts that the configuration sets are those of `v`.
abbrev pub restored : NetConf → VfInfo → VfInfo → VfInfo
restored conf v w = record w {
  mac = if sets conf.mac then v.mac else w.mac;
  min_tx_rate = if sets_rates conf then v.min_tx_rate else w.min_tx_rate;
  max_tx_rate = if sets_rates conf then v.max_tx_rate else w.max_tx_rate;
  spoofchk = if sets conf.spoof_chk then v.spoofchk else w.spoofchk;
  trust = if sets conf.trust then v.trust else w.trust;
  link_state = if sets conf.link_state then v.link_state else w.link_state;
}
