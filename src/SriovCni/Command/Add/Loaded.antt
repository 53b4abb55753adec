-- ===== src/SriovCni/Command/Add/Loaded.antt =====
-- What becomes of the configuration that `load_conf` answered.
use ipu_opi_plugins.Prelude.{
  not, ◌≡◌, ◌≢◌, refl, sym, ap, ◌∙◌, true, false, Bool, Option, none, some, String, arith, not,
  ◌==◌, string_eq, if◌then◌else◌,
}
use ipu_opi_plugins.Outcome.{Outcome, ok, err, panic}
use ipu_opi_plugins.SriovCni.Types.{NetConf}
use ipu_opi_plugins.SriovCni.Host.{Host}
use ipu_opi_plugins.SriovCni.Packets.{Sockets}
use ipu_opi_plugins.SriovCni.Config.{Json, CmdArgs, load_conf}
use ipu_opi_plugins.SriovCni.Command.{CniError, Remote}
use ipu_opi_plugins.SriovCni.Command.Add.{prefer, Adding, choose_mac}
use ipu_opi_plugins.SriovCni.Command.Add.Deferred.{cmd_add}
use ipu_opi_plugins.SriovCni.Command.Add.Whole.{
  IsAdded, Prepared, in_user_space, moved, cmd_add-IsAdded,
}

module _ {K : Type 0} (host : Host K) (json : Json) (remote : Remote K) (adding : Adding K)
    (sockets : Sockets K) (args : CmdArgs) where
  -- The choice of the MAC address changes neither the mode, the interface's address nor the device.
  abbrev pub Keeps : NetConf → NetConf → Type 0
  Keeps conf conf' =
      (conf'.dpdk_mode ≡ conf.dpdk_mode)
      × (conf'.orig_vf_state.effective_mac ≡ conf.orig_vf_state.effective_mac)
      × (conf'.device_id ≡ conf.device_id)

  loaded_of : NetConf → Outcome CniError NetConf → NetConf
  loaded_of conf (ok n) = n
  loaded_of conf (err e) = conf
  loaded_of conf panic = conf

  none-ne-some : {A : Type 0} {a : A} → ◌≡◌ {A = Option A} none (some a) → ⊥
  none-ne-some h = ground arith

  empty_stays :
      (conf conf' : NetConf)
      → Prepared host json remote adding sockets args conf conf'
      → conf.dpdk_mode ≡ true
      → conf'.orig_vf_state.effective_mac ≡ conf.orig_vf_state.effective_mac
  empty_stays conf conf' (in_user_space e) mode = refl
  empty_stays conf conf' (moved link e) mode = absurd (ground arith)

  prefer-Keeps :
      (c : Bool) (mac : String) (conf : NetConf)
      → Keeps conf (if c then record conf { mac = mac } else conf)
  prefer-Keeps true mac conf = (refl, refl, refl)
  prefer-Keeps false mac conf = (refl, refl, refl)

  choose_mac-Keeps :
      (env_mac : Option String) (conf : NetConf) → Keeps conf (choose_mac env_mac conf)
  unfolding choose_mac
  choose_mac-Keeps none conf = prefer-Keeps (not (conf.runtime_mac == "")) conf.runtime_mac conf
  choose_mac-Keeps (some mac) conf =
      let first = prefer-Keeps (not (mac == "")) mac conf in
      let second = prefer-Keeps (not (conf.runtime_mac == "")) conf.runtime_mac (prefer mac conf) in
      (second.0 ∙ first.0, second.1 ∙ first.1, second.2 ∙ first.2)

  Prepared-device :
      (conf conf' : NetConf)
      → Prepared host json remote adding sockets args conf conf'
      → conf'.device_id ≡ conf.device_id
  Prepared-device conf conf' (in_user_space e) = refl
  Prepared-device conf conf' (moved link e) = refl

  -- The configuration that `LoadConf` answered is the one that the command went on with.
  pub loaded_same :
      (k k1 k' : K) (conf : NetConf)
      → load_conf host json args.stdin_data k ≡ (ok conf, k1)
      → (added : IsAdded host json remote adding sockets args k k') → conf ≡ added.loaded
  unfolding loaded_of
  loaded_same k k1 k' conf loads added = ap (λ q. loaded_of conf q.0) (sym loads ∙ added.loads)

  -- The device that is recorded is that of the configuration.
  pub recorded_device :
      (k k1 k' : K) (conf : NetConf)
      → load_conf host json args.stdin_data k ≡ (ok conf, k1)
      → (added : IsAdded host json remote adding sockets args k k')
      → added.runs.0.device_id ≡ conf.device_id
  recorded_device k k1 k' conf loads added =
      let (conf', prepared, _) = added.runs in
      Prepared-device (choose_mac added.env_mac added.loaded) conf' prepared
      ∙ (choose_mac-Keeps added.env_mac added.loaded).2
      ∙ ap (λ c. c.device_id) (sym (loaded_same k k1 k' conf loads added))

  -- Where `LoadConf` answers a configuration in the mode for user space whose `EffectiveMAC` is a
  -- text that `net.ParseMAC` refuses, `cmdAdd` does not succeed.
  pub cmd_add_user_space :
      (k k1 k' : K) (conf : NetConf)
      → load_conf host json args.stdin_data k ≡ (ok conf, k1)
      → conf.dpdk_mode ≡ true
      → host.parse_mac conf.orig_vf_state.effective_mac ≡ none
      → cmd_add host json remote adding sockets args k ≢ (ok tt, k')
  cmd_add_user_space k k1 k' conf loads mode bad h =
      let added = cmd_add-IsAdded host json remote adding sockets args k k' h in
      let same = loaded_same k k1 k' conf loads added in
      let (conf', prepared, r) = added.runs in
      let (same_mode, same_mac, _) = choose_mac-Keeps added.env_mac added.loaded in
      let stays =
        empty_stays (choose_mac added.env_mac added.loaded) conf' prepared
          (same_mode ∙ ap (λ c. c.dpdk_mode) (sym same) ∙ mode) in
      none-ne-some (
        sym bad
        ∙ ap (λ c. host.parse_mac c.orig_vf_state.effective_mac) same
        ∙ ap host.parse_mac (sym (stays ∙ same_mac))
        ∙ r.parses)
