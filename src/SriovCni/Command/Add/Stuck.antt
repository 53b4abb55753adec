-- ===== src/SriovCni/Command/Add/Stuck.antt =====
-- `cmd_del` behind a `cmd_add` of a configuration with a MAC address.
use ipu_opi_plugins.Prelude.{
  ◌≡◌, ◌≢◌, refl, ap, ◌∙◌, subst, Bool, true, false, not, Option, none, some, String, Char, ◌==◌,
  string_eq, if◌then◌else◌, arith,
}
use Prim.Native.String.{◌∷◌ as ◌∷ˢ◌}
use ipu_opi_plugins.Outcome.{ok}
use ipu_opi_plugins.SriovCni.Types.{NetConf}
use ipu_opi_plugins.SriovCni.Host.{Host, FilePath}
use ipu_opi_plugins.SriovCni.Packets.{Sockets}
use ipu_opi_plugins.SriovCni.Allocator.Reserve.{KeepsFiles}
use ipu_opi_plugins.SriovCni.Config.{Json, CmdArgs, to_lower, load_conf, load_conf_from_cache}
use ipu_opi_plugins.SriovCni.Sriov.Restore.{reset_vf_config_stuck}
use ipu_opi_plugins.SriovCni.Command.{Remote, cmd_del}
use ipu_opi_plugins.SriovCni.Command.Released.{cmd_del_ok}
use ipu_opi_plugins.SriovCni.Command.Add.{Adding, prefer, prefer_env, choose_mac}
use ipu_opi_plugins.SriovCni.Command.Add.Deferred.{cmd_add}
use ipu_opi_plugins.SriovCni.Command.Add.Whole.{
  IsAdded, Prepared, in_user_space, moved, cmd_add-IsAdded,
}
use ipu_opi_plugins.SriovCni.Command.Add.Caching.{
  without_mode, ReadsBack, LeavesFiles, cached_conf, load_added,
}
use ipu_opi_plugins.SriovCni.Command.Add.Loaded.{loaded_same}

abbrev has_first : String → Bool
has_first String.[] = false
has_first (c ∷ˢ s) = true

cons-ne : (c : Char) (s : String) → c ∷ˢ s ≢ ""
cons-ne c s h = let e : ◌≡◌ {A = Bool} true false = ap has_first h in ground arith

to_lower-empty : (s : String) → to_lower s ≡ "" → s ≡ ""
unfolding to_lower
to_lower-empty String.[] h = refl
to_lower-empty (c ∷ˢ s) h = absurd (cons-ne _ _ h)

-- A configuration with a MAC address, and with the administrative address of another one.
abbrev HasMac : NetConf → NetConf → Type 0
HasMac conf conf' =
    (conf'.mac ≢ "") × (conf'.orig_vf_state.admin_mac ≡ conf.orig_vf_state.admin_mac)

prefer-HasMac :
    (mac : String) (first conf : NetConf) → HasMac first conf → HasMac first (prefer mac conf)
prefer-HasMac mac first conf h = by (mac == "") refl
  where
    by :
        (c : Bool)
        → (mac == "") ≡ c
        → HasMac first (if not c then record conf { mac = mac } else conf)
    by true e = h
    by false e = (ground arith, h.1)

prefer_env-HasMac :
    (env_mac : Option String) (conf : NetConf)
    → conf.mac ≢ ""
    → HasMac conf (prefer_env env_mac conf)
prefer_env-HasMac none conf h = (h, refl)
prefer_env-HasMac (some mac) conf h = prefer-HasMac mac conf conf (h, refl)

choose_mac-HasMac :
    (env_mac : Option String) (conf : NetConf)
    → conf.mac ≢ ""
    → HasMac conf (choose_mac env_mac conf)
unfolding choose_mac
choose_mac-HasMac env_mac conf h =
    let chosen = prefer conf.runtime_mac (prefer_env env_mac conf) in
    let (given, same) =
      prefer-HasMac conf.runtime_mac conf (prefer_env env_mac conf)
        (prefer_env-HasMac env_mac conf h) in
    (λ e. given (to_lower-empty chosen.mac e), same)

module _ {K : Type 0} (host : Host K) (json : Json) (remote : Remote K) (adding : Adding K)
    (sockets : Sockets K) (content : K → FilePath → Option String) (keeps : KeepsFiles host content)
    (reads : ReadsBack json) (args : CmdArgs) where
  Prepared-HasMac :
      (first conf conf' : NetConf)
      → Prepared host json remote adding sockets args conf conf'
      → HasMac first conf
      → HasMac first conf'
  Prepared-HasMac first conf conf' (in_user_space e) h = h
  Prepared-HasMac first conf conf' (moved link e) h = h

  -- The recorded configuration has a MAC address and the administrative address that was loaded.
  recorded-HasMac :
      (k k1 k' : K) (conf : NetConf)
      → load_conf host json args.stdin_data k ≡ (ok conf, k1)
      → conf.mac ≢ ""
      → (added : IsAdded host json remote adding sockets args k k') → HasMac conf added.runs.0
  recorded-HasMac k k1 k' conf loads given added =
      let same = loaded_same host json remote adding sockets args k k1 k' conf loads added in
      let (conf', prepared, _) = added.runs in
      Prepared-HasMac conf (choose_mac added.env_mac added.loaded) conf' prepared (
        subst (λ c. HasMac conf (choose_mac added.env_mac c)) same
          (choose_mac-HasMac added.env_mac conf given))

  -- Of files that keep what is written, of a JSON library that reads back what it wrote but for
  -- the mode, and of steps that leave files alone that they do not name: where `LoadConf` answers
  -- a configuration with a MAC address whose `AdminMAC` is a text that `net.ParseMAC` refuses (as
  -- the empty text that stands in it until `FillOriginalVfInfo` is called), and `cmdAdd` succeeds
  -- with it for a pod with a namespace path, `cmdDel` with the same arguments does not succeed in
  -- any state where the cached configuration is read as behind `cmdAdd`.
  pub cmd_del-cmd_add_stuck :
      (leaves : LeavesFiles host json remote adding sockets content keeps reads args)
      (conf : NetConf) (k k1 k' m k2 : K)
      → load_conf host json args.stdin_data k ≡ (ok conf, k1)
      → conf.mac ≢ ""
      → host.parse_mac conf.orig_vf_state.admin_mac ≡ none
      → args.netns ≢ ""
      → cmd_add host json remote adding sockets args k ≡ (ok tt, k')
      → load_conf_from_cache host json m args ≡ load_conf_from_cache host json k' args
      → cmd_del host json remote args m ≢ (ok tt, k2)
  cmd_del-cmd_add_stuck leaves conf k k1 k' m k2 loads given refused in_pod adds still deleted =
      let added = cmd_add-IsAdded host json remote adding sockets args k k' adds in
      let (has_mac, same) = recorded-HasMac k k1 k' conf loads given added in
      let cached =
        still
        ∙ load_added host json remote adding sockets content keeps reads args leaves k k' added in
      let ((j, j', resets), _, _) =
        cmd_del_ok host json remote args (without_mode added.runs.0)
          (cached_conf host json remote adding sockets content keeps reads args) m k2 in_pod cached
          deleted in
      reset_vf_config_stuck host (without_mode added.runs.0) j j' has_mac
        (ap host.parse_mac same ∙ refused) resets
