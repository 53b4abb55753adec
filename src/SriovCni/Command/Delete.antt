-- ===== src/SriovCni/Command/Delete.antt =====
-- `cmd_del` after a failure.
use ipu_opi_plugins.Prelude.{
  ◌∙◌, sym, ap, ◌≡◌, refl, ◌≢◌, true, false, Option, none, some, String, ◌==◌, string_eq, arith,
}
use ipu_opi_plugins.Prelude.Int.{ℤ}
use ipu_opi_plugins.Outcome.{ok, err, Action, wrapping, ◌>>◌}
use ipu_opi_plugins.SriovCni.Types.{NetConf}
use ipu_opi_plugins.SriovCni.Host.{read_failed, Host, FilePath, CniError}
use ipu_opi_plugins.SriovCni.Utils.{
  cache_path, get_vfid, clean_cached_net_conf, read_scratch_net_conf,
}
use ipu_opi_plugins.SriovCni.Allocator.Reserve.{KeepsFiles}
use ipu_opi_plugins.SriovCni.Config.{Json, CmdArgs, load_conf_from_cache, default_cni_dir}
use ipu_opi_plugins.SriovCni.Sriov.{reset_vf_config}
use ipu_opi_plugins.SriovCni.Command.{
  Remote, shadowed, release_and_give_back, check_and_release, reset_and_release, run_del,
  finish_del, cmd_del,
}

module _ {K : Type 0} (host : Host K) (content : K → FilePath → Option String)
    (keeps : KeepsFiles host content) (json : Json) (remote : Remote K) where
  abbrev pub cached : CmdArgs → FilePath
  cached args = cache_path host default_cni_dir args.container_id args.if_name

  stops :
      {D E A : Type 0} (f : D → E) (m : Action K D A) (next : Action K E A) (e : D) (k k1 : K)
      → m k ≡ (err e, k1)
      → (wrapping f m >> next) k ≡ (err (f e), k1)
  stops f m next e k k1 d = ground arith

  reset_fails :
      (args : CmdArgs) (conf : NetConf) (e : CniError) (k k1 : K)
      → reset_vf_config host conf k ≡ (err e, k1)
      → reset_and_release host json remote args conf k ≡ (err (shadowed e), k1)
  unfolding reset_and_release
  reset_fails args conf e k k1 d =
      stops shadowed (reset_vf_config host conf) (release_and_give_back host json remote args conf)
        e k k1 d

  check_fails :
      (args : CmdArgs) (conf : NetConf) (id : ℤ) (e : CniError) (k k1 : K)
      → get_vfid host k conf.device_id conf.master ≡ ok id
      → reset_vf_config host conf k ≡ (err e, k1)
      → check_and_release host json remote args conf k ≡ (err (shadowed e), k1)
  unfolding check_and_release
  check_fails args conf id e k k1 c d = let r = reset_fails args conf e k k1 d in ground arith

  is_empty : (s : String) → s ≡ "" → (s == "") ≡ true
  is_empty s h = ground arith

  not_empty : (s : String) → s ≢ "" → (s == "") ≡ false
  not_empty s h = ground arith

  run_del_reset :
      (args : CmdArgs) (conf : NetConf) (id : ℤ) (e : CniError) (k k1 : K)
      → conf.ipam_type ≡ ""
      → args.netns ≢ ""
      → get_vfid host k conf.device_id conf.master ≡ ok id
      → reset_vf_config host conf k ≡ (err e, k1)
      → run_del host json remote args conf k ≡ (err (shadowed e), k1)
  unfolding run_del
  run_del_reset args conf id e k k1 a b c d =
      rw (is_empty conf.ipam_type a, not_empty args.netns b, check_fails args conf id e k k1 c d)
        refl

  absent_cache :
      (args : CmdArgs) (k : K)
      → content k (cached args) ≡ none
      → load_conf_from_cache host json k args ≡ err read_failed
  unfolding load_conf_from_cache read_scratch_net_conf
  absent_cache args k h = let r = keeps.read_absent k _ h in ground arith

  cached_path :
      (args : CmdArgs) (conf : NetConf) (path : FilePath) (k : K)
      → load_conf_from_cache host json k args ≡ ok (conf, path)
      → path ≡ cached args
  unfolding load_conf_from_cache read_scratch_net_conf
  cached_path args conf path k h = ground arith

  -- Of files that keep what is written: where a configuration without an IPAM plugin is cached,
  -- the pod has a namespace path, the number of the virtual function is found, `ResetVFConfig`
  -- fails with an error and the cached file can then be removed, `cmdDel` answers that error and
  -- removes the cached file; called again with the same arguments it succeeds and does nothing.
  pub cmd_del-cmd_del :
      (args : CmdArgs) (input conf : NetConf) (path : FilePath) (id : ℤ) (e : CniError)
      (k k1 k2 : K)
      → json.unmarshal args.stdin_data ≡ some input
      → load_conf_from_cache host json k args ≡ ok (conf, path)
      → conf.ipam_type ≡ ""
      → args.netns ≢ ""
      → get_vfid host k conf.device_id conf.master ≡ ok id
      → reset_vf_config host conf k ≡ (err e, k1)
      → host.remove path k1 ≡ (true, k2)
      → (cmd_del host json remote args k ≡ (err e, k2))
        × (cmd_del host json remote args k2 ≡ (ok tt, k2))
  unfolding cmd_del finish_del clean_cached_net_conf
  cmd_del-cmd_del args input conf path id e k k1 k2 parsed loaded no_ipam in_pod found failed
        removed =
      let ran = run_del_reset args conf id e k k1 no_ipam in_pod found failed in
      let same = cached_path args conf path k loaded in
      let gone =
        absent_cache args k2
          (ap (content k2) (sym same) ∙ keeps.absence.remove_leaves path k1 k2 removed) in
      (ground arith, ground arith)
