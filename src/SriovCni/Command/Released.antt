-- ===== src/SriovCni/Command/Released.antt =====
-- What a `cmd_del` that succeeded did.
use ipu_opi_plugins.Prelude.{
  ◌≡◌, ◌≢◌, ◌⊎◌, inl, inr, refl, sym, ap, subst, Bool, true, false, not, Option, none, some, String,
  ◌==◌, string_eq, if◌then◌else◌, arith,
}
use ipu_opi_plugins.Prelude.Int.{ℤ}
use ipu_opi_plugins.Outcome.{
  Outcome, ok, err, panic, Action, wrapping, attempt, gets, throw_if, ◌>>=◌, ◌>>◌,
}
use ipu_opi_plugins.Outcome.Success.{
  err-ne-ok, panic-ne-ok, bind_ok, wrapping_ok, attempt_ok, throw_if_ok,
}
use ipu_opi_plugins.SriovCni.Types.{NetConf}
use ipu_opi_plugins.SriovCni.Host.{
  Host, FilePath, CniError, NsResult, opened, ns_not_exist, ns_failed, rpc_failed, dial_failed,
}
use ipu_opi_plugins.SriovCni.Utils.{get_vfid, clean_cached_net_conf}
use ipu_opi_plugins.SriovCni.Allocator.{new_pci_allocator, delete_allocated_pci}
use ipu_opi_plugins.SriovCni.Config.{Json, CmdArgs, load_conf_from_cache, default_cni_dir}
use ipu_opi_plugins.SriovCni.Sriov.{release_vf, reset_vf_config}
use ipu_opi_plugins.SriovCni.Command.{
  ipam_failed, unless, Remote, Failure, kept, shadowed, port_name, give_back, release_from,
  release_and_give_back, check_and_release, reset_and_release, run_del, finish_del, cmd_del,
}

module _ {K : Type 0} (host : Host K) (json : Json) (remote : Remote K) (args : CmdArgs)
    (conf : NetConf) where
  -- The device is no longer marked, and the service has deleted the port.
  pub record GaveBack (k' : K) : Type 0 where
    pub before : K
    pub unlocked : K
    pub unlocks :
        delete_allocated_pci host (new_pci_allocator default_cni_dir) conf.device_id before
        ≡ (ok tt, unlocked)
    pub deletes :
        remote.delete_bridge_port conf.dpu_daemon_address (port_name conf) unlocked ≡ (true, k')

  -- The pod's namespace was gone, or everything was given back.
  abbrev pub Ended : K → Type 0
  Ended k' = (host.get_ns k' args.netns ≡ ns_not_exist) ⊎ GaveBack k'

  -- The virtual function was reset with success on the way.
  abbrev pub Resets : Type 0
  Resets = (k1 : K) × (k2 : K) × (reset_vf_config host conf k1 ≡ (ok tt, k2))

  give_back_ok : (k k' : K) → give_back host json remote conf k ≡ (ok tt, k') → GaveBack k'
  unfolding give_back
  give_back_ok k k' h =
      let unlock = delete_allocated_pci host (new_pci_allocator default_cni_dir) conf.device_id in
      let delete =
        attempt (remote.delete_bridge_port conf.dpu_daemon_address (port_name conf))
          (kept rpc_failed) in
      let dialed = gets (λ k. remote.dial k conf.dpu_daemon_address) in
      let (_, k1, first, rest) =
        bind_ok (wrapping kept unlock)
          (λ _. dialed >>= λ d. throw_if (not d) (kept dial_failed) >> delete) k k' tt h in
      let (_, last) =
        throw_if_ok (not (remote.dial k1 conf.dpu_daemon_address)) (kept dial_failed) delete k1 k'
          tt rest in
      record {
        before = k;
        unlocked = k1;
        unlocks = wrapping_ok kept unlock k k1 tt first;
        deletes =
            attempt_ok (remote.delete_bridge_port conf.dpu_daemon_address (port_name conf))
              (kept rpc_failed) k1 k' tt last;
      }

  release_from_ok :
      (ns : NsResult) (k k' : K)
      → host.get_ns k args.netns ≡ ns
      → release_from host json remote ns args conf k ≡ (ok tt, k')
      → Ended k'
  unfolding release_from
  release_from_ok ns_not_exist k k' e h =
      inl (subst (λ j. host.get_ns j args.netns ≡ ns_not_exist) (ap (λ q. q.1) h) e)
  release_from_ok ns_failed k k' e h = absurd (err-ne-ok (ap (λ q. q.0) h))
  release_from_ok (opened fd) k k' e h =
      let (_, k1, _, rest) =
        bind_ok (wrapping shadowed (release_vf host conf args.if_name fd))
          (λ _. give_back host json remote conf) k k' tt h in
      inr (give_back_ok k1 k' rest)

  release_by :
      (mode : Bool) (k k' : K)
      → (if mode
            then give_back host json remote conf
            else release_from host json remote (host.get_ns k args.netns) args conf)
          k
        ≡ (ok tt, k')
      → Ended k'
  release_by true k k' h = inr (give_back_ok k k' h)
  release_by false k k' h = release_from_ok (host.get_ns k args.netns) k k' refl h

  reset_and_release_ok :
      (k k' : K) → reset_and_release host json remote args conf k ≡ (ok tt, k') → Resets × Ended k'
  unfolding reset_and_release release_and_give_back
  reset_and_release_ok k k' h =
      let (u, k1, reset, rest) =
        bind_ok (wrapping shadowed (reset_vf_config host conf))
          (λ _. release_and_give_back host json remote args conf) k k' tt h in
      (
        (k, k1, wrapping_ok shadowed (reset_vf_config host conf) k k1 tt reset),
        release_by conf.dpdk_mode k1 k' rest,
      )

  check_by :
      (o : Outcome CniError ℤ) (k k' : K)
      → get_vfid host k conf.device_id conf.master ≡ o
      → check_and_release host json remote args conf k ≡ (ok tt, k')
      → Resets × Ended k'
  unfolding check_and_release
  check_by (ok id) k k' e h = reset_and_release_ok k k' (rw (check_and_release, e) at h)
  check_by (err d) k k' e h = absurd (err-ne-ok (ap (λ q. q.0) (rw (check_and_release, e) at h)))
  check_by panic k k' e h = absurd (panic-ne-ok (ap (λ q. q.0) (rw (check_and_release, e) at h)))

  -- `unless` the path is empty.
  in_pod_by :
      (c : Bool) (k k' : K)
      → c ≡ false
      → (if c then (ok tt, k) else check_and_release host json remote args conf k) ≡ (ok tt, k')
      → Resets × Ended k'
  in_pod_by true k k' e h = absurd (ground arith)
  in_pod_by false k k' e h = check_by (get_vfid host k conf.device_id conf.master) k k' refl h

  run_del_ok :
      (k k' : K)
      → (args.netns == "") ≡ false
      → run_del host json remote args conf k ≡ (ok tt, k')
      → Resets × Ended k'
  unfolding run_del
  run_del_ok k k' in_pod h =
      let ipam : Action K Failure (Unit {0}) =
        unless host json remote (conf.ipam_type == "")
          (attempt (remote.exec_del conf.ipam_type args.stdin_data) (kept ipam_failed)) in
      let (_, k1, _, rest) =
        bind_ok ipam
          (λ _.
            unless host json remote (args.netns == "")
              (check_and_release host json remote args conf))
          k k' tt h in
      in_pod_by (args.netns == "") k1 k' in_pod rest

  not_empty : (s : String) → s ≢ "" → (s == "") ≡ false
  not_empty s h = ground arith

  finish_del_ok :
      (path : FilePath) (q : Outcome Failure (Unit {0}) × K) (k' : K)
      → finish_del host json remote path q ≡ (ok tt, k')
      → (q ≡ (ok tt, q.1)) × (k' ≡ (clean_cached_net_conf host path q.1).1)
  unfolding finish_del
  finish_del_ok path (ok tt, k) k' h = (refl, sym (ap (λ q. q.1) h))
  finish_del_ok path (err (kept e), k) k' h = absurd (err-ne-ok (ap (λ q. q.0) h))
  finish_del_ok path (err (shadowed e), k) k' h = absurd (err-ne-ok (ap (λ q. q.0) h))
  finish_del_ok path (panic, k) k' h = absurd (panic-ne-ok (ap (λ q. q.0) h))

  parsed_by :
      (o : Option NetConf) (path : FilePath) (k k' : K)
      → json.unmarshal args.stdin_data ≡ o
      → load_conf_from_cache host json k args ≡ ok (conf, path)
      → cmd_del host json remote args k ≡ (ok tt, k')
      → finish_del host json remote path (run_del host json remote args conf k) ≡ (ok tt, k')
  unfolding cmd_del
  parsed_by none path k k' e loads h = absurd (err-ne-ok (ap (λ q. q.0) (rw (cmd_del, e) at h)))
  parsed_by (some input) path k k' e loads h = rw (cmd_del, e, loads) at h

  -- A `cmd_del` that succeeded for a pod with a path, from the configuration that is cached.
  pub cmd_del_ok :
      (path : FilePath) (k k' : K)
      → args.netns ≢ ""
      → load_conf_from_cache host json k args ≡ ok (conf, path)
      → cmd_del host json remote args k ≡ (ok tt, k')
      → Resets
        × Ended (run_del host json remote args conf k).1
        × (k' ≡ (clean_cached_net_conf host path (run_del host json remote args conf k).1).1)
  cmd_del_ok path k k' in_pod loads h =
      let (ran, cleaned) =
        finish_del_ok path (run_del host json remote args conf k) k'
          (parsed_by (json.unmarshal args.stdin_data) path k k' refl loads h) in
      let (reset, ended) =
        run_del_ok k (run_del host json remote args conf k).1 (not_empty args.netns in_pod) ran in
      (reset, ended, cleaned)
