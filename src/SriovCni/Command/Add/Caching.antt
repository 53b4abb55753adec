-- ===== src/SriovCni/Command/Add/Caching.antt =====
-- What a `cmd_add` that succeeded leaves for `cmd_del`.
use ipu_opi_plugins.Prelude.{ℕ, ◌≡◌, refl, sym, ap, ◌∙◌, false, Option, some, String, string_eq}
use ipu_opi_plugins.Outcome.{attempt, ok}
use ipu_opi_plugins.Outcome.Success.{bind_ok, attempt_ok, or_throw_ok}
use ipu_opi_plugins.SriovCni.Types.{NetConf}
use ipu_opi_plugins.SriovCni.Host.{opened, Host, FilePath, write_failed, mkdir_failed, bad_json}
use ipu_opi_plugins.SriovCni.Utils.{cache_path, save_scratch_net_conf, read_scratch_net_conf}
use ipu_opi_plugins.SriovCni.Packets.{Sockets}
use ipu_opi_plugins.SriovCni.Allocator.{new_pci_allocator, save_allocated_pci, lock_path}
use ipu_opi_plugins.SriovCni.Allocator.Reserve.{KeepsFiles}
use ipu_opi_plugins.SriovCni.Config.{
  Json, CmdArgs, load_conf, load_conf_from_cache, save_net_conf, default_cni_dir,
}
use ipu_opi_plugins.SriovCni.Command.{BridgePort, Remote, create_request}
use ipu_opi_plugins.SriovCni.Command.Add.{CniResult, Adding, run_add, choose_mac, get_env_args}
use ipu_opi_plugins.SriovCni.Command.Add.Deferred.{cmd_add}
use ipu_opi_plugins.SriovCni.Command.Add.Recording.{Recorded}
use ipu_opi_plugins.SriovCni.Command.Add.Whole.{IsAdded, cmd_add-IsAdded}

-- What the cache keeps of a configuration: all but the mode, which has the tag `json:"-"`.
abbrev pub without_mode : NetConf → NetConf
without_mode conf = record conf { dpdk_mode = false }

-- Of the documented behaviour of `encoding/json`: what was written is read back.
abbrev pub ReadsBack : Json → Type 0
ReadsBack json =
    (conf : NetConf) (t : String)
    → json.marshal conf ≡ some t
    → json.unmarshal t ≡ some (without_mode conf)

module _ {K : Type 0} (host : Host K) (json : Json) (remote : Remote K) (adding : Adding K)
    (sockets : Sockets K) (content : K → FilePath → Option String) (keeps : KeepsFiles host content)
    (reads : ReadsBack json) (args : CmdArgs) where
  abbrev pub cached_conf : FilePath
  cached_conf = cache_path host default_cni_dir args.container_id args.if_name

  abbrev pub lock : String → FilePath
  lock pci = lock_path (new_pci_allocator default_cni_dir) pci

  -- The steps behind a file leave it alone: a new directory and a lock file the cached
  -- configuration, the call of the service and the printed result both files.
  pub record LeavesFiles : Type 0 where
    pub by_directory : (d f : FilePath) (k : K) → content (host.mkdir_all d k).1 f ≡ content k f
    pub by_lock :
        (pci t : String) (k : K)
        → content (host.write_file (lock pci) t k).1 cached_conf ≡ content k cached_conf
    pub by_request :
        (f : FilePath) (addr : String) (port : BridgePort) (k : K)
        → content (adding.create_bridge_port addr port k).1 f ≡ content k f
    pub by_print :
        (f : FilePath) (result : CniResult) (version : String) (k : K)
        → content (adding.print_result result version k).1 f ≡ content k f

  save_net_conf_leaves :
      (conf : NetConf) (k k' : K)
      → save_net_conf host json args.container_id default_cni_dir args.if_name conf k ≡ (ok tt, k')
      → (t : String) × (json.marshal conf ≡ some t) × (content k' cached_conf ≡ some t)
  unfolding save_net_conf save_scratch_net_conf
  save_net_conf_leaves conf k k' h =
      let (t, written, rest) =
        or_throw_ok (json.marshal conf) bad_json
          (save_scratch_net_conf host default_cni_dir cached_conf) k k' tt h in
      let (_, k1, _, last) =
        bind_ok (attempt (host.mkdir_all default_cni_dir) mkdir_failed)
          (λ _. attempt (host.write_file cached_conf t) write_failed) k k' tt rest in
      (
        t,
        written,
        keeps.write_leaves cached_conf t k1 k'
            (attempt_ok (host.write_file cached_conf t) write_failed k1 k' tt last),
      )

  -- Both files after the lock was written.
  save_allocated_pci_keeps :
      (leaves : LeavesFiles) (pci ns : String) (k k' : K)
      → save_allocated_pci host (new_pci_allocator default_cni_dir) pci ns k ≡ (ok tt, k')
      → (content k' (lock pci) ≡ some ns) × (content k' cached_conf ≡ content k cached_conf)
  unfolding save_allocated_pci
  save_allocated_pci_keeps leaves pci ns k k' h =
      let dir = (new_pci_allocator default_cni_dir).data_dir in
      let (_, k1, made, last) =
        bind_ok (attempt (host.mkdir_all dir) mkdir_failed)
          (λ _. attempt (host.write_file (lock pci) ns) write_failed) k k' tt h in
      let wrote = attempt_ok (host.write_file (lock pci) ns) write_failed k1 k' tt last in
      (
        keeps.write_leaves (lock pci) ns k1 k' wrote,
        ap (λ q. content q.1 cached_conf) (sym wrote)
            ∙ leaves.by_lock pci ns k1
            ∙ ap (λ q. content q.1 cached_conf) (sym made)
            ∙ leaves.by_directory dir cached_conf k,
      )

  Recorded-keeps :
      (leaves : LeavesFiles) (conf : NetConf) (k' : K)
      → (r : Recorded host json remote adding sockets args conf k') → (f : FilePath)
      → content k' f ≡ content r.marked f
  Recorded-keeps leaves conf k' r f =
      ap (λ q. content q.1 f) (sym r.prints)
      ∙ leaves.by_print f r.result conf.cni_version r.created
      ∙ ap (λ q. content q.1 f) (sym r.creates)
      ∙ leaves.by_request f conf.dpu_daemon_address (create_request conf r.mac) r.marked

  load_cached :
      (conf : NetConf) (t : String) (k : K)
      → json.marshal conf ≡ some t
      → content k cached_conf ≡ some t
      → load_conf_from_cache host json k args ≡ ok (without_mode conf, cached_conf)
  unfolding load_conf_from_cache read_scratch_net_conf
  load_cached conf t k written there =
      rw
        (
          load_conf_from_cache,
          read_scratch_net_conf,
          keeps.read_there k cached_conf t there,
          reads conf t written,
        )
        refl

  -- The lock file holds the path of the namespace at the end.
  pub locks :
      (leaves : LeavesFiles) (conf : NetConf) (k' : K)
      → Recorded host json remote adding sockets args conf k'
      → content k' (lock conf.device_id) ≡ some args.netns
  locks leaves conf k' r =
      Recorded-keeps leaves conf k' r (lock conf.device_id)
      ∙ (save_allocated_pci_keeps leaves conf.device_id args.netns r.cached r.marked r.marks).0

  -- What is cached is the configuration that was recorded.
  pub load_added :
      (leaves : LeavesFiles) (k k' : K)
      → (added : IsAdded host json remote adding sockets args k k')
      → load_conf_from_cache host json k' args ≡ ok (without_mode added.runs.0, cached_conf)
  load_added leaves k k' added =
      let (conf, _, r) = added.runs in
      let (t, written, there) = save_net_conf_leaves conf r.before r.cached r.caches in
      let kept =
        (save_allocated_pci_keeps leaves conf.device_id args.netns r.cached r.marked r.marks).1 in
      load_cached conf t k' written (Recorded-keeps leaves conf k' r cached_conf ∙ kept ∙ there)

  -- The run of `cmdAdd` from the state `k` to the state `k'`, which ended with a configuration: from
  -- what `LoadConf` answered, with the MAC address chosen, in the pod's namespace.
  pub record Ran (conf : NetConf) (k k' : K) : Type 0 where
    pub loaded : NetConf
    pub k1 : K
    pub env_mac : Option String
    pub fd : ℕ
    pub loads : load_conf host json args.stdin_data k ≡ (ok loaded, k1)
    pub env : get_env_args adding args.args ≡ some env_mac
    pub opens : host.get_ns k1 args.netns ≡ opened fd
    pub runs :
        run_add host json remote adding sockets args fd (k1, choose_mac env_mac loaded)
        ≡ (ok tt, (k', conf))

  -- Of files that keep what is written, of a JSON library that reads back what it wrote but for
  -- the mode, and of steps that leave files alone that they do not name: when `cmdAdd` succeeds,
  -- its steps in the pod's namespace, from the configuration that `LoadConf` answered with the
  -- MAC address chosen, ended with a configuration; `LoadConfFromCache` with the same arguments
  -- answers, in the state left, that configuration but for its mode; the lock file of its device
  -- holds the path of the pod's namespace; and calls that led to the state left, each in the
  -- state that the one before it left, were: the configuration was cached, the device was marked,
  -- the service at the address of the configuration created the port that is asked for with it
  -- and with the address that its `EffectiveMAC` stands for, and the result was printed, which
  -- left the state that `cmdAdd` leaves.
  pub cmd_add-load_conf_from_cache :
      (leaves : LeavesFiles) (k k' : K)
      → cmd_add host json remote adding sockets args k ≡ (ok tt, k')
      → (conf : NetConf) × Ran conf k k'
        × (load_conf_from_cache host json k' args ≡ ok (without_mode conf, cached_conf))
        × (content k' (lock conf.device_id) ≡ some args.netns)
        × Recorded host json remote adding sockets args conf k'
  cmd_add-load_conf_from_cache leaves k k' h =
      let added = cmd_add-IsAdded host json remote adding sockets args k k' h in
      let (conf, _, r) = added.runs in
      (
        conf,
        record {
          loaded = added.loaded;
          k1 = added.k1;
          env_mac = added.env_mac;
          fd = added.fd;
          loads = added.loads;
          env = added.env;
          opens = added.opens;
          runs = added.ran;
        },
        load_added leaves k k' added,
        locks leaves conf k' r,
        r,
      )
